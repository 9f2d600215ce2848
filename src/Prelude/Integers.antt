-- ===== src/Prelude/Integers.antt =====
-- Python's integers over the native numbers, for arguments that may be negative.
use Prim.Native.Nat.{ℕ}
use shiku_ai_powered_sales_d.Prelude.Tests.{max_of}

pub data ℤ : Type 0 where
  pos : ℕ → ℤ
  negsuc : ℕ → ℤ

-- `max(z, n)` for a bound that is not negative.
abbrev pub at_least : ℕ → ℤ → ℕ
at_least n (pos k) = max_of k n
at_least n (negsuc k) = n
