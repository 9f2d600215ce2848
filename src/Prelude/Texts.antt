-- ===== src/Prelude/Texts.antt =====
-- Python text as a list of code points. White space and letter case are those of ASCII.
use Prim.Native.Nat.{ℕ, ◌+◌, ◌-◌}
use Prim.Native.Char.{code}
use Prim.Native.String.{String}
use mathlib.Core.Bool.{Bool, true, false, ◌&&◌, ◌||◌}
use mathlib.Core.List.{List, [], ◌∷◌, map, reverse}
use mathlib.Core.Option.{Option, none, some}
use mathlib.Core.Path.{◌≡◌, refl}
use native.Mathlib.Omega.{arith}
use shiku_ai_powered_sales_d.Prelude.Tests.{==_iff, ==_refl, ◌==◌, leb, if◌then◌else◌}

abbrev pub Text : Type 0
Text = List ℕ

abbrev pub codes : String → Text
codes String.[] = []
codes (String.◌∷◌ c s) = code c ∷ codes s

abbrev pub text_eq : Text → Text → Bool
text_eq [] [] = true
text_eq [] (d ∷ t) = false
text_eq (c ∷ s) [] = false
text_eq (c ∷ s) (d ∷ t) = c == d && text_eq s t

abbrev pub is_empty : Text → Bool
is_empty [] = true
is_empty (c ∷ s) = false

pub text_eq_refl : (s : Text) → text_eq s s ≡ true
text_eq_refl [] = refl
text_eq_refl (c ∷ s) = ground (arith, ==_refl c, text_eq_refl s)

pub text_eq_sound : (s t : Text) → text_eq s t ≡ true → s ≡ t
text_eq_sound [] [] h = refl
text_eq_sound [] (d ∷ t) h = absurd (cc)
text_eq_sound (c ∷ s) [] h = absurd (cc)
text_eq_sound (c ∷ s) (d ∷ t) h =
    let here : (c == d) ≡ true = ground arith in
    let rest : text_eq s t ≡ true = ground arith in
    let a : c ≡ d = (==_iff c d).0 here in let b : s ≡ t = text_eq_sound s t rest in cc

pub text_eq_sym : (s t : Text) → text_eq s t ≡ text_eq t s
text_eq_sym [] [] = refl
text_eq_sym [] (d ∷ t) = refl
text_eq_sym (c ∷ s) [] = refl
text_eq_sym (c ∷ s) (d ∷ t) = ground (arith, text_eq_sym s t)

-- `s.startswith(p)`, with the prefix first.
abbrev pub has_prefix : Text → Text → Bool
has_prefix [] s = true
has_prefix (c ∷ p) [] = false
has_prefix (c ∷ p) (d ∷ s) = c == d && has_prefix p s

-- `p in s`
abbrev pub occurs_in : Text → Text → Bool
occurs_in p [] = is_empty p
occurs_in p (d ∷ s) = has_prefix p (d ∷ s) || occurs_in p s

abbrev pub is_space : ℕ → Bool
is_space c = c == 32 || leb 9 c && leb c 13

abbrev pub skip_spaces : Text → Text
skip_spaces [] = []
skip_spaces (c ∷ s) = let rest = skip_spaces s in if is_space c then rest else c ∷ s

-- `s.strip()`
abbrev pub strip : Text → Text
strip s = reverse (skip_spaces (reverse (skip_spaces s)))

abbrev pub lower_code : ℕ → ℕ
lower_code c = if leb 65 c && leb c 90 then c + 32 else c

-- `s.lower()`
abbrev pub lower : Text → Text
lower = map lower_code

abbrev pub upper_code : ℕ → ℕ
upper_code c = if leb 97 c && leb c 122 then c - 32 else c

-- `s.upper()`
abbrev pub upper : Text → Text
upper = map upper_code

-- `value or default` on a text that may be missing.
abbrev pub or_text : Option Text → Text → Text
or_text none d = d
or_text (some s) d = if is_empty s then d else s
