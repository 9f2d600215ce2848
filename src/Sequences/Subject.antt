-- ===== src/Sequences/Subject.antt =====
-- `_sequence_subject` of services/sequence_service.py. Its `while` loop is recursion on fuel.
use shiku_ai_powered_sales_d.Prelude.{
  Bool, Bool-cases, Option, Text, [], arith, codes, false, has_prefix, if◌then◌else◌, inl, inr,
  is_empty, is_space, length, lower, refl, reverse, skip_spaces, strip, suc, sym, true, zero, ℕ,
  ◌+◌, ◌<◌, ◌==◌, ◌||◌, ◌∷◌, ◌≡◌, ◌≤◌,
}
use mathlib.Core.List.{reverse_aux}

abbrev starts_with_space : Text → Bool
starts_with_space [] = false
starts_with_space (c ∷ s) = is_space c

-- Each run of white space is one space.
abbrev collapse : Text → Text
collapse [] = []
collapse (c ∷ s) =
    let rest = collapse s in
    if is_space c then (if starts_with_space s then rest else 32 ∷ rest) else c ∷ rest

-- `" ".join((subject or "").strip().split())`
abbrev pub joined_words : Text → Text
joined_words subject = collapse (strip subject)

-- `text.lower().startswith(("re:", "fw:", "fwd:"))`
unfoldable pub is_reply_like : Text → Bool
is_reply_like text =
    has_prefix (codes "re:") (lower text)
    || has_prefix (codes "fw:") (lower text)
    || has_prefix (codes "fwd:") (lower text)

-- `text.split(":", 1)[1]`, where a colon is there.
abbrev pub after_colon : Text → Text
after_colon [] = []
after_colon (c ∷ s) = if c == 58 then s else after_colon s

-- The `while` loop.
unfoldable pub strip_replies : ℕ → Text → Text
strip_replies zero text = text
strip_replies (suc n) text =
    let next = strip_replies n (strip (after_colon text)) in
    if is_reply_like text then next else text

-- The loop stops after at most as many turns as the text has letters.
unfoldable pub sequence_subject : (Text → Option Text → Text) → Text → Text → Option Text → Text
sequence_subject normalize_outreach_subject default subject company =
    let words = joined_words subject in
    let text = strip_replies (length words) words in
    normalize_outreach_subject (if is_empty text then default else text) company

length-reverse_aux : (xs acc : Text) → length (reverse_aux xs acc) ≡ length xs + length acc
length-reverse_aux [] acc = omega arith
length-reverse_aux (x ∷ xs) acc = omega (arith, length-reverse_aux xs (x ∷ acc))

length-reverse : (xs : Text) → length (reverse xs) ≡ length xs
length-reverse xs = omega (arith, length-reverse_aux xs [])

length-skip_spaces : (s : Text) → length (skip_spaces s) ≤ length s
length-skip_spaces [] = omega arith
length-skip_spaces (c ∷ s) = ground (arith, length-skip_spaces s)

length-strip : (s : Text) → length (strip s) ≤ length s
length-strip s =
    let inner = skip_spaces (reverse (skip_spaces s)) in
    omega (
      arith,
      length-reverse inner,
      length-skip_spaces (reverse (skip_spaces s)),
      length-reverse (skip_spaces s),
      length-skip_spaces s,
    )

length-after_colon : (s : Text) → length (after_colon s) ≤ length s
length-after_colon [] = omega arith
length-after_colon (c ∷ s) = ground (arith, length-after_colon s)

-- A turn shortens the text.
shorter :
    (text : Text) → is_reply_like text ≡ true → length (strip (after_colon text)) < length text
unfolding is_reply_like
shorter [] e = absurd (cc)
shorter (c ∷ s) e = omega (arith, length-strip (after_colon (c ∷ s)), tail)
  where
    tail : length (after_colon (c ∷ s)) ≤ length s
    tail = ground (arith, length-after_colon s)

-- A text that is not marked is left, whatever the fuel.
unmarked : (n : ℕ) (text : Text) → is_reply_like text ≡ false → strip_replies n text ≡ text
unfolding strip_replies
unmarked zero text e = refl
unmarked (suc n) text e = rw e refl

-- Any two amounts of fuel that are enough agree.
enough :
    (n m : ℕ) (text : Text)
    → length text ≤ n
    → length text ≤ m
    → strip_replies n text ≡ strip_replies m text
unfolding strip_replies
enough zero m text h k = elim (Bool-cases (is_reply_like text)) [
  | inr f ↦ sym (unmarked m text f)
  | inl t ↦ absurd (omega (arith, shorter text t))
]
enough (suc n) zero text h k = elim (Bool-cases (is_reply_like text)) [
  | inr f ↦ unmarked (suc n) text f
  | inl t ↦ absurd (omega (arith, shorter text t))
]
enough (suc n) (suc m) text h k = elim (Bool-cases (is_reply_like text)) [
  | inr f ↦ rw f refl
  | inl t ↦
      let less = shorter text t in
      rw t (enough n m (strip (after_colon text)) (omega arith) (omega arith))
]

ends : (n : ℕ) (text : Text) → length text ≤ n → is_reply_like (strip_replies n text) ≡ false
unfolding strip_replies
ends zero text h = elim (Bool-cases (is_reply_like text)) [
  | inr f ↦ f
  | inl t ↦ absurd (omega (arith, shorter text t))
]
ends (suc n) text h = elim (Bool-cases (is_reply_like text)) [
  | inr f ↦ rw f f
  | inl t ↦ let less = shorter text t in rw t (ends n (strip (after_colon text)) (omega arith))
]

-- With as many turns as the text has letters, or more, the loop ends at a text that does not begin
-- with a mark of a reply, and further turns change nothing.
pub strip_replies-ends :
    (n : ℕ) (text : Text)
    → length text ≤ n
    → (is_reply_like (strip_replies n text) ≡ false)
      × (strip_replies n text ≡ strip_replies (length text) text)
strip_replies-ends n text h = (ends n text h, enough n (length text) text h (omega arith))
