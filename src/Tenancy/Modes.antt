-- ===== src/Tenancy/Modes.antt =====
-- The text in which a plan keeps its routing modes: `_routing_modes_value`, which writes it, and
-- `_routing_modes_list`, which reads it, of services/tenant_service.py.
use shiku_ai_powered_sales_d.Prelude.{
  Bool, Bool-cases, List, Option, Text, [], ap, append-nil, arith, codes, false, if◌then◌else◌, inl,
  inr, is_empty, none, not, or_text, refl, reverse, some, some_eq, strip, text_eq, text_eq_sound,
  true, ◌&&◌, ◌++◌, ◌==◌, ◌∙◌, ◌∷◌, ◌≡◌, ◌⊎◌,
}
use shiku_ai_powered_sales_d.Tenancy.Routing.{is_one_of, llm_routing_modes}
use mathlib.Core.Option
use mathlib.Core.Path.{subst}

-- `raw.split(",")`, with the letters of the word that is read, the latest first.
abbrev pub split_commas : Text → Text → List Text
split_commas word [] = reverse word ∷ []
split_commas word (c ∷ s) = elim (c == 44) [
  | true ↦ reverse word ∷ split_commas [] s
  | false ↦ split_commas (c ∷ word) s
]

-- `",".join(modes)`
abbrev pub joined_modes : List Text → Text
joined_modes [] = []
joined_modes (m ∷ []) = m
joined_modes (m ∷ n ∷ ms) = m ++ 44 ∷ joined_modes (n ∷ ms)

abbrev pub is_known_mode : Text → Bool
is_known_mode = is_one_of llm_routing_modes

abbrev and_mode : Text → Option (List Text) → Option (List Text)
and_mode m none = none
and_mode m (some ms) = some (m ∷ ms)

-- One turn of the loop of `_routing_modes_value`, on the mode and the modes so far.
abbrev value_mode : List Text → Text → (List Text → Option (List Text)) → Option (List Text)
value_mode seen mode rest =
    if is_empty mode
    then rest seen
    else if not (is_known_mode mode)
    then none
    else if is_one_of seen mode
    then rest seen
    else and_mode mode (rest (seen ++ mode ∷ []))

-- The loop; `none` is its `ValueError`.
unfoldable pub value_modes : List Text → List Text → Option (List Text)
value_modes [] seen = some []
value_modes (part ∷ parts) seen = value_mode seen (strip part) (value_modes parts)

abbrev or_default_mode : Text → List Text → List Text
or_default_mode default [] = default ∷ []
or_default_mode default (m ∷ ms) = m ∷ ms

-- On the text that the value is, or that its elements are joined to.
unfoldable pub routing_modes_value : Option Text → Text → Option Text
routing_modes_value value default =
    Option.map (λ ms. joined_modes (or_default_mode default ms))
      (value_modes (split_commas [] (or_text value default)) [])

abbrev list_mode : List Text → Text → (List Text → List Text) → List Text
list_mode seen mode rest =
    if is_known_mode mode && not (is_one_of seen mode)
    then mode ∷ rest (seen ++ mode ∷ [])
    else rest seen

-- The loop of `_routing_modes_list`.
unfoldable pub list_modes : List Text → List Text → List Text
list_modes [] seen = []
list_modes (part ∷ parts) seen = list_mode seen (strip part) (list_modes parts)

-- `default.split(",", 1)[0]`
abbrev first_part : Text → Text
first_part [] = []
first_part (c ∷ s) = let rest = first_part s in if c == 44 then [] else c ∷ rest

unfoldable pub routing_modes_list : Option Text → Text → List Text
routing_modes_list value default =
    or_default_mode (first_part default) (list_modes (split_commas [] (or_text value default)) [])

-- Known modes, each of them once.
abbrev pub AreFresh : List Text → List Text → Type 0
AreFresh seen [] = Unit
AreFresh seen (m ∷ ms) =
    (is_known_mode m ≡ true) × (is_one_of seen m ≡ false) × AreFresh (seen ++ m ∷ []) ms

known_cases :
    (m : Text)
    → is_known_mode m ≡ true
    → (codes "quality_first" ≡ m) ⊎ (codes "balanced" ≡ m) ⊎ (codes "cost_optimized" ≡ m)
known_cases m h = elim (Bool-cases (text_eq (codes "quality_first") m)) [
  | inl a ↦ inl (text_eq_sound (codes "quality_first") m a)
  | inr na ↦ elim (Bool-cases (text_eq (codes "balanced") m)) [
    | inl b ↦ inr (inl (text_eq_sound (codes "balanced") m b))
    | inr nb ↦
        let c : text_eq (codes "cost_optimized") m ≡ true = ground arith in
        inr (inr (text_eq_sound (codes "cost_optimized") m c))
  ]
]

-- A known mode is a word of its own.
strip_known : (m : Text) → is_known_mode m ≡ true → strip m ≡ m
strip_known m h = elim (known_cases m h) [
  | inl a ↦ subst (λ t. strip t ≡ t) a refl
  | inr (inl b) ↦ subst (λ t. strip t ≡ t) b refl
  | inr (inr c) ↦ subst (λ t. strip t ≡ t) c refl
]

split_known :
    (m rest : Text)
    → is_known_mode m ≡ true
    → split_commas [] (m ++ 44 ∷ rest) ≡ m ∷ split_commas [] rest
split_known m rest h = elim (known_cases m h) [
  | inl a ↦ subst (λ t. split_commas [] (t ++ 44 ∷ rest) ≡ t ∷ split_commas [] rest) a refl
  | inr (inl b) ↦ subst (λ t. split_commas [] (t ++ 44 ∷ rest) ≡ t ∷ split_commas [] rest) b refl
  | inr (inr c) ↦ subst (λ t. split_commas [] (t ++ 44 ∷ rest) ≡ t ∷ split_commas [] rest) c refl
]

split_last : (m : Text) → is_known_mode m ≡ true → split_commas [] m ≡ m ∷ []
split_last m h = elim (known_cases m h) [
  | inl a ↦ subst (λ t. split_commas [] t ≡ t ∷ []) a refl
  | inr (inl b) ↦ subst (λ t. split_commas [] t ≡ t ∷ []) b refl
  | inr (inr c) ↦ subst (λ t. split_commas [] t ≡ t ∷ []) c refl
]

split_joined :
    (seen : List Text) (m : Text) (ms : List Text)
    → AreFresh seen (m ∷ ms)
    → split_commas [] (joined_modes (m ∷ ms)) ≡ m ∷ ms
split_joined seen m [] h = split_last m h.0
split_joined seen m (n ∷ ms) h =
    split_known m (joined_modes (n ∷ ms)) h.0
    ∙ ap (λ r. m ∷ r) (split_joined (seen ++ m ∷ []) n ms h.2)

list_fresh : (seen ms : List Text) → AreFresh seen ms → list_modes ms seen ≡ ms
unfolding list_modes
list_fresh seen [] h = refl
list_fresh seen (m ∷ ms) h =
    ap (λ t. list_mode seen t (list_modes ms)) (strip_known m h.0)
    ∙ rw (h.0, h.1) (ap (λ r. m ∷ r) (list_fresh (seen ++ m ∷ []) ms h.2))

-- The modes that the loop of `_routing_modes_value` keeps.
abbrev HasFresh : List Text → Option (List Text) → Type 0
HasFresh seen none = Unit
HasFresh seen (some ms) = AreFresh seen ms

and_mode-HasFresh :
    (seen : List Text) (m : Text) (o : Option (List Text))
    → is_known_mode m ≡ true
    → is_one_of seen m ≡ false
    → HasFresh (seen ++ m ∷ []) o
    → HasFresh seen (and_mode m o)
and_mode-HasFresh seen m none k n h = tt
and_mode-HasFresh seen m (some ms) k n h = (k, n, h)

value_mode-HasFresh :
    (seen : List Text) (m : Text) (rest : List Text → Option (List Text))
    → ((s : List Text) → HasFresh s (rest s))
    → HasFresh seen (value_mode seen m rest)
value_mode-HasFresh seen m rest h = elim (Bool-cases (is_empty m)) [
  | inl t ↦ rw t (h seen)
  | inr n ↦ elim (Bool-cases (is_known_mode m)) [
    | inr f ↦ rw (n, f) tt
    | inl k ↦ elim (Bool-cases (is_one_of seen m)) [
      | inl s ↦ rw (n, k, s) (h seen)
      | inr u ↦
          rw (n, k, u) (and_mode-HasFresh seen m (rest (seen ++ m ∷ [])) k u (h (seen ++ m ∷ [])))
    ]
  ]
]

value_modes-HasFresh : (parts seen : List Text) → HasFresh seen (value_modes parts seen)
unfolding value_modes
value_modes-HasFresh [] seen = tt
value_modes-HasFresh (part ∷ parts) seen =
    value_mode-HasFresh seen (strip part) (value_modes parts) (value_modes-HasFresh parts)

known_nonempty : (m rest : Text) → is_known_mode m ≡ true → is_empty (m ++ rest) ≡ false
known_nonempty m rest h = elim (known_cases m h) [
  | inl a ↦ subst (λ t. is_empty (t ++ rest) ≡ false) a refl
  | inr (inl b) ↦ subst (λ t. is_empty (t ++ rest) ≡ false) b refl
  | inr (inr c) ↦ subst (λ t. is_empty (t ++ rest) ≡ false) c refl
]

joined_nonempty :
    (m : Text) (ms : List Text) → is_known_mode m ≡ true → is_empty (joined_modes (m ∷ ms)) ≡ false
joined_nonempty m [] h = subst (λ t. is_empty t ≡ false) (append-nil m) (known_nonempty m [] h)
joined_nonempty m (n ∷ ms) h = known_nonempty m (44 ∷ joined_modes (n ∷ ms)) h

read_joined :
    (m : Text) (ms : List Text) (reader : Text)
    → AreFresh [] (m ∷ ms)
    → routing_modes_list (some (joined_modes (m ∷ ms))) reader ≡ m ∷ ms
unfolding routing_modes_list
read_joined m ms reader h =
    let text : or_text (some (joined_modes (m ∷ ms))) reader ≡ joined_modes (m ∷ ms) =
      rw (joined_nonempty m ms h.0) refl in
    let parts : split_commas [] (or_text (some (joined_modes (m ∷ ms))) reader) ≡ m ∷ ms =
      ap (split_commas []) text ∙ split_joined [] m ms h in
    ap (λ ps. or_default_mode (first_part reader) (list_modes ps [])) parts
    ∙ ap (or_default_mode (first_part reader)) (list_fresh [] (m ∷ ms) h)

read_back :
    (m : Text) (ms : List Text) (reader t : Text)
    → AreFresh [] (m ∷ ms)
    → joined_modes (m ∷ ms) ≡ t
    → AreFresh [] (routing_modes_list (some t) reader)
      × (joined_modes (routing_modes_list (some t) reader) ≡ t)
read_back m ms reader t h e =
    subst
      (λ x.
        AreFresh [] (routing_modes_list (some x) reader)
        × (joined_modes (routing_modes_list (some x) reader) ≡ x))
      e (rw (read_joined m ms reader h) (h, refl))

-- If the default is a known mode, the text that is written for a plan is read as known modes, each
-- once, of which it is the text, whatever the default of the reader.
pub routing_modes_list-routing_modes_value :
    (value : Option Text) (default reader : Text) (t : Text)
    → is_known_mode default ≡ true
    → routing_modes_value value default ≡ some t
    → AreFresh [] (routing_modes_list (some t) reader)
      × (joined_modes (routing_modes_list (some t) reader) ≡ t)
unfolding routing_modes_value
routing_modes_list-routing_modes_value value default reader t k e =
    go (value_modes (split_commas [] (or_text value default)) [])
      (value_modes-HasFresh (split_commas [] (or_text value default)) []) e
  where
    go :
        (o : Option (List Text))
        → HasFresh [] o
        → Option.map (λ ms. joined_modes (or_default_mode default ms)) o ≡ some t
        → AreFresh [] (routing_modes_list (some t) reader)
          × (joined_modes (routing_modes_list (some t) reader) ≡ t)
    go none h e = absurd (cc)
    go (some []) h e = read_back default [] reader t (k, refl, tt) (some_eq e)
    go (some (m ∷ ms)) h e = read_back m ms reader t h (some_eq e)
