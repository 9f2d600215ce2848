-- ===== src/Fallback/Models.antt =====
-- The providers, the blacklist and the order of the providers in utils/model_fallback.py.
use shiku_ai_powered_sales_d.Prelude.{
  Bool, List, Option, Text, [], any, codes, delete_rows, false, has_prefix, if◌then◌else◌, length,
  ltb, none, some, sort_by, text_eq, true, ℕ, ◌+◌, ◌∷◌,
}

-- `ModelProviderInfo`, its client apart.
pub record Provider : Type 0 where
  pub name : Text
  pub model : Text
  pub billing_source : Text
  pub provider_credential_id : Option ℕ

-- The orders of an `AgentFallbackProfile`.
pub record Profile : Type 0 where
  pub quality_order : List Text
  pub balanced_order : List Text
  pub cost_order : List Text

abbrev pub blacklist_duration : ℕ
blacklist_duration = 300

abbrev pub openrouter_providers : List Text
openrouter_providers =
    codes "Meta"
    ∷ codes "OpenRouter-Llama"
    ∷ codes "DeepSeek"
    ∷ codes "Google"
    ∷ codes "OpenRouter-Auto"
    ∷ []

abbrev pub contains : List Text → Text → Bool
contains names name = any (λ x. text_eq x name) names

-- `_BLACKLIST`: the names with the times at which they expire, the latest first.
abbrev pub Blacklist : Type 0
Blacklist = List (Text × ℕ)

abbrev pub put_all : ℕ → List Text → Blacklist → Blacklist
put_all expiry [] list = list
put_all expiry (name ∷ names) list = (name, expiry) ∷ put_all expiry names list

unfoldable pub blacklist_provider : ℕ → Text → Blacklist → Blacklist
blacklist_provider now name list =
    let expiry = now + blacklist_duration in
    if contains openrouter_providers name
    then put_all expiry openrouter_providers list
    else (name, expiry) ∷ list

abbrev pub expiry_of : Text → Blacklist → Option ℕ
expiry_of name [] = none
expiry_of name ((n, t) ∷ rest) = if text_eq n name then some t else expiry_of name rest

abbrev pub forget : Text → Blacklist → Blacklist
forget name = delete_rows (λ (e : Text × ℕ). text_eq e.0 name)

-- The answer, and the blacklist without an entry that has expired.
abbrev pub at_expiry : ℕ → Text → Blacklist → Option ℕ → Bool × Blacklist
at_expiry now name list none = (false, list)
at_expiry now name list (some t) = if ltb t now then (false, forget name list) else (true, list)

unfoldable pub is_blacklisted : ℕ → Text → Blacklist → Bool × Blacklist
is_blacklisted now name list = at_expiry now name list (expiry_of name list)

-- `all(is_blacklisted(p) for p in names)`, which stops at the first that is not.
abbrev pub all_blacklisted : ℕ → List Text → Blacklist → Bool × Blacklist
all_blacklisted now [] list = (true, list)
all_blacklisted now (name ∷ names) list =
    let (listed, list') = is_blacklisted now name list in
    let rest = all_blacklisted now names list' in if listed then rest else (false, list')

-- The head of `get_available_providers`: where all the configured names are on the blacklist, it is
-- cleared.
unfoldable pub recover_blacklist : ℕ → List Text → Blacklist → Blacklist
recover_blacklist now [] list = list
recover_blacklist now (name ∷ names) list =
    let (all_listed, list') = all_blacklisted now (name ∷ names) list in
    if all_listed then [] else list'

-- `name.removeprefix(prefix)` where `name` starts with the prefix.
abbrev drop_prefix : Text → Text → Text
drop_prefix [] s = s
drop_prefix (c ∷ p) [] = []
drop_prefix (c ∷ p) (d ∷ s) = drop_prefix p s

abbrev platform_name : Text → Text
platform_name name = if has_prefix (codes "Org") name then drop_prefix (codes "Org") name else name

abbrev family_of : Text → Text
family_of name =
    if has_prefix (codes "Groq") name
    then codes "Groq"
    else if has_prefix (codes "Cerebras") name
    then codes "Cerebras"
    else if text_eq name (codes "OpenRouter")
    then codes "OpenRouter-Auto"
    else name

unfoldable pub provider_family_name : Text → Text
provider_family_name name = family_of (platform_name name)

-- `{name: index for index, name in enumerate(order)}`, where a later index replaces an earlier one.
abbrev index_from : ℕ → List Text → Text → Option ℕ
index_from n [] key = none
index_from n (x ∷ xs) key = elim (index_from (n + 1) xs key) [
  | none ↦ if text_eq x key then some n else none
  | some k ↦ some k
]

abbrev or_index : Option ℕ → ℕ → ℕ
or_index none d = d
or_index (some n) d = n

unfoldable pub rank : List Text → Provider → ℕ
rank order p =
    or_index (index_from 0 order p.name)
      (or_index (index_from 0 order (provider_family_name p.name)) (length order))

abbrev pub configured_order : Profile → Text → List Text
configured_order profile mode =
    if text_eq mode (codes "cost_optimized")
    then profile.cost_order
    else if text_eq mode (codes "balanced")
    then profile.balanced_order
    else profile.quality_order

unfoldable pub ordered_providers_for_agent : List Provider → Profile → Text → List Provider
ordered_providers_for_agent providers profile mode =
    sort_by (rank (configured_order profile mode)) providers

abbrev pub is_of_family : Text → Provider → Bool
is_of_family family p = text_eq (provider_family_name p.name) family

-- No provider of Cerebras where there are tools, and none of Groq where there is an output type.
unfoldable pub usable_providers : Bool → Bool → List Provider → List Provider
usable_providers has_tools has_output providers =
    let kept =
      if has_tools then delete_rows (is_of_family (codes "Cerebras")) providers else providers in
    if has_output then delete_rows (is_of_family (codes "Groq")) kept else kept
