-- ===== src/Tenancy/Owners.antt =====
-- What `ensure_app_user` of services/tenant_service.py leaves of the platform's owners.
use shiku_ai_powered_sales_d.Prelude.{
  Bool, Bool-cases, List, Option, Text, [], any, ap, arith, count_rows, false, inl, inr, is_empty,
  length, none, refl, select-last_out, some, some_eq, suc, true, update_rows, ℕ, ◌&&◌, ◌++◌, ◌==◌,
  ◌∷◌, ◌≡◌, ◌⊎◌,
}
use shiku_ai_powered_sales_d.Tenancy.Users.{
  AppUser, Identity, Tenants, ensure_app_user, find_user, has_user_id, is_owner_email, new_user,
  put_user, see_user,
}
use mathlib.Core.Path.{subst}

abbrev pub is_owner : AppUser → Bool
is_owner u = u.is_system_owner

abbrev pub is_owner_with_id : ℕ → AppUser → Bool
is_owner_with_id k u = u.id == k && u.is_system_owner

-- No owner is lost, and none is won unless the address is one of the platform's owners.
abbrev pub KeepsOwners : List Text → Identity → List AppUser → List AppUser → Type 0
KeepsOwners owners i before after =
    ((k : ℕ) → any (is_owner_with_id k) before ≡ true → any (is_owner_with_id k) after ≡ true)
    × (is_owner_email owners i.email ≡ true
        ⊎ (count_rows is_owner after ≡ count_rows is_owner before))

still_owner :
    (owners : List Text) (i : Identity) (now : ℕ) (q : AppUser → Bool) (us : List AppUser) (k : ℕ)
    → any (is_owner_with_id k) us ≡ true
    → any (is_owner_with_id k) (update_rows q (see_user owners i now) us) ≡ true
still_owner owners i now q [] k h = absurd (cc)
still_owner owners i now q (u ∷ us) k h = elim (Bool-cases (is_owner_with_id k u)) [
  | inl t ↦ elim (Bool-cases (q u)) [ inl a ↦ rw a (ground arith) | inr b ↦ rw b (rw t refl) ]
  | inr n ↦ let rest = still_owner owners i now q us k (rw n at h) in ground arith
]

same_owners :
    (owners : List Text) (i : Identity) (now : ℕ) (q : AppUser → Bool) (us : List AppUser)
    → is_owner_email owners i.email ≡ false
    → count_rows is_owner (update_rows q (see_user owners i now) us) ≡ count_rows is_owner us
same_owners owners i now q [] n = refl
same_owners owners i now q (u ∷ us) n =
    let rest = same_owners owners i now q us n in
    elim (Bool-cases (q u)) [
      | inl a ↦ elim (Bool-cases u.is_system_owner) [
        | inl t ↦ rw (a, t) (ap suc rest)
        | inr f ↦ rw (a, f, n) rest
      ]
      | inr b ↦ elim (Bool-cases u.is_system_owner) [
        | inl t ↦ rw (b, t) (ap suc rest)
        | inr f ↦ rw (b, f) rest
      ]
    ]

any-front :
    (q : AppUser → Bool) (us : List AppUser) (v : AppUser)
    → any q us ≡ true
    → any q (us ++ v ∷ []) ≡ true
any-front q [] v h = absurd (cc)
any-front q (u ∷ us) v h = elim (Bool-cases (q u)) [
  | inl t ↦ rw t refl
  | inr n ↦ rw n (any-front q us v (rw n at h))
]

-- An authenticated request leaves every owner of the platform an owner, and the number of owners as
-- it was unless the address of the request is one of those that the settings name.
pub ensure_app_user-KeepsOwners :
    (owners : List Text) (i : Identity) (now : ℕ) (db : Tenants) (u : AppUser) (db' : Tenants)
    → ensure_app_user owners i now db ≡ some (u, db')
    → KeepsOwners owners i db.users db'.users
unfolding ensure_app_user
ensure_app_user-KeepsOwners owners i now db u db' e = elim (Bool-cases (is_empty i.clerk_user_id)) [
  | inl t ↦ absurd (cc (rw t at e))
  | inr n ↦
      let same : put_user owners i now (find_user i db.users) db ≡ (u, db') = some_eq (rw n at e) in
      subst (λ (r : AppUser × Tenants). KeepsOwners owners i db.users r.1.users) same
        (put (find_user i db.users))
]
  where
    put : (o : Option AppUser) → KeepsOwners owners i db.users (put_user owners i now o db).1.users
    put (some v) = (
      λ k h. still_owner owners i now (has_user_id v.id) db.users k h,
      elim (Bool-cases (is_owner_email owners i.email)) [
        | inl t ↦ inl t
        | inr n ↦ inr (same_owners owners i now (has_user_id v.id) db.users n)
      ],
    )
    put none = (
      λ k h. any-front (is_owner_with_id k) db.users (new_user owners i now db.next_user_id) h,
      elim (Bool-cases (is_owner_email owners i.email)) [
        | inl t ↦ inl t
        | inr n ↦ inr (
            ap length (select-last_out is_owner db.users (new_user owners i now db.next_user_id) n))
      ],
    )
