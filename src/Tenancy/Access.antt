-- ===== src/Tenancy/Access.antt =====
-- What `ensure_app_user` of services/tenant_service.py leaves of the platform role, and which
-- organization the checks of services/tenant_service.py and main.py let a user act for.
use shiku_ai_powered_sales_d.Prelude.{
  ==_iff, ==_refl, Bool, Bool-cases, List, Option, arith, find_row_holds, inl, inr, none, refl,
  some, some_eq, true, ℕ, ◌&&◌, ◌==◌, ◌||◌, ◌≡◌, ◌⊎◌,
}
use shiku_ai_powered_sales_d.Tenancy.Users.{
  AppUser, Member, MemberStatus, Role, Tenants, active, checked_organization, disabled,
  get_membership, has_org_member_role, has_org_role, invited, is_active_member, is_membership,
  may_act, or_workflow, resolve_organization_id, role_in, workflow_org_id,
}
use mathlib.Core.Path.{subst}

-- The user may act for the organization: as the owner for that of the platform, or as an active
-- member with one of the roles.
abbrev pub MayAct : ℕ → AppUser → List Role → Tenants → ℕ → Type 0
MayAct platform u roles db org =
    ((u.is_system_owner ≡ true) × (org ≡ platform))
    ⊎ ((m : Member) × (get_membership u.id org db ≡ some m)
        × (m.user_id ≡ u.id)
        × (m.organization_id ≡ org)
        × (m.status ≡ active)
        × (role_in roles m.role ≡ true))

active_only : (s : MemberStatus) → is_active_member s ≡ true → s ≡ active
active_only active h = refl
active_only invited h = absurd (cc)
active_only disabled h = absurd (cc)

membership-MayAct :
    (platform : ℕ) (u : AppUser) (roles : List Role) (db : Tenants) (org : ℕ)
    → may_act roles (get_membership u.id org db) ≡ true
    → MayAct platform u roles db org
membership-MayAct platform u roles db org h = go (get_membership u.id org db) refl h
  where
    go :
        (o : Option Member)
        → get_membership u.id org db ≡ o
        → may_act roles o ≡ true
        → MayAct platform u roles db org
    go none e h = absurd (cc)
    go (some m) e h =
        let found : is_membership u.id org m ≡ true =
          find_row_holds (is_membership u.id org) db.members e in
        inr (
          m,
          e,
          (==_iff m.user_id u.id).0 (ground arith),
          (==_iff m.organization_id org).0 (ground arith),
          active_only m.status (ground arith),
          h,
        )

role-MayAct :
    (platform : ℕ) (u : AppUser) (roles : List Role) (db : Tenants) (org : ℕ)
    → has_org_member_role platform u org roles db ≡ true
    → MayAct platform u roles db org
role-MayAct platform u roles db org h = elim (Bool-cases (u.is_system_owner && org == platform)) [
  | inl t ↦ inl (ground arith, (==_iff org platform).0 (ground arith))
  | inr n ↦ membership-MayAct platform u roles db org (ground arith)
]

-- The organization that is asked for, if one is.
abbrev pub respects : Option ℕ → ℕ → Bool
respects none org = true
respects (some k) org = k == 0 || org == k

resolved-respects :
    (u : AppUser) (requested : Option ℕ) (org : ℕ) (roles : List Role) (db : Tenants)
    → resolve_organization_id u requested roles db ≡ some org
    → respects requested org ≡ true
unfolding resolve_organization_id
resolved-respects u none org roles db e = refl
resolved-respects u (some k) org roles db e = elim (Bool-cases (k == 0)) [
  | inl t ↦ rw t refl
  | inr n ↦ elim (Bool-cases (has_org_role u k roles db)) [
    | inl h ↦ let same : k ≡ org = some_eq (rw (n, h) at e) in rw (n, same) (==_refl org)
    | inr f ↦ absurd (cc (rw (n, f) at e))
  ]
]

-- An organization for which a workflow request is let through is the requested one, if one was
-- requested, and has an active subscription; and the user may act for it, as the owner of the
-- platform for the platform's organization or as an active member of it with one of the roles.
pub workflow_org_id-MayAct :
    (platform : ℕ) (u : AppUser) (requested : Option ℕ) (roles : List Role)
    (has_subscription : ℕ → Bool) (db : Tenants) (org : ℕ)
    → workflow_org_id platform u requested roles has_subscription db ≡ some org
    → MayAct platform u (or_workflow roles) db org
      × (has_subscription org ≡ true)
      × (respects requested org ≡ true)
unfolding workflow_org_id
workflow_org_id-MayAct platform u requested roles has_subscription db org e =
    go (resolve_organization_id u requested (or_workflow roles) db) refl e
  where
    passed :
        (k : ℕ)
        → resolve_organization_id u requested (or_workflow roles) db ≡ some k
        → has_org_member_role platform u k (or_workflow roles) db ≡ true
        → has_subscription k ≡ true
        → MayAct platform u (or_workflow roles) db k
          × (has_subscription k ≡ true)
          × (respects requested k ≡ true)
    passed k r h b = (
      role-MayAct platform u (or_workflow roles) db k h,
      b,
      resolved-respects u requested k (or_workflow roles) db r,
    )

    go :
        (o : Option ℕ)
        → resolve_organization_id u requested (or_workflow roles) db ≡ o
        → checked_organization platform u (or_workflow roles) has_subscription db o ≡ some org
        → MayAct platform u (or_workflow roles) db org
          × (has_subscription org ≡ true)
          × (respects requested org ≡ true)
    go none r e = absurd (cc)
    go (some k) r e =
        elim (Bool-cases
          (has_org_member_role platform u k (or_workflow roles) db && has_subscription k)) [
            | inl t ↦
                let same : k ≡ org = some_eq (rw t at e) in
                subst
                  (λ o.
                    MayAct platform u (or_workflow roles) db o
                    × (has_subscription o ≡ true)
                    × (respects requested o ≡ true))
                  same (passed k r (ground arith) (ground arith))
            | inr f ↦ absurd (cc (rw f at e))
          ]
