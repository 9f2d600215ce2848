-- ===== src/Tenancy/Users.antt =====
-- The users of services/tenant_service.py, their memberships, and the checks of a role. The caches of
-- these functions are left out: with them an answer may be as old as their time to live.
use shiku_ai_powered_sales_d.Prelude.{
  Bool, List, Option, Text, [], any, false, find_row, if◌then◌else◌, is_empty, lower, none, not,
  reverse, select, some, sort_by, text_eq, true, update_rows, ℕ, ◌&&◌, ◌++◌, ◌+◌, ◌==◌, ◌||◌, ◌∷◌,
}
use shiku_ai_powered_sales_d.Store.Rows.{coalesce, truthy}
use mathlib.Core.Option

-- A row of `app_users`; the platform role is `system_owner` or `user`.
pub record AppUser : Type 0 where
  pub id : ℕ
  pub clerk_user_id : Text
  pub email : Option Text
  pub name : Option Text
  pub is_system_owner : Bool
  pub last_seen_at : Option ℕ

pub data Role : Type 0 where
  org_admin sales_manager sales_user viewer : Role

pub data MemberStatus : Type 0 where
  active invited disabled : MemberStatus

-- A row of `organization_users`.
pub record Member : Type 0 where
  pub organization_id : ℕ
  pub user_id : ℕ
  pub role : Role
  pub status : MemberStatus

-- A row of `organizations`, as far as it is read here.
pub record Organization : Type 0 where
  pub id : ℕ
  pub name : Text
  pub slug : Text

pub record Tenants : Type 0 where
  pub users : List AppUser
  pub members : List Member
  pub organizations : List Organization
  pub next_user_id : ℕ

-- What `user_identity_from_claims` reads; the address is in lower case.
pub record Identity : Type 0 where
  pub clerk_user_id : Text
  pub email : Option Text
  pub name : Option Text

abbrev has_clerk_id : Text → AppUser → Bool
has_clerk_id t u = text_eq u.clerk_user_id t

-- `lower(email) = lower(?)`
abbrev has_address : Text → AppUser → Bool
has_address t u = elim u.email [ none ↦ false | some e ↦ text_eq (lower e) (lower t) ]

abbrev by_address : Option Text → List AppUser → Option AppUser
by_address none us = none
by_address (some t) us = if is_empty t then none else find_row (has_address t) us

-- The row of the subject, or else of the address.
abbrev pub find_user : Identity → List AppUser → Option AppUser
find_user i us = coalesce (find_row (has_clerk_id i.clerk_user_id) us) (by_address i.email us)

-- The address is one of the platform's owners.
abbrev pub is_owner_email : List Text → Option Text → Bool
is_owner_email owners none = false
is_owner_email owners (some t) = not (is_empty t) && any (text_eq (lower t)) owners

abbrev pub has_user_id : ℕ → AppUser → Bool
has_user_id k u = u.id == k

abbrev pub see_user : List Text → Identity → ℕ → AppUser → AppUser
see_user owners i now u = record u {
  clerk_user_id = i.clerk_user_id;
  email = coalesce i.email u.email;
  name = coalesce i.name u.name;
  is_system_owner = u.is_system_owner || is_owner_email owners i.email;
  last_seen_at = some now;
}

abbrev pub new_user : List Text → Identity → ℕ → ℕ → AppUser
new_user owners i now id = record {
  id = id;
  clerk_user_id = i.clerk_user_id;
  email = i.email;
  name = i.name;
  is_system_owner = is_owner_email owners i.email;
  last_seen_at = some now;
}

abbrev pub put_user : List Text → Identity → ℕ → Option AppUser → Tenants → AppUser × Tenants
put_user owners i now (some u) db = (
  see_user owners i now u,
  record db { users = update_rows (has_user_id u.id) (see_user owners i now) db.users },
)
put_user owners i now none db = (
  new_user owners i now db.next_user_id,
  record db {
    users = db.users ++ new_user owners i now db.next_user_id ∷ [];
    next_user_id = db.next_user_id + 1;
  },
)

-- `ensure_app_user`; a missing subject raises, `none`.
unfoldable pub ensure_app_user : List Text → Identity → ℕ → Tenants → Option (AppUser × Tenants)
ensure_app_user owners i now db =
    if is_empty i.clerk_user_id
    then none
    else some (put_user owners i now (find_user i db.users) db)

abbrev pub is_active_member : MemberStatus → Bool
is_active_member active = true
is_active_member _ = false

abbrev pub is_membership : ℕ → ℕ → Member → Bool
is_membership user org m =
    m.user_id == user && m.organization_id == org && is_active_member m.status

abbrev pub get_membership : ℕ → ℕ → Tenants → Option Member
get_membership user org db = find_row (is_membership user org) db.members

abbrev same_role : Role → Role → Bool
same_role org_admin org_admin = true
same_role sales_manager sales_manager = true
same_role sales_user sales_user = true
same_role viewer viewer = true
same_role _ _ = false

abbrev pub role_in : List Role → Role → Bool
role_in roles r = any (same_role r) roles

abbrev pub workflow_roles : List Role
workflow_roles = org_admin ∷ sales_manager ∷ sales_user ∷ []

abbrev pub read_roles : List Role
read_roles = viewer ∷ workflow_roles

-- The membership has one of the roles.
abbrev pub may_act : List Role → Option Member → Bool
may_act roles none = false
may_act roles (some m) = role_in roles m.role

-- `require_org_role` does not raise.
abbrev pub has_org_role : AppUser → ℕ → List Role → Tenants → Bool
has_org_role u org roles db = u.is_system_owner || may_act roles (get_membership u.id org db)

-- `require_org_member_role` does not raise.
abbrev pub has_org_member_role : ℕ → AppUser → ℕ → List Role → Tenants → Bool
has_org_member_role platform u org roles db =
    u.is_system_owner && org == platform || may_act roles (get_membership u.id org db)

-- `ORDER BY o.id DESC`
abbrev id_key : Organization → ℕ
id_key o = o.id

abbrev newest_first : List Organization → List Organization
newest_first os = reverse (sort_by id_key os)

-- `list_organizations`, the role and the subscription of each apart.
unfoldable pub list_organizations : AppUser → Tenants → List Organization
list_organizations u db = newest_first (
    if u.is_system_owner
    then db.organizations
    else select (λ (o : Organization). any (is_membership u.id o.id) db.members) db.organizations)

abbrev pub first_organization : List Organization → Option ℕ
first_organization [] = none
first_organization (o ∷ os) = some o.id

abbrev has_organization_id : ℕ → Organization → Bool
has_organization_id k o = o.id == k

-- The first organization in the list, or the default one for an owner; `none` is a refusal.
abbrev pub default_organization : AppUser → Tenants → Option ℕ → Option ℕ
default_organization u db (some o) = some o
default_organization u db none =
    if u.is_system_owner
    then Option.map id_key (find_row (has_organization_id 1) db.organizations)
    else none

-- `resolve_organization_id` for the user that `ensure_app_user` returned.
unfoldable pub resolve_organization_id : AppUser → Option ℕ → List Role → Tenants → Option ℕ
resolve_organization_id u requested roles db =
    if truthy requested
    then elim requested [
      | none ↦ none
      | some org ↦ if has_org_role u org roles db then some org else none
    ]
    else default_organization u db (first_organization (list_organizations u db))

-- `_workflow_org_id` of main.py: the two checks and that of the subscription, one after the other.
abbrev pub checked_organization :
    ℕ → AppUser → List Role → (ℕ → Bool) → Tenants → Option ℕ → Option ℕ
checked_organization platform u roles has_subscription db none = none
checked_organization platform u roles has_subscription db (some org) =
    if has_org_member_role platform u org roles db && has_subscription org then some org else none

-- `roles or WORKFLOW_ROLES`
abbrev pub or_workflow : List Role → List Role
or_workflow [] = workflow_roles
or_workflow (r ∷ rs) = r ∷ rs

unfoldable pub workflow_org_id :
    ℕ → AppUser → Option ℕ → List Role → (ℕ → Bool) → Tenants → Option ℕ
workflow_org_id platform u requested roles has_subscription db =
    checked_organization platform u (or_workflow roles) has_subscription db
      (resolve_organization_id u requested (or_workflow roles) db)
