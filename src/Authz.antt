-- ===== src/Authz.antt =====
-- internal/authz/authz.go: permissions, the built-in roles and the context of a request. A Go map from
-- permissions to true is the list of its keys.
use leser.Prelude.{
  ℕ, Bool, true, false, not, ◌&&◌, ◌||◌, Option, none, some, List, [], ◌∷◌, ◌++◌, String, str_eq,
  any, if◌then◌else◌,
}
pub mod Grants
mod Tests

abbrev pub Permission : Type 0
Permission = String

abbrev pub all_permissions : List Permission
all_permissions =
    "event:read" ∷ "event:admin" ∷ "issue:read" ∷ "issue:write" ∷ "project:read" ∷ "project:write"
    ∷ "project:admin" ∷ "member:read" ∷ "member:write" ∷ "team:write" ∷ "org:read" ∷ "org:write"
    ∷ "alerts:write" ∷ "token:admin" ∷ "audit:read" ∷ "ops:read" ∷ []

-- builtinRoles
abbrev pub owner : List Permission
owner =
    "event:read" ∷ "event:admin" ∷ "issue:read" ∷ "issue:write" ∷ "project:read" ∷ "project:write"
    ∷ "project:admin" ∷ "member:read" ∷ "member:write" ∷ "team:write" ∷ "org:read" ∷ "org:write"
    ∷ "alerts:write" ∷ "token:admin" ∷ "audit:read" ∷ "ops:read" ∷ []

abbrev pub manager : List Permission
manager =
    "event:read" ∷ "event:admin" ∷ "issue:read" ∷ "issue:write" ∷ "project:read" ∷ "project:write"
    ∷ "project:admin" ∷ "member:read" ∷ "member:write" ∷ "team:write" ∷ "org:read" ∷ "alerts:write"
    ∷ "ops:read" ∷ []

abbrev pub admin : List Permission
admin =
    "event:read" ∷ "issue:read" ∷ "issue:write" ∷ "project:read" ∷ "project:write" ∷ "member:read"
    ∷ "org:read" ∷ "alerts:write" ∷ "ops:read" ∷ []

abbrev pub member : List Permission
member = "event:read" ∷ "issue:read" ∷ "issue:write" ∷ "project:read" ∷ "org:read" ∷ "ops:read" ∷ []

abbrev pub billing : List Permission
billing = "org:read" ∷ []

abbrev pub read_only : List Permission
read_only = "issue:read" ∷ "project:read" ∷ "org:read" ∷ "ops:read" ∷ []

-- The zero value of an absent role is the empty set.
unfoldable pub role_permissions : String → List Permission
role_permissions role =
    if str_eq role "owner"
    then owner
    else if str_eq role "manager"
    then manager
    else if str_eq role "admin"
    then admin
    else if str_eq role "member"
    then member
    else if str_eq role "billing"
    then billing
    else if str_eq role "read_only"
    then read_only
    else []

-- perms[p]
unfoldable pub has : Permission → List Permission → Bool
has p [] = false
has p (q ∷ perms) = str_eq q p || has p perms

pub record AuthContext : Type 0 where
  pub user_id : ℕ
  pub org_id : ℕ
  pub role : String
  pub perms : List Permission
  pub project_ok : Option (ℕ → Bool)

unfoldable pub new_auth_context : ℕ → ℕ → String → List Permission → Option (ℕ → Bool) → AuthContext
unfolding role_permissions
new_auth_context user_id org_id role extra project_ok = record {
  user_id = user_id;
  org_id = org_id;
  role = role;
  perms = role_permissions role ++ extra;
  project_ok = project_ok;
}

-- The loop of Restrict over the allowed permissions
unfoldable pub only : List Permission → List Permission → List Permission
only perms [] = []
only perms (p ∷ allowed) = let rest = only perms allowed in if has p perms then p ∷ rest else rest

unfoldable pub restrict : List Permission → AuthContext → AuthContext
unfolding only
restrict allowed a = record a { perms = only a.perms allowed }

-- A nil context can do nothing.
unfoldable pub can : Permission → Option AuthContext → Bool
can p none = false
can p (some a) = has p a.perms

unfoldable pub can_project : Permission → ℕ → Option AuthContext → Bool
unfolding can
can_project p project none = false
can_project p project (some a) =
    if not (can p (some a))
    then false
    else elim a.project_ok [ none ↦ false | some member_of ↦ member_of project ]
