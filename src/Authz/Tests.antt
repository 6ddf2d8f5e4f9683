-- ===== src/Authz/Tests.antt =====
-- Runs of internal/authz, and its theorems at inputs.
use leser.Prelude.{◌≡◌, refl, false, ◌&&◌, some, none, List, [], ◌∷◌, ◌==◌}
use leser.Authz.{
  Permission, AuthContext, has, only, restrict, can, can_project, new_auth_context,
  role_permissions,
}
use leser.Authz.Grants

abbrev context : AuthContext
context = record {
  user_id = 1;
  org_id = 2;
  role = "member";
  perms = "event:read" ∷ "issue:read" ∷ [];
  project_ok = some (λ project. project == 7);
}

abbrev token : List Permission
token = "issue:read" ∷ "org:write" ∷ []

restricted : (restrict token context).perms ≡ "issue:read" ∷ []
unfolding restrict only has
restricted = refl

-- Raw payloads are not for the role read_only.
no_payloads : can "event:read" (some (new_auth_context 1 2 "read_only" [] none)) ≡ false
unfolding can has new_auth_context role_permissions
no_payloads = refl

can-restrict_example :
    (can "issue:read" (some (restrict token context))
      ≡ (has "issue:read" token && can "issue:read" (some context)))
    × (can_project "issue:read" 7 (some (restrict token context))
        ≡ (has "issue:read" token && can_project "issue:read" 7 (some context)))
can-restrict_example = Grants.can-restrict "issue:read" 7 token context
