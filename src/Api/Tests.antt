-- ===== src/Api/Tests.antt =====
-- Runs of internal/api's dispatch, and its theorem at an input.
use leser.Prelude.{ℕ, ◌≡◌, refl, true, false, some, none, ◌==◌, str_eq, if◌then◌else◌}
use leser.Authz.{has, only, restrict, can, can_project, new_auth_context, role_permissions}
use leser.Api.{
  User, Store, Located, bad_gateway, Request, Route, context_for, by_cookie, authenticate, send_on,
  dispatch_project, dispatch, not_found, handled, proxied,
}
use leser.Api.Access
use leser.Api.Access.{passed, entitled}

abbrev user : User
user = record { id = 1; org_id = 2; role = "member" }

abbrev store : Store
store = record {
  hash_token = λ token. "";
  token_by_hash = λ hash. none;
  session_user = λ id. if str_eq id "s1" then some user else none;
  project_in_org = λ org project. project == 7;
}

abbrev issues : Route
issues = record { perm = "issue:read"; public = false; project = true }

abbrev nodes : Located
nodes = record { owner = λ project. some "node-b"; parses = λ addr. str_eq addr "node-b" }

abbrev ask : ℕ → Request
ask project = record { bearer = none; cookie = some "s1"; project_id = some project }

program : Unit {0}
unfolding has only restrict can can_project new_auth_context role_permissions context_for by_cookie
    authenticate send_on dispatch_project dispatch passed entitled
program = tt

here : dispatch store none issues (ask 7) ≡ handled (some (context_for store user))
unfolding program
here = refl

elsewhere : dispatch store (some nodes) issues (ask 7) ≡ proxied "node-b"
unfolding program
elsewhere = refl

bad_address :
    dispatch store (some (record nodes { parses = λ addr. false })) issues (ask 7) ≡ bad_gateway
unfolding program
bad_address = refl

other_org : dispatch store (some nodes) issues (ask 8) ≡ not_found
unfolding program
other_org = refl
