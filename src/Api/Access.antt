-- ===== src/Api/Access.antt =====
-- Who gets past dispatch of internal/api/api.go.
use leser.Prelude.{
  Bool, true, false, not, ◌&&◌, ◌||◌, Option, none, some, List, [], ◌∷◌, str_eq, if◌then◌else◌,
}
use leser.Authz.{Permission, has, role_permissions}
use leser.Api.{
  User, Store, Request, Route, Locator, Answer, unauthorized, forbidden, not_found, bad_gateway,
  proxied, handled, valid_token_shape,
}

-- Has a request passed the checks of this node: is it not answered with 401, 403 or 404 by dispatch?
unfoldable pub passed : Answer → Bool
passed (handled a) = true
passed (proxied addr) = true
passed bad_gateway = true
passed unauthorized = false
passed forbidden = false
passed not_found = false

-- The user whom a request's token or session names, and the permissions its token is limited to.
unfoldable pub identify : Store → Request → Option (User × List Permission)
identify st r = elim r.bearer [
  | some tok ↦
      if not (valid_token_shape tok) then none else elim (st.token_by_hash (st.hash_token tok)) [
        | none ↦ none
        | some (t, u) ↦ some (u, t.permissions)
      ]
  | none ↦ elim r.cookie [
    | none ↦ none
    | some id ↦
        if str_eq id ""
        then none
        else elim (st.session_user id) [ none ↦ none | some u ↦ some (u, []) ]
  ]
]

unfoldable pub unlimited : List Permission → Permission → Bool
unlimited [] p = true
unlimited (q ∷ limit) p = has p (q ∷ limit)

-- The permission comes from the user's role, is within the token's limits, and a project that the route
-- is about belongs to the user's organization.
unfoldable pub in_scope : Store → Route → Request → User → Bool
in_scope st rt r u =
    not rt.project
    || elim r.project_id [ none ↦ false | some project ↦ st.project_in_org u.org_id project ]

unfoldable pub entitled : Store → Route → Request → Bool
entitled st rt r = elim (identify st r) [
  | none ↦ false
  | some (u, limit) ↦
      has rt.perm (role_permissions u.role) && unlimited limit rt.perm && in_scope st rt r u
]

-- Is a request handled on this node?
unfoldable pub is_handled : Answer → Bool
is_handled (handled a) = true
is_handled (proxied addr) = false
is_handled bad_gateway = false
is_handled unauthorized = false
is_handled forbidden = false
is_handled not_found = false

-- No other node owns the project that the request is about.
unfoldable pub owned_here : Locator → Request → Bool
owned_here none r = true
owned_here (some of) r = elim r.project_id [
  | none ↦ true
  | some project ↦ elim (of.owner project) [ none ↦ true | some addr ↦ false ]
]
