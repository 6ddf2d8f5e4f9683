-- ===== src/Api.antt =====
-- internal/api/api.go: authenticate, contextFor and dispatch, with the checks on a token's shape of
-- internal/auth/password.go. The tables of tokens, sessions and projects, and the hash, are parameters.
use leser.Prelude.{
  ℕ, ◌+◌, Bool, true, false, not, ◌&&◌, ◌||◌, Option, none, some, List, [], ◌∷◌, String, str_eq,
  length, take, ◌==◌, if◌then◌else◌,
}
use leser.Prelude.Bytes.{Bytes, bytes_eq}
use leser.Authz.{Permission, AuthContext, new_auth_context, restrict, can, can_project}
pub mod Access
mod Tests

pub record User : Type 0 where
  pub id : ℕ
  pub org_id : ℕ
  pub role : String

-- The permissions of a personal access token; none means all of its user's.
pub record Token : Type 0 where
  pub permissions : List Permission

-- TokenByHash, SessionUser and ProjectInOrg of internal/metadata, with HashToken.
pub record Store : Type 0 where
  pub hash_token : Bytes → String
  pub token_by_hash : String → Option (Token × User)
  pub session_user : String → Option User
  pub project_in_org : ℕ → ℕ → Bool

-- A request: the token of its header "Authorization: Bearer ...", the value of its session cookie, and
-- project_id if that is a number.
pub record Request : Type 0 where
  pub bearer : Option Bytes
  pub cookie : Option String
  pub project_id : Option ℕ

pub record Route : Type 0 where
  pub perm : Permission
  pub public : Bool
  pub project : Bool

-- TokenPrefix
abbrev pub token_prefix : Bytes
token_prefix = b'l' ∷ b'e' ∷ b's' ∷ b'e' ∷ b'r' ∷ b'_' ∷ b'p' ∷ b'a' ∷ b't' ∷ b'_' ∷ []

unfoldable pub valid_token_shape : Bytes → Bool
valid_token_shape token =
    bytes_eq (take (length token_prefix) token) token_prefix
    && (length token == length token_prefix + 64)

unfoldable pub context_for : Store → User → AuthContext
context_for st u = new_auth_context u.id u.org_id u.role [] (some (st.project_in_org u.org_id))

unfoldable pub token_context : Store → Token → User → AuthContext
unfolding context_for
token_context st t u = elim t.permissions [
  | [] ↦ context_for st u
  | p ∷ ps ↦ restrict (p ∷ ps) (context_for st u)
]

unfoldable pub by_token : Store → Bytes → Option AuthContext
by_token st tok =
    if not (valid_token_shape tok) then none else elim (st.token_by_hash (st.hash_token tok)) [
      | none ↦ none
      | some (t, u) ↦ some (token_context st t u)
    ]

unfoldable pub by_cookie : Store → Option String → Option AuthContext
by_cookie st none = none
by_cookie st (some id) =
    if str_eq id ""
    then none
    else elim (st.session_user id) [ none ↦ none | some u ↦ some (context_for st u) ]

unfoldable pub authenticate : Store → Request → Option AuthContext
authenticate st r = elim r.bearer [ some tok ↦ by_token st tok | none ↦ by_cookie st r.cookie ]

-- What dispatch does: it answers with an error, sends the request on to the node at an address, which
-- decides on it anew, or calls the handler.
pub data Answer : Type 0 where
  unauthorized forbidden not_found bad_gateway : Answer
  proxied : String → Answer
  handled : Option AuthContext → Answer

-- OwnerAddr of the Locator, and whether url.Parse takes an address
pub record Located : Type 0 where
  pub owner : ℕ → Option String
  pub parses : String → Bool

-- A single node has no Locator.
abbrev pub Locator : Type 0
Locator = Option Located

-- proxy, up to what the other node answers
abbrev pub proxy : Located → String → Answer
proxy of addr = if of.parses addr then proxied addr else bad_gateway

unfoldable pub send_on : Locator → ℕ → Option Answer
send_on none project = none
send_on (some of) project = elim (of.owner project) [
  | none ↦ none
  | some addr ↦ some (proxy of addr)
]

unfoldable pub dispatch_project : Locator → Route → Request → AuthContext → Answer
unfolding send_on
dispatch_project loc rt r a = elim r.project_id [
  | none ↦ not_found
  | some project ↦
      if not (can_project rt.perm project (some a))
      then not_found
      else elim (send_on loc project) [ some answer ↦ answer | none ↦ handled (some a) ]
]

unfoldable pub dispatch : Store → Locator → Route → Request → Answer
dispatch st loc rt r = if rt.public then handled none else elim (authenticate st r) [
  | none ↦ unauthorized
  | some a ↦
      if not (can rt.perm (some a))
      then forbidden
      else if rt.project
      then dispatch_project loc rt r a
      else handled (some a)
]
