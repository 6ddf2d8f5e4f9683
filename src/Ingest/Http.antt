-- ===== src/Ingest/Http.antt =====
-- internal/ingest/http.go: the decisions of the ingest endpoints. A request is what net/http gives of it; the
-- decompressors, the table of keys, the rate limiter and the log are what they answer.
use Prim.Native.String.{len}
use leser.Prelude.{
  ℕ, ◌+◌, Bool, true, false, not, ◌&&◌, ◌||◌, ltb, Option, none, some, List, [], ◌∷◌, String,
  str_eq, length, drop, ◌==◌, if◌then◌else◌,
}
use leser.Prelude.Bytes.{Bytes, bytes_eq}
use leser.Prelude.Texts.{codes, has_prefix, split_at}
use leser.Cache.{Lru, get, set}
use leser.Ingest.Envelope.{Limits}
use leser.Ingest.Pipeline.{
  Pipeline, Appended, Submitted, accepted, overloaded, failed, submit, drop_auth, drop_malformed,
  drop_overloaded, drop_too_large,
}
pub mod Answers
mod Tests

-- metadata.ProjectKey, of the fields that are used here
pub record DsnKey : Type 0 where
  pub project_id : ℕ
  pub public_key : String

pub record Handler : Type 0 where
  pub pipe : Pipeline
  pub key_lru : Lru DsnKey
  pub lim : Limits

-- What readBody gives
pub data Body : Type 0 where
  body : Bytes → Body
  body_malformed : Body
  body_too_large : Body

-- What a decompressor makes of a body of which at most the limit can be read: the bytes to its end, or those
-- to an error, which says whether the limit was the reason
pub data Inflated : Type 0 where
  bad_stream : Inflated
  inflated : Bytes → Inflated
  broken : Bytes → Bool → Inflated

-- ReadAll of at most one byte more than the limit
abbrev bounded : ℕ → Inflated → Body
bounded max bad_stream = body_malformed
bounded max (inflated bytes) = if ltb max (length bytes) then body_too_large else body bytes
bounded max (broken bytes by_limit) =
    if ltb max (length bytes) || by_limit then body_too_large else body_malformed

unfoldable pub read_body : (String → Bytes → Inflated) → ℕ → String → Bytes → Body
read_body inflate max encoding raw =
    if str_eq encoding "" || str_eq encoding "identity"
    then (if ltb max (length raw) then body_too_large else body raw)
    else if str_eq encoding "gzip" || str_eq encoding "deflate" || str_eq encoding "zstd"
    then bounded max (inflate encoding raw)
    else body_malformed

-- The path value as strconv.ParseInt gives it, the three places of a key, the content encoding in lower case,
-- and the body
pub record Request : Type 0 where
  pub project_id : Option ℕ
  pub auth_header : Bytes
  pub query_key : Bytes
  pub basic_user : Option Bytes
  pub encoding : String
  pub raw : Bytes

-- strings.SplitN(s, "=", 2), if there are two parts
unfoldable pub key_value : Bytes → Option (Bytes × Bytes)
key_value [] = none
key_value (b ∷ bs) =
    let rest : Option (Bytes × Bytes) = elim (key_value bs) [
      | none ↦ none
      | some (key, val) ↦ some (b ∷ key, val)
    ] in
    if b == b'=' then some ([], bs) else rest

-- The answer after the key: the limiter, the body and the log
unfoldable pub accept_body :
    (ℕ → Bool) → (ℕ → Bytes → Appended) → ℕ → ℕ → Body → Pipeline → ℕ × Pipeline
unfolding submit
accept_body allow wal_append kind project_id content p =
    if not (allow project_id) then (429, drop_overloaded p) else elim content [
      | body_malformed ↦ (400, drop_malformed p)
      | body_too_large ↦ (413, drop_too_large p)
      | body bytes ↦
          let r = submit wal_append kind project_id bytes p in
          elim r.0 [ accepted ↦ (200, r.1) | overloaded ↦ (429, r.1) | failed ↦ (500, r.1) ]
    ]

module _ (trim_space : Bytes → Bytes) (text : Bytes → String)
    (inflate : String → Bytes → Inflated) where
  -- The loop over the parts of X-Sentry-Auth
  unfoldable pub auth_part : List Bytes → Option Bytes
  unfolding key_value bytes_eq
  auth_part [] = none
  auth_part (part ∷ parts) =
      let rest = auth_part parts in
      elim (key_value (trim_space part)) [
        | none ↦ rest
        | some (key, val) ↦
            if bytes_eq key (codes "sentry_key") then some (trim_space val) else rest
      ]

  abbrev trim_prefix : Bytes → Bytes
  trim_prefix h = if has_prefix h (codes "Sentry ") then drop 7 h else h

  unfoldable pub sentry_auth_key : Request → Bytes
  unfolding auth_part has_prefix split_at
  sentry_auth_key r =
      let user : Bytes = elim r.basic_user [ none ↦ [] | some u ↦ u ] in
      let other = if length r.query_key == 0 then user else r.query_key in
      let found =
        if length r.auth_header == 0
        then none
        else auth_part (split_at b',' (trim_prefix r.auth_header)) in
      elim found [ none ↦ other | some key ↦ key ]

  -- lookupKey at a time; `none` is an error of the table.
  unfoldable pub lookup_key :
      ℕ → (String → Option DsnKey) → String → Handler → Option DsnKey × Handler
  unfolding get set
  lookup_key now keys key h =
      let cached = get now key h.key_lru in
      elim cached.0 [
        | some k ↦ (some k, record h { key_lru = cached.1 })
        | none ↦ elim (keys key) [
          | none ↦ (none, record h { key_lru = cached.1 })
          | some k ↦ (
            some k,
            record h { key_lru = set now key k (len key + len k.public_key + 64) cached.1 },
          )
        ]
      ]

  -- handle: the status of the answer
  unfoldable pub handle :
      ℕ
      → (String → Option DsnKey)
      → (ℕ → Bool)
      → (ℕ → Bytes → Appended)
      → ℕ
      → Request
      → Handler
      → ℕ × Handler
  unfolding sentry_auth_key lookup_key accept_body read_body
  handle now keys allow wal_append kind r h = elim r.project_id [
    | none ↦ (404, h)
    | some project_id ↦
        let key = sentry_auth_key r in
        let looked = lookup_key now keys (text key) h in
        let h1 = looked.1 in
        let refused : ℕ × Handler = (403, record h1 { pipe = drop_auth h1.pipe }) in
        let answer =
          accept_body allow wal_append kind project_id
            (read_body inflate h.lim.max_envelope_bytes r.encoding r.raw) h1.pipe in
        if length key == 0 then (401, record h { pipe = drop_auth h.pipe }) else elim looked.0 [
          | none ↦ refused
          | some k ↦
              if k.project_id == project_id
              then (answer.0, record h1 { pipe = answer.1 })
              else refused
        ]
  ]
