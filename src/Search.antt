-- ===== src/Search.antt =====
-- internal/search/search.go: the query language of the issue stream. Texts are their runes: a query is what
-- `range` reads of it, where a byte that is not UTF-8 is U+FFFD, and WriteRune writes runes. What is cut,
-- trimmed, compared and joined is ASCII, and so the same on runes as on their UTF-8. An error is `none`.
use leser.Prelude.{
  ℕ, ◌+◌, Bool, true, false, not, ◌&&◌, ◌||◌, Option, none, some, List, [], ◌∷◌, ◌++◌, map, any,
  length, leb, ◌==◌, if◌then◌else◌,
}
use leser.Prelude.Bytes.{bytes_eq}
use leser.Prelude.Texts.{codes, join}
pub mod Tokens
pub mod Prints
mod Tests

abbrev pub Runes : Type 0
Runes = List ℕ

pub record Filter : Type 0 where
  pub status : Runes
  pub level : Runes
  pub release : Runes
  pub environment : Runes
  pub user_id : Runes
  pub fingerprint : Runes
  pub text : Runes

abbrev pub no_filter : Filter
no_filter = record {
  status = [];
  level = [];
  release = [];
  environment = [];
  user_id = [];
  fingerprint = [];
  text = [];
}

abbrev pub is_empty : Runes → Bool
is_empty s = length s == 0

abbrev pub needs_event_lookup : Filter → Bool
needs_event_lookup f =
    not (is_empty f.release) || not (is_empty f.environment) || not (is_empty f.user_id)

abbrev valid_status : List Runes
valid_status = map codes ("unresolved" ∷ "resolved" ∷ "ignored" ∷ "regressed" ∷ [])

abbrev pub is_valid_status : Runes → Bool
is_valid_status s = any (bytes_eq s) valid_status

abbrev pub quote : ℕ
quote = 34

-- The loop of tokenize, with the token that is being read and whether a quote is open
unfoldable pub tokens : Runes → Bool → Runes → List Runes
tokens cur in_quote [] = if is_empty cur then [] else cur ∷ []
tokens cur in_quote (r ∷ q) =
    let turned = tokens (cur ++ r ∷ []) (not in_quote) q in
    let next = tokens [] in_quote q in
    let more = tokens (cur ++ r ∷ []) in_quote q in
    if r == quote
    then turned
    else if r == b' ' && not in_quote
    then (if is_empty cur then next else cur ∷ next)
    else more

abbrev pub tokenize : Runes → List Runes
tokenize q = tokens [] false q

-- strings.Cut at a colon: what is before it, and after it if there is one
unfoldable pub cut : Runes → Runes × Option Runes
cut [] = ([], none)
cut (b ∷ bs) = let rest = cut bs in if b == b':' then ([], some bs) else (b ∷ rest.0, rest.1)

-- strings.Trim of quotes
unfoldable pub trim_left : Runes → Runes
trim_left [] = []
trim_left (b ∷ bs) = let rest = trim_left bs in if b == quote then rest else b ∷ bs

unfoldable pub trim_right : Runes → Runes
trim_right [] = []
trim_right (b ∷ bs) =
    let rest = trim_right bs in if (b == quote) && is_empty rest then [] else b ∷ rest

abbrev pub trim : Runes → Runes
trim s = trim_right (trim_left s)

-- strings.ToLower, where it gives a letter of ASCII: U+0130 and U+212A are the others that do. A key with
-- another letter is no key before or after it.
abbrev lower : ℕ → ℕ
lower r =
    if leb b'A' r && leb r b'Z'
    then r + 32
    else if r == 0x130
    then b'i'
    else if r == 0x212a
    then b'k'
    else r

-- The switch of Parse on a key
unfoldable pub set_field : Runes → Runes → Filter → Option Filter
unfolding bytes_eq
set_field key val f =
    let is_key = bytes_eq (map lower key) in
    if is_key (codes "is")
    then (if is_valid_status val then some (record f { status = val }) else none)
    else if is_key (codes "level")
    then some (record f { level = val })
    else if is_key (codes "release")
    then some (record f { release = val })
    else if is_key (codes "environment") || is_key (codes "env")
    then some (record f { environment = val })
    else if is_key (codes "user") || is_key (codes "user.id")
    then some (record f { user_id = val })
    else if is_key (codes "fingerprint")
    then some (record f { fingerprint = val })
    else none

-- The loop of Parse over the tokens, with the words so far
unfoldable pub parse_tokens : List Runes → Filter → List Runes → Option Filter
unfolding cut trim_left trim_right set_field join
parse_tokens [] f text = some (record f { text = join (b' ' ∷ []) text })
parse_tokens (tok ∷ toks) f text = elim (cut tok).1 [
  | none ↦ parse_tokens toks f (text ++ tok ∷ [])
  | some val ↦ elim (set_field (cut tok).0 (trim val) f) [
    | none ↦ none
    | some f' ↦ parse_tokens toks f' text
  ]
]

unfoldable pub parse : Runes → Option Filter
unfolding tokens parse_tokens
parse q = parse_tokens (tokenize q) no_filter []
