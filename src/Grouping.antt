-- ===== src/Grouping.antt =====
-- internal/grouping: the fingerprint of an event (grouping.go), the rules (rules.go) and the normalization of
-- names (normalize.go). Texts are their bytes. SHA-1 in hexadecimal, the replacements by regular
-- expressions, path.Match, and what Unicode says of spaces and letter case are parameters.
use leser.Prelude.{
  ℕ, zero, suc, ◌+◌, ◌-◌, Bool, true, false, not, ◌&&◌, ◌||◌, Option, none, some, List, [], ◌∷◌,
  ◌++◌, map, String, str_eq, any, all, length, take, drop, last?, ltb, leb, ◌==◌, if◌then◌else◌,
}
use leser.Prelude.Bytes.{Bytes, bytes_eq}
use leser.Prelude.Sorting.{keep}
use leser.Prelude.Texts.{codes, has_prefix, index_of_text, contains, split_at, join}
pub mod Hashes
pub mod Frames
mod Tests

pub data Basis : Type 0 where
  basis_custom : Basis
  basis_rule : Basis
  basis_stacktrace : Basis
  basis_exception : Basis
  basis_message_template : Basis
  basis_message : Basis
  basis_fallback : Basis

pub record Frame : Type 0 where
  pub function : Bytes
  pub module_name : Bytes
  pub filename : Bytes
  pub abs_path : Bytes
  pub in_app : Option Bool

pub record Exception : Type 0 where
  pub type_name : Bytes
  pub value : Bytes
  pub frames : List Frame

pub record Input : Type 0 where
  pub platform : Bytes
  pub sdk_fingerprint : List Bytes
  pub exceptions : List Exception
  pub message_template : Bytes
  pub message : Bytes

pub record Result : Type 0 where
  pub fingerprint : Bytes
  pub basis : Basis

pub record Matcher : Type 0 where
  pub kind : String
  pub pattern : Bytes

pub record Rule : Type 0 where
  pub matchers : List Matcher
  pub parts : List Bytes

pub record EnhancementRule : Type 0 where
  pub pattern : Bytes
  pub match_module : Bool
  pub in_app : Bool

-- The regular expressions of normalize.go, each with its replacement
pub data Regex : Type 0 where
  re_hex_addr : Regex
  re_uuid : Regex
  re_long_hex : Regex
  re_num_run : Regex
  re_java_lambda : Regex
  re_dollar_num : Regex
  re_gen_suffix : Regex
  re_go_inst : Regex
  re_bundle_hash : Regex

abbrev pub max_frames : ℕ
max_frames = 30

abbrev is_empty : Bytes → Bool
is_empty s = length s == 0

-- What hashParts writes to the hash
unfoldable pub hash_input : Bytes → List Bytes → Bytes
hash_input ns [] = ns
hash_input ns (p ∷ parts) = ns ++ 0 ∷ hash_input p parts

-- strings.Split(pattern, "**")
unfoldable pub split_stars : Bytes → List Bytes
split_stars [] = [] ∷ []
split_stars (a ∷ []) = (a ∷ []) ∷ []
split_stars (a ∷ b ∷ bs) =
    let cut = split_stars bs in
    let rest = split_stars (b ∷ bs) in
    if a == b'*' && b == b'*'
    then [] ∷ cut
    else elim rest [ [] ↦ (a ∷ []) ∷ [] | part ∷ parts ↦ (a ∷ part) ∷ parts ]

abbrev path_of_frame : Frame → Bytes
path_of_frame f = if is_empty f.abs_path then f.filename else f.abs_path

abbrev backslash : ℕ → ℕ
backslash b = if b == 92 then b'/' else b

abbrev library_markers : List Bytes
library_markers = map codes (
    "node_modules/" ∷ "site-packages/" ∷ "dist-packages/" ∷ "/vendor/" ∷ "vendor/bundle" ∷ "/gems/"
    ∷ "/go/pkg/mod/" ∷ "/usr/lib/" ∷ "/usr/local/lib/" ∷ "<frozen " ∷ "internal/modules/cjs"
    ∷ "webpack/bootstrap" ∷ [])

abbrev library_module_prefixes : List Bytes
library_module_prefixes = map codes (
    "java." ∷ "javax." ∷ "jakarta." ∷ "sun." ∷ "com.sun." ∷ "kotlin." ∷ "scala."
    ∷ "org.springframework." ∷ "org.apache." ∷ "org.hibernate." ∷ "io.netty." ∷ "System."
    ∷ "Microsoft." ∷ "runtime." ∷ "reflect." ∷ "net/http." ∷ "database/sql." ∷ [])

module _ (sha1_hex : Bytes → Bytes) (replace_all : Regex → Bytes → Bytes)
    (path_match : Bytes → Bytes → Bool) (trim_space to_lower : Bytes → Bytes) where
  unfoldable pub hash_parts : Bytes → List Bytes → Bytes
  unfolding hash_input
  hash_parts ns parts = take 32 (sha1_hex (hash_input ns parts))

  unfoldable pub normalize_message : Bytes → Bytes
  normalize_message s = trim_space (
      replace_all re_num_run
        (replace_all re_long_hex (replace_all re_hex_addr (replace_all re_uuid (take 512 s)))))

  unfoldable pub normalize_symbol : Bytes → Bytes
  normalize_symbol s =
      if is_empty s
      then codes "<unknown>"
      else replace_all re_gen_suffix (
          replace_all re_dollar_num (
            replace_all re_java_lambda
              (replace_all re_hex_addr (replace_all re_go_inst (take 256 s)))))

  unfoldable pub normalize_module : Frame → Bytes
  unfolding normalize_symbol split_at join
  normalize_module f =
      let name = if is_empty f.filename then f.abs_path else f.filename in
      let parts = split_at b'/' (map backslash name) in
      let kept = drop (length parts - 3) parts in
      if not (is_empty f.module_name)
      then normalize_symbol f.module_name
      else if is_empty name
      then codes "<unknown>"
      else replace_all re_num_run
          (replace_all re_uuid (replace_all re_bundle_hash (join (b'/' ∷ []) kept)))

  -- IsInApp, which does not look at the platform
  unfoldable pub is_in_app : Frame → Bool
  unfolding has_prefix index_of_text
  is_in_app f =
      let lower = to_lower (map backslash (path_of_frame f)) in
      let guess =
        not (any (contains lower) library_markers)
        && not (
            any (λ p. has_prefix f.module_name p || has_prefix f.function p)
              library_module_prefixes)
        && not (contains lower (codes "/libexec/") || contains lower (codes "/goroot/")) in
      elim f.in_app [ none ↦ guess | some hint ↦ hint ]

  -- The innermost frames, of the last exception
  unfoldable pub select_frames : Input → List Frame
  unfolding is_in_app keep
  select_frames input = elim (last? input.exceptions) [
    | none ↦ []
    | some exc ↦
        let own = keep is_in_app exc.frames in
        let pick = if length own == 0 then exc.frames else own in
        drop (length pick - max_frames) pick
  ]

  abbrev pub last_exception_type : Input → Bytes
  last_exception_type input = elim (last? input.exceptions) [ none ↦ [] | some exc ↦ exc.type_name ]

  unfoldable pub frame_parts : List Frame → List Bytes
  unfolding normalize_module normalize_symbol
  frame_parts [] = []
  frame_parts (f ∷ frames) = normalize_module f ∷ normalize_symbol f.function ∷ frame_parts frames

  unfoldable pub without_frames : Input → Result
  unfolding hash_parts normalize_symbol normalize_message
  without_frames input =
      let by_message : Result =
        if not (is_empty input.message_template)
        then record {
          fingerprint = hash_parts (codes "tmpl") (input.message_template ∷ []);
          basis = basis_message_template;
        }
        else if not (is_empty input.message)
        then record {
          fingerprint = hash_parts (codes "msg") (normalize_message input.message ∷ []);
          basis = basis_message;
        }
        else record { fingerprint = hash_parts (codes "fallback") []; basis = basis_fallback } in
      elim (last? input.exceptions) [
        | none ↦ by_message
        | some exc ↦
            if not (is_empty exc.type_name) || not (is_empty exc.value)
            then record {
              fingerprint =
                  hash_parts (codes "exc")
                    (normalize_symbol exc.type_name ∷ normalize_message exc.value ∷ []);
              basis = basis_exception;
            }
            else by_message
      ]

  unfoldable pub default_fingerprint : Input → Result
  unfolding select_frames frame_parts hash_parts without_frames normalize_symbol
  default_fingerprint input =
      let frames = select_frames input in
      let type_name = last_exception_type input in
      let named = if is_empty type_name then [] else normalize_symbol type_name ∷ [] in
      if length frames == 0 then without_frames input else record {
        fingerprint = hash_parts (codes "stack") (named ++ frame_parts frames);
        basis = basis_stacktrace;
      }

  abbrev pub is_default_token : Bytes → Bool
  is_default_token s =
      bytes_eq (trim_space s) (codes "{{ default }}")
      || bytes_eq (trim_space s) (codes "{{default}}")

  unfoldable pub first_end : Bytes → ℕ → ℕ → Bytes → Option ℕ
  first_end fragment zero n s = if path_match fragment (take n s) then some n else none
  first_end fragment (suc more) n s =
      let later = first_end fragment more (n + 1) s in
      if path_match fragment (take n s) then some n else later

  -- The scan of indexGlob over the positions, from position i on
  unfoldable pub scan_glob : Bytes → Bool → ℕ → Bytes → Option ℕ
  unfolding first_end
  scan_glob fragment anchored i [] = elim (first_end fragment 0 0 []) [
    | none ↦ none
    | some n ↦ some (i + n)
  ]
  scan_glob fragment anchored i (b ∷ s) =
      let later = scan_glob fragment anchored (i + 1) s in
      elim (first_end fragment (length (b ∷ s)) 0 (b ∷ s)) [
        | some n ↦ some (i + n)
        | none ↦ if anchored then none else later
      ]

  abbrev simple : Bytes → Bool
  simple fragment = not (any (λ b. b == b'*' || b == b'?' || b == b'[') fragment)

  unfoldable pub index_glob : Bytes → Bytes → Bool → Option ℕ
  unfolding has_prefix index_of_text scan_glob
  index_glob s fragment anchored =
      if not (simple fragment)
      then scan_glob fragment anchored 0 s
      else if anchored
      then (if has_prefix s fragment then some (length fragment) else none)
      else elim (index_of_text s fragment) [ none ↦ none | some i ↦ some (i + length fragment) ]

  unfoldable pub match_pieces : Bool → List Bytes → Bytes → Bool
  unfolding index_glob
  match_pieces first [] rest = true
  match_pieces first (part ∷ parts) rest =
      let skipped = match_pieces false parts rest in
      if is_empty part then skipped else elim (index_glob rest part first) [
        | none ↦ false
        | some idx ↦ match_pieces false parts (drop idx rest)
      ]

  unfoldable pub glob_match : Bytes → Bytes → Bool
  unfolding match_pieces split_stars index_of_text
  glob_match pattern s =
      if is_empty pattern
      then false
      else if bytes_eq pattern (codes "*") || bytes_eq pattern (codes "**")
      then not (is_empty s)
      else if contains pattern (codes "**")
      then match_pieces true (split_stars pattern) s
      else path_match pattern s

  unfoldable pub matcher_matches : Input → Matcher → Bool
  unfolding glob_match
  matcher_matches input m =
      let some_exc = λ (p : Exception → Bool). any p input.exceptions in
      if str_eq m.kind "platform"
      then glob_match m.pattern input.platform
      else if str_eq m.kind "message"
      then glob_match m.pattern input.message || glob_match m.pattern input.message_template
      else if str_eq m.kind "type"
      then some_exc (λ e. glob_match m.pattern e.type_name)
      else if str_eq m.kind "value"
      then some_exc (λ e. glob_match m.pattern e.value)
      else if str_eq m.kind "module"
      then some_exc (λ e. any (λ f. glob_match m.pattern f.module_name) e.frames)
      else if str_eq m.kind "path"
      then some_exc (λ e. any (λ f. glob_match m.pattern (path_of_frame f)) e.frames)
      else false

  unfoldable pub apply_rules : Input → List Rule → Option (List Bytes)
  unfolding matcher_matches
  apply_rules input [] = none
  apply_rules input (r ∷ rules) =
      let rest = apply_rules input rules in
      if (length r.parts == 0) || (length r.matchers == 0)
      then rest
      else if all (matcher_matches input) r.matchers
      then some r.parts
      else rest

  -- The parts of an SDK's fingerprint, with the default one spliced in
  unfoldable pub splice : Input → List Bytes → List Bytes
  unfolding default_fingerprint
  splice input [] = []
  splice input (p ∷ parts) =
      (if is_default_token p then (default_fingerprint input).fingerprint else p)
      ∷ splice input parts

  unfoldable pub fingerprint : Input → List Rule → Result
  unfolding apply_rules splice default_fingerprint hash_parts
  fingerprint input rules = elim (apply_rules input rules) [
    | some parts ↦ record { fingerprint = hash_parts (codes "rule") parts; basis = basis_rule }
    | none ↦
        if not (length input.sdk_fingerprint == 0)
          && not (all is_default_token input.sdk_fingerprint)
        then record {
          fingerprint = hash_parts (codes "custom") (splice input input.sdk_fingerprint);
          basis = basis_custom;
        }
        else default_fingerprint input
  ]

  -- The first rule that matches a frame forces its flag.
  unfoldable pub enhance_frame : List EnhancementRule → Frame → Frame
  unfolding glob_match
  enhance_frame [] f = f
  enhance_frame (r ∷ rules) f =
      let rest = enhance_frame rules f in
      if glob_match r.pattern (if r.match_module then f.module_name else path_of_frame f)
      then record f { in_app = some r.in_app }
      else rest

  abbrev enhance : List EnhancementRule → Exception → Exception
  enhance rules exc = record exc { frames = map (enhance_frame rules) exc.frames }

  -- ApplyEnhancements; with no rules the copy is the input.
  unfoldable pub apply_enhancements : Input → List EnhancementRule → Input
  unfolding enhance_frame
  apply_enhancements input rules = record input {
    exceptions = map (enhance rules) input.exceptions;
  }
