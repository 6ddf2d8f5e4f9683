-- ===== src/Grouping/Tests.antt =====
-- Runs of internal/grouping on small events: the hash is the text itself, and no expression replaces a thing.
use leser.Prelude.{◌≡◌, refl, Bool, none, [], ◌∷◌, ◌++◌, String, arith}
use leser.Prelude.Bytes.{Bytes, bytes_eq}
use leser.Prelude.Sorting.{keep}
use leser.Prelude.Texts.{codes, has_prefix, index_of_text, split_at, join}
use leser.Grouping.{
  Frame, Exception, Input, Regex, basis_rule, basis_custom, basis_stacktrace, hash_input,
  split_stars, hash_parts, normalize_message, normalize_symbol, normalize_module, is_in_app,
  select_frames, frame_parts, without_frames, default_fingerprint, first_end, scan_glob, index_glob,
  match_pieces, glob_match, matcher_matches, apply_rules, splice, fingerprint, enhance_frame,
  apply_enhancements,
}
use leser.Grouping.Frames
use leser.Grouping.Hashes

abbrev sha1 : Bytes → Bytes
sha1 s = s

abbrev replace_all : Regex → Bytes → Bytes
replace_all re s = s

abbrev path_match : Bytes → Bytes → Bool
path_match pattern s = bytes_eq pattern s

abbrev same : Bytes → Bytes
same s = s

abbrev frame : String → String → Frame
frame function path = record {
  function = codes function;
  module_name = [];
  filename = codes path;
  abs_path = [];
  in_app = none;
}

abbrev exception : Exception
exception = record {
  type_name = codes "E";
  value = codes "v";
  frames = frame "f" "a.js" ∷ frame "g" "node_modules/b.js" ∷ [];
}

abbrev input : Input
input = record {
  platform = codes "node";
  sdk_fingerprint = [];
  exceptions = exception ∷ [];
  message_template = [];
  message = codes "m";
}

program : Unit {0}
unfolding bytes_eq keep has_prefix index_of_text split_at join hash_input split_stars hash_parts
    normalize_message normalize_symbol normalize_module is_in_app select_frames frame_parts
    without_frames default_fingerprint first_end scan_glob index_glob match_pieces glob_match
    matcher_matches apply_rules splice fingerprint enhance_frame apply_enhancements
program = tt

own_frame : fingerprint sha1 replace_all path_match same same input [] ≡ record {
  fingerprint = codes "stack" ++ 0 ∷ codes "E" ++ 0 ∷ codes "a.js" ++ 0 ∷ codes "f";
  basis = basis_stacktrace;
}
unfolding program
own_frame = refl

custom :
    (fingerprint sha1 replace_all path_match same same
      (record input { sdk_fingerprint = codes "x" ∷ codes "{{default}}" ∷ [] })
      []).basis
    ≡ basis_custom
unfolding program
custom = refl

by_rule :
    fingerprint sha1 replace_all path_match same same input (
      record {
        matchers = record { kind = "path"; pattern = codes "**/b.js" } ∷ [];
        parts = codes "r" ∷ [];
      }
      ∷ [])
    ≡ record { fingerprint = codes "rule" ++ 0 ∷ codes "r"; basis = basis_rule }
unfolding program
by_rule = refl

fingerprint-without_libraries_example :
    fingerprint sha1 replace_all path_match same same
      (Frames.without_libraries sha1 replace_all path_match same same input)
      []
    ≡ fingerprint sha1 replace_all path_match same same input []
unfolding program
fingerprint-without_libraries_example =
    Frames.fingerprint-without_libraries sha1 replace_all path_match same same input exception refl
      refl

hash_input-injective_example :
    codes "exc" ∷ codes "E" ∷ codes "v" ∷ [] ≡ codes "exc" ∷ codes "E" ∷ codes "v" ∷ []
unfolding program
hash_input-injective_example =
    Hashes.hash_input-injective (codes "exc") (codes "exc") (codes "E" ∷ codes "v" ∷ [])
      (codes "E" ∷ codes "v" ∷ []) (omega arith, (omega arith, (omega arith, tt)))
      (omega arith, (omega arith, (omega arith, tt))) ((omega arith, tt), ((omega arith, tt), tt))
      ((omega arith, tt), ((omega arith, tt), tt)) refl
