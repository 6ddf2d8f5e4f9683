-- ===== src/Search/Tests.antt =====
-- Parse of internal/search/search.go on small queries.
use leser.Prelude.{◌≡◌, refl, none, some, List, [], ◌∷◌, ◌++◌, All, arith, inr}
use leser.Prelude.Bytes.{bytes_eq}
use leser.Prelude.Texts.{codes, join}
use leser.Search.{
  Runes, Filter, no_filter, quote, tokens, cut, trim_left, trim_right, set_field, parse_tokens,
  parse,
}
use leser.Search.Tokens.{Word}
use leser.Search.Prints
use leser.Search.Prints.{Printable, print}

program : Unit {0}
unfolding bytes_eq join tokens cut trim_left trim_right set_field parse_tokens parse
program = tt

mixed :
    parse (
      codes "is:resolved LEVEL:error release:"
      ++ quote ∷ codes "1.2 beta"
      ++ quote ∷ codes "  boom now")
    ≡ some (record no_filter {
      status = codes "resolved";
      level = codes "error";
      release = codes "1.2 beta";
      text = codes "boom now";
    })
unfolding program
mixed = refl

unknown_key : parse (codes "levle:error") ≡ none
unfolding program
unknown_key = refl

bad_status : parse (codes "is:open") ≡ none
unfolding program
bad_status = refl

abbrev filter : Filter
filter = record {
  status = codes "ignored";
  level = [];
  release = codes "a b";
  environment = [];
  user_id = codes "7";
  fingerprint = [];
  text = codes "x yz";
}

abbrev words : List Runes
words = codes "x" ∷ codes "yz" ∷ []

words-Word : All Word words
words-Word = (
  record {
    filled = λ h. cc;
    plain = (omega arith, tt);
    whole = (omega arith, tt);
    keyless = (omega arith, tt);
  },
  (
    record {
      filled = λ h. cc;
      plain = (omega arith, (omega arith, tt));
      whole = (omega arith, (omega arith, tt));
      keyless = (omega arith, (omega arith, tt));
    },
    tt,
  ),
)

filter-Printable : Printable filter
unfolding program
filter-Printable = record {
  status = inr (
    refl,
    (
      omega arith,
      (omega arith, (omega arith, (omega arith, (omega arith, (omega arith, (omega arith, tt)))))),
    ),
  );
  level = tt;
  release = (omega arith, (omega arith, (omega arith, tt)));
  environment = tt;
  user_id = (omega arith, tt);
  fingerprint = tt;
}

parse-print_filter_example : parse (print filter words) ≡ some filter
unfolding program
parse-print_filter_example = Prints.parse-print_filter filter words filter-Printable words-Word refl
