-- ===== src/Search/Prints.antt =====
-- A filter written as a query, and Parse of internal/search/search.go.
use leser.Prelude.{
  ℕ, ◌≡◌, refl, sym, ap, ◌∙◌, Bool, true, false, some, List, [], ◌∷◌, ◌++◌, append-nil,
  append_assoc, All, all, not, ◌||◌, ◌==◌, Bool-cases, inl, inr, arith, if◌then◌else◌, ◌⊎◌,
}
use leser.Prelude.Bytes.{bytes_eq}
use leser.Prelude.Texts.{codes, join}
use leser.Search.{
  Runes, Filter, no_filter, is_empty, is_valid_status, quote, tokens, cut, trim, set_field,
  parse_tokens, parse,
}
use leser.Search.Tokens.{
  NoQuote, NoSpace, NoColon, field_token, print_field, tokens-print_field, cut-plain, trim-quoted,
  cut-field_token, Word, tokens-append, tokens_end_of,
}

abbrev print_words : List Runes → Runes
print_words words = join (b' ' ∷ []) words

abbrev print_status : Runes → Runes → Runes
print_status status rest = if is_empty status then rest else print_field (codes "is") status rest

-- The query of a filter, each value in quotes, and the words of its text
abbrev pub print : Filter → List Runes → Runes
print f words = print_status f.status (
    print_field (codes "level") f.level (
      print_field (codes "release") f.release (
        print_field (codes "environment") f.environment (
          print_field (codes "user") f.user_id
            (print_field (codes "fingerprint") f.fingerprint (print_words words))))))

pub record Printable (f : Filter) : Type 0 where
  pub status : (is_empty f.status ≡ true) ⊎ ((is_valid_status f.status ≡ true) × NoQuote f.status)
  pub level : NoQuote f.level
  pub release : NoQuote f.release
  pub environment : NoQuote f.environment
  pub user_id : NoQuote f.user_id
  pub fingerprint : NoQuote f.fingerprint

tokens-print_words :
    (words : List Runes) → All Word words → tokens [] false (print_words words) ≡ words
unfolding join
tokens-print_words [] ok = unfold tokens in refl
tokens-print_words (w ∷ []) ok = tokens_end_of w ok.0
tokens-print_words (w ∷ v ∷ words) ok =
    tokens-append w (print_words (v ∷ words)) ok.0
    ∙ ap (λ ws. w ∷ ws) (tokens-print_words (v ∷ words) ok.1)

parse_tokens-appends :
    (words : List Runes) (f : Filter) (text : List Runes)
    → All Word words
    → parse_tokens words f text ≡ some (record f { text = print_words (text ++ words) })
unfolding parse_tokens
parse_tokens-appends [] f text ok =
    ap (λ ws. some (record f { text = print_words ws })) (sym (append-nil text))
parse_tokens-appends (w ∷ words) f text ok =
    rw (cut-plain w ok.0.keyless, parse_tokens)
      (parse_tokens-appends words f (text ++ w ∷ []) ok.1
        ∙ ap (λ ws. some (record f { text = print_words ws })) (append_assoc text (w ∷ []) words))

abbrev bare : ℕ → Bool
bare b = not (b == quote || b == b' ' || b == b':')

bare-NoQuote : (key : Runes) → all bare key ≡ true → NoQuote key
bare-NoQuote [] h = tt
bare-NoQuote (b ∷ key) h = (ground arith, bare-NoQuote key (ground arith))

bare-NoSpace : (key : Runes) → all bare key ≡ true → NoSpace key
bare-NoSpace [] h = tt
bare-NoSpace (b ∷ key) h = (ground arith, bare-NoSpace key (ground arith))

bare-NoColon : (key : Runes) → all bare key ≡ true → NoColon key
bare-NoColon [] h = tt
bare-NoColon (b ∷ key) h = (ground arith, bare-NoColon key (ground arith))

-- A key of the language, with what it sets
record Key (key val : Runes) (f f' : Filter) : Type 0 where
  letters : all bare key ≡ true
  sets : set_field key val f ≡ some f'

parse_tokens-some :
    (tok key val : Runes) (toks : List Runes) (f f' : Filter) (text : List Runes)
    → cut tok ≡ (key, some val)
    → set_field key (trim val) f ≡ some f'
    → parse_tokens (tok ∷ toks) f text ≡ parse_tokens toks f' text
unfolding parse_tokens
parse_tokens-some tok key val toks f f' text h k = ground (arith, h, k)

parse_tokens-field :
    (key val : Runes) (toks : List Runes) (f f' : Filter) (text : List Runes)
    → Key key val f f'
    → NoQuote val
    → parse_tokens (field_token key val ∷ toks) f text ≡ parse_tokens toks f' text
parse_tokens-field key val toks f f' text k v =
    parse_tokens-some (field_token key val) key (quote ∷ val ++ quote ∷ []) toks f f' text
      (cut-field_token key val (bare-NoColon key k.letters))
      (ap (λ s. set_field key s f) (trim-quoted val v) ∙ k.sets)

-- A field at the front of a query
step :
    (key val rest : Runes) (f f' : Filter)
    → Key key val f f'
    → NoQuote val
    → parse_tokens (tokens [] false (print_field key val rest)) f []
      ≡ parse_tokens (tokens [] false rest) f' []
step key val rest f f' k v =
    ap (λ toks. parse_tokens toks f [])
      (tokens-print_field key val rest (bare-NoQuote key k.letters) (bare-NoSpace key k.letters) v)
    ∙ parse_tokens-field key val (tokens [] false rest) f f' [] k v

set_field-level :
    (val : Runes) (f : Filter) → set_field (codes "level") val f ≡ some (record f { level = val })
unfolding set_field bytes_eq
set_field-level val f = refl

set_field-release :
    (val : Runes) (f : Filter)
    → set_field (codes "release") val f ≡ some (record f { release = val })
unfolding set_field bytes_eq
set_field-release val f = refl

set_field-environment :
    (val : Runes) (f : Filter)
    → set_field (codes "environment") val f ≡ some (record f { environment = val })
unfolding set_field bytes_eq
set_field-environment val f = refl

set_field-user :
    (val : Runes) (f : Filter) → set_field (codes "user") val f ≡ some (record f { user_id = val })
unfolding set_field bytes_eq
set_field-user val f = refl

set_field-fingerprint :
    (val : Runes) (f : Filter)
    → set_field (codes "fingerprint") val f ≡ some (record f { fingerprint = val })
unfolding set_field bytes_eq
set_field-fingerprint val f = refl

set_field-is :
    (val : Runes) (f : Filter)
    → is_valid_status val ≡ true
    → set_field (codes "is") val f ≡ some (record f { status = val })
unfolding set_field bytes_eq
set_field-is val f h = ground (arith, h)

-- The fields after the status
fields_lem :
    (f g : Filter) (words : List Runes)
    → Printable f
    → All Word words
    → parse_tokens
        (tokens [] false (
          print_field (codes "level") f.level (
            print_field (codes "release") f.release (
              print_field (codes "environment") f.environment (
                print_field
                  (codes "user")
                  f.user_id
                  (print_field (codes "fingerprint") f.fingerprint (print_words words)))))))
        g
        []
      ≡ some (record f { status = g.status; text = print_words words })
fields_lem f g words p ok =
    let g1 = record g { level = f.level } in
    let g2 = record g1 { release = f.release } in
    let g3 = record g2 { environment = f.environment } in
    let g4 = record g3 { user_id = f.user_id } in
    let g5 = record g4 { fingerprint = f.fingerprint } in
    step (codes "level") f.level _ g g1
      (record { letters = refl; sets = set_field-level f.level g }) p.level
    ∙ step (codes "release") f.release _ g1 g2
        (record { letters = refl; sets = set_field-release f.release g1 }) p.release
    ∙ step (codes "environment") f.environment _ g2 g3
        (record { letters = refl; sets = set_field-environment f.environment g2 }) p.environment
    ∙ step (codes "user") f.user_id _ g3 g4
        (record { letters = refl; sets = set_field-user f.user_id g3 }) p.user_id
    ∙ step (codes "fingerprint") f.fingerprint _ g4 g5
        (record { letters = refl; sets = set_field-fingerprint f.fingerprint g4 }) p.fingerprint
    ∙ ap (λ toks. parse_tokens toks g5 []) (tokens-print_words words ok)
    ∙ parse_tokens-appends words g5 [] ok

-- On texts as runes, Parse gives back a filter from its query, in which each value is in quotes and the text is words: when no value
-- has a quote, the status is empty or a valid one, and the words of the text are not empty and have no
-- quote, space or colon.
pub parse-print_filter :
    (f : Filter) (words : List Runes)
    → Printable f
    → All Word words
    → f.text ≡ print_words words
    → parse (print f words) ≡ some f
unfolding parse
parse-print_filter f words p ok text = elim p.status [
  | inl any_status ↦
      let none' : [] ≡ f.status = empty_lem f.status any_status in
      rw any_status (
        fields_lem f no_filter words p ok
        ∙ ap (λ s. some (record f { status = s; text = print_words words })) none'
        ∙ ap (λ t. some (record f { text = t })) (sym text))
  | inr (valid, plain) ↦ elim (Bool-cases (is_empty f.status)) [
    | inl any_status ↦
        let none' : [] ≡ f.status = empty_lem f.status any_status in
        rw any_status (
          fields_lem f no_filter words p ok
          ∙ ap (λ s. some (record f { status = s; text = print_words words })) none'
          ∙ ap (λ t. some (record f { text = t })) (sym text))
    | inr set ↦ rw set (
        step (codes "is") f.status _ no_filter (record no_filter { status = f.status })
          (record { letters = refl; sets = set_field-is f.status no_filter valid }) plain
        ∙ fields_lem f (record no_filter { status = f.status }) words p ok
        ∙ ap (λ t. some (record f { text = t })) (sym text))
  ]
]
  where
    empty_lem : (s : Runes) → is_empty s ≡ true → [] ≡ s
    empty_lem [] h = refl
    empty_lem (b ∷ s) h = absurd (ground arith)
