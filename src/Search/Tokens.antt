-- ===== src/Search/Tokens.antt =====
-- tokenize of internal/search/search.go, and the parts of a token.
use leser.Prelude.{
  ℕ, ◌≡◌, ◌≢◌, refl, sym, ap, ◌∙◌, Bool, true, false, not, none, some, [], ◌∷◌, ◌++◌, append-nil,
  append_assoc, All, All-append, arith,
}
use leser.Search.{Runes, quote, tokens, cut, trim_left, trim_right, trim}

abbrev pub NoQuote : Runes → Type 0
NoQuote s = All (λ b. b ≢ quote) s

abbrev pub NoSpace : Runes → Type 0
NoSpace s = All (λ b. b ≢ b' ') s

-- Runes of a token outside quotes
tokens_plain :
    (cur xs rest : Runes)
    → NoQuote xs
    → NoSpace xs
    → tokens cur false (xs ++ rest) ≡ tokens (cur ++ xs) false rest
unfolding tokens
tokens_plain cur [] rest h k = ap (λ c. tokens c false rest) (sym (append-nil cur))
tokens_plain cur (x ∷ xs) rest h k =
    let more =
      tokens_plain (cur ++ x ∷ []) xs rest h.1 k.1
      ∙ ap (λ c. tokens c false rest) (append_assoc cur (x ∷ []) xs) in
    ground (arith, more, h.0, k.0)

-- Runes of a token inside quotes
tokens_quoted :
    (cur xs rest : Runes) → NoQuote xs → tokens cur true (xs ++ rest) ≡ tokens (cur ++ xs) true rest
unfolding tokens
tokens_quoted cur [] rest h = ap (λ c. tokens c true rest) (sym (append-nil cur))
tokens_quoted cur (x ∷ xs) rest h =
    let more =
      tokens_quoted (cur ++ x ∷ []) xs rest h.1
      ∙ ap (λ c. tokens c true rest) (append_assoc cur (x ∷ []) xs) in
    ground (arith, more, h.0)

-- A token ends at a space.
tokens_space :
    (cur rest : Runes) → cur ≢ [] → tokens cur false (b' ' ∷ rest) ≡ cur ∷ tokens [] false rest
unfolding tokens
tokens_space [] rest h = absurd (h refl)
tokens_space (c ∷ cur) rest h = ground arith

tokens_turn :
    (cur rest : Runes) (open' : Bool)
    → tokens cur open' (quote ∷ rest) ≡ tokens (cur ++ quote ∷ []) (not open') rest
unfolding tokens
tokens_turn cur rest open' = refl

abbrev pub NoColon : Runes → Type 0
NoColon s = All (λ b. b ≢ b':') s

-- A key, a colon and a quoted value
abbrev pub field_token : Runes → Runes → Runes
field_token key val = (((key ++ b':' ∷ []) ++ quote ∷ []) ++ val) ++ quote ∷ []

-- The field, a space, and the rest of a query
abbrev pub print_field : Runes → Runes → Runes → Runes
print_field key val rest = (key ++ b':' ∷ []) ++ quote ∷ (val ++ quote ∷ b' ' ∷ rest)

snoc-ne_nil : (bs : Runes) (b : ℕ) → bs ++ b ∷ [] ≢ []
snoc-ne_nil [] b h = cc
snoc-ne_nil (c ∷ bs) b h = cc

pub tokens-print_field :
    (key val rest : Runes)
    → NoQuote key
    → NoSpace key
    → NoQuote val
    → tokens [] false (print_field key val rest) ≡ field_token key val ∷ tokens [] false rest
tokens-print_field key val rest h k v =
    let start = key ++ b':' ∷ [] in
    let opened = start ++ quote ∷ [] in
    tokens_plain [] start (quote ∷ (val ++ quote ∷ b' ' ∷ rest))
      (All-append (λ b. b ≢ quote) key (b':' ∷ []) h (omega arith, tt))
      (All-append (λ b. b ≢ b' ') key (b':' ∷ []) k (omega arith, tt))
    ∙ tokens_turn start (val ++ quote ∷ b' ' ∷ rest) false
    ∙ tokens_quoted opened val (quote ∷ b' ' ∷ rest) v
    ∙ tokens_turn (opened ++ val) (b' ' ∷ rest) true
    ∙ tokens_space (field_token key val) rest (snoc-ne_nil (opened ++ val) quote)

cut-append : (key rest : Runes) → NoColon key → cut (key ++ b':' ∷ rest) ≡ (key, some rest)
unfolding cut
cut-append [] rest h = refl
cut-append (b ∷ key) rest h = ground (arith, h.0, cut-append key rest h.1)

pub cut-plain : (word : Runes) → NoColon word → cut word ≡ (word, none)
unfolding cut
cut-plain [] h = refl
cut-plain (b ∷ word) h = ground (arith, h.0, cut-plain word h.1)

trim_right-quoted : (val : Runes) → NoQuote val → trim_right (val ++ quote ∷ []) ≡ val
unfolding trim_right
trim_right-quoted [] h = refl
trim_right-quoted (b ∷ val) h = ground (arith, h.0, trim_right-quoted val h.1)

trim_left-quoted :
    (val : Runes) → NoQuote val → trim_right (trim_left (quote ∷ val ++ quote ∷ [])) ≡ val
unfolding trim_left
trim_left-quoted [] h = unfold trim_right in refl
trim_left-quoted (b ∷ val) h = ground (arith, h.0, trim_right-quoted (b ∷ val) h)

pub trim-quoted : (val : Runes) → NoQuote val → trim (quote ∷ val ++ quote ∷ []) ≡ val
trim-quoted val h = trim_left-quoted val h

field_token_lem :
    (key val : Runes) → field_token key val ≡ key ++ b':' ∷ (quote ∷ val ++ quote ∷ [])
field_token_lem key val =
    append_assoc ((key ++ b':' ∷ []) ++ quote ∷ []) val (quote ∷ [])
    ∙ append_assoc (key ++ b':' ∷ []) (quote ∷ []) (val ++ quote ∷ [])
    ∙ append_assoc key (b':' ∷ []) (quote ∷ val ++ quote ∷ [])

pub cut-field_token :
    (key val : Runes)
    → NoColon key
    → cut (field_token key val) ≡ (key, some (quote ∷ val ++ quote ∷ []))
cut-field_token key val h =
    ap cut (field_token_lem key val) ∙ cut-append key (quote ∷ val ++ quote ∷ []) h

-- A word of the text
pub record Word (w : Runes) : Type 0 where
  pub filled : w ≢ []
  pub plain : NoQuote w
  pub whole : NoSpace w
  pub keyless : NoColon w

pub tokens-append :
    (w rest : Runes) → Word w → tokens [] false (w ++ b' ' ∷ rest) ≡ w ∷ tokens [] false rest
tokens-append w rest ok =
    tokens_plain [] w (b' ' ∷ rest) ok.plain ok.whole ∙ tokens_space w rest ok.filled

tokens_end : (w : Runes) → w ≢ [] → tokens w false [] ≡ w ∷ []
unfolding tokens
tokens_end [] h = absurd (h refl)
tokens_end (b ∷ w) h = ground arith

pub tokens_end_of : (w : Runes) → Word w → tokens [] false w ≡ w ∷ []
tokens_end_of w ok =
    ap (tokens [] false) (sym (append-nil w))
    ∙ tokens_plain [] w [] ok.plain ok.whole
    ∙ tokens_end w ok.filled
