-- ===== src/Ingest/Envelope/Prints.antt =====
-- An envelope as an SDK sends it, with the length of each payload in its item's header, and Parse of
-- internal/ingest/envelope.go.
use mathlib.Core.Path.{subst}
use leser.Prelude.{
  ℕ, zero, suc, ◌+◌, ◌-◌, ◌≤◌, ◌<◌, ◌≡◌, ◌≢◌, refl, sym, ap, ◌∙◌, true, false, ◌||◌, Option, some,
  List, [], ◌∷◌, ◌++◌, map, append_assoc, All, length, length-append, take, take-append,
  drop-append, take_of_length-le, ltb, leb, Bool-cases, inl, inr, arith, append-nil, String, str_eq,
  eq_iff,
}
use leser.Prelude.Bytes.{Bytes}
use leser.Ingest.Envelope.{
  Limits, pos, EnvelopeHeader, ItemHeader, Item, defaults, accepts, blank, line, eof, read_line,
  payload, read_payload, parsed, read_item, read_items, parse, until_newline,
}
use leser.Ingest.Envelope.Lines.{read_line-append}

abbrev pub OneLine : Bytes → Type 0
OneLine text = All (λ b. b ≢ b'\n') text

-- An item with the line of its header
pub record Framed : Type 0 where
  pub text : Bytes
  pub item : Item

unfoldable pub print_items : List Framed → Bytes
print_items [] = []
print_items (f ∷ framed) = f.text ++ b'\n' ∷ (f.item.payload ++ b'\n' ∷ print_items framed)

abbrev pub print : Bytes → List Framed → Bytes
print text framed = text ++ b'\n' ∷ print_items framed

abbrev pub item_of : Framed → Item
item_of f = f.item

accepts-typed : (name : String) → accepts name ≡ true → str_eq name "" ≡ false
accepts-typed name h = elim (Bool-cases (str_eq name "")) [
  | inr typed ↦ typed
  | inl untyped ↦
      let none' : accepts "" ≡ true =
        subst (λ n. accepts n ≡ true) ((eq_iff name "").0 untyped) h in
      absurd cc
]

end_line : (max : ℕ) → read_line max [] ≡ eof []
unfolding read_line until_newline
end_line max = ground arith

module _ (decode_header : Bytes → Option EnvelopeHeader) (decode_item : Bytes → Option ItemHeader)
    (ahead : Bytes → ℕ) where
  -- The header of an item says its type, a known one, and the length of the payload.
  pub record FramedOk (lim : Limits) (f : Framed) : Type 0 where
    pub one_line : OneLine f.text
    pub filled : blank f.text ≡ false
    pub header : decode_item f.text ≡ some f.item.header
    pub size : f.item.header.size ≡ some (pos (length f.item.payload))
    pub known : accepts f.item.header.type_name ≡ true
    pub small : length f.item.payload ≤ lim.max_item_bytes

  read_payload-print :
      (lim : Limits) (ih : ItemHeader) (bytes rest : Bytes)
      → ih.size ≡ some (pos (length bytes))
      → length bytes ≤ lim.max_item_bytes
      → read_payload lim ih (bytes ++ b'\n' ∷ rest) ≡ payload bytes rest
  unfolding read_payload
  read_payload-print lim ih bytes rest size small =
      let within : (ltb lim.max_item_bytes (length bytes)
            || ltb (length (bytes ++ b'\n' ∷ rest)) (length bytes))
          ≡ false =
        ground (arith, length-append bytes (b'\n' ∷ rest)) in
      rw (size, read_payload)
        (rw within
          (rw (take-append bytes (b'\n' ∷ rest)) (rw (drop-append bytes (b'\n' ∷ rest)) refl)))

  read_item-print :
      (lim : Limits) (items : List Item) (f : Framed) (rest : Bytes)
      → FramedOk lim f
      → length items < lim.max_items
      → read_item decode_header decode_item ahead lim items f.text (f.item.payload ++ b'\n' ∷ rest)
        ≡ some (items ++ f.item ∷ [], rest)
  unfolding read_item
  read_item-print lim items f rest ok room =
      let full : leb lim.max_items (length items) ≡ false = ground arith in
      rw full (
        rw (ok.header, read_item)
          (rw (accepts-typed f.item.header.type_name ok.known) (
            rw
              (read_payload-print lim f.item.header f.item.payload rest ok.size ok.small, read_item)
              (rw ok.known refl))))

  read_items-print :
      (fuel : ℕ) (lim : Limits) (total : ℕ) (items : List Item) (framed : List Framed)
      → ((rest : Bytes) → ahead rest ≤ length rest)
      → All (FramedOk lim) framed
      → length items + length framed ≤ lim.max_items
      → length (print_items framed) < fuel
      → length (print_items framed) ≤ total
      → total ≤ lim.max_envelope_bytes
      → read_items decode_header decode_item ahead fuel lim total items (print_items framed)
        ≡ parsed (items ++ map item_of framed)
  unfolding read_items print_items
  read_items-print zero lim total items framed behind ok few enough part fits = absurd (omega arith)
  read_items-print (suc fuel) lim total items [] behind ok few enough part fits =
      let open' : leb (lim.max_envelope_bytes + 1) (total - 0 + ahead []) ≡ false =
        ground (arith, behind []) in
      let last : read_line lim.max_envelope_bytes [] ≡ eof [] = end_line lim.max_envelope_bytes in
      rw open' (rw (last, read_items) (unfold blank in ap parsed (sym (append-nil items))))
  read_items-print (suc fuel) lim total items (f ∷ framed) behind ok few enough part fits =
      let rest = f.item.payload ++ b'\n' ∷ print_items framed in
      let input = f.text ++ b'\n' ∷ rest in
      let whole = length-append f.text (b'\n' ∷ rest) in
      let tail = length-append f.item.payload (b'\n' ∷ print_items framed) in
      let open' : leb (lim.max_envelope_bytes + 1) (total - length input + ahead input) ≡ false =
        ground (arith, behind input) in
      let first : read_line lim.max_envelope_bytes input ≡ line f.text rest =
        read_line-append lim.max_envelope_bytes f.text rest ok.0.one_line (omega (arith, whole)) in
      rw open' (
        rw (first, read_items)
          (rw ok.0.filled (
            rw (read_item-print lim items f (print_items framed) ok.0 (omega arith), read_items)
              (read_items-print fuel lim total (items ++ f.item ∷ []) framed behind ok.1
                  (omega (arith, length-append items (f.item ∷ []))) (omega (arith, whole, tail))
                  (omega (arith, whole, tail)) fits
                ∙ ap parsed (append_assoc items (f.item ∷ []) (map item_of framed))))))

  -- Parse gives back the header and the items of an envelope that has the length of each payload in its item's
  -- header, when the lines of headers have no newline and decode to the headers, no such line of an item is
  -- blank, the types are known, and the envelope, its payloads and their number are within the limits. It
  -- may have read ahead any bytes that are left.
  pub parse-print :
      (set : Limits) (text : Bytes) (header : EnvelopeHeader) (framed : List Framed)
      → ((rest : Bytes) → ahead rest ≤ length rest)
      → OneLine text
      → decode_header text ≡ some header
      → All (FramedOk (defaults set)) framed
      → length framed ≤ (defaults set).max_items
      → length (print text framed) ≤ (defaults set).max_envelope_bytes
      → parse decode_header decode_item ahead set (print text framed)
        ≡ parsed (record { header = header; items = map item_of framed })
  unfolding parse
  parse-print set text header framed behind one_line json ok few fits =
      let lim = defaults set in
      let whole = length-append text (b'\n' ∷ print_items framed) in
      let capped : take (lim.max_envelope_bytes + 1) (print text framed) ≡ print text framed =
        take_of_length-le (lim.max_envelope_bytes + 1) (print text framed) (omega (arith, fits)) in
      let first : read_line lim.max_envelope_bytes (print text framed)
          ≡ line text (print_items framed) =
        read_line-append lim.max_envelope_bytes text (print_items framed) one_line
          (omega (arith, whole, fits)) in
      let total : length (take (lim.max_envelope_bytes + 1) (print text framed))
          ≡ length (print text framed) =
        ap (λ bytes. length bytes) capped in
      let items =
        read_items-print (length (print_items framed) + 2) lim
          (length (take (lim.max_envelope_bytes + 1) (print text framed))) [] framed behind ok
          (omega (arith, few)) (omega arith) (omega (arith, whole, total))
          (omega (arith, total, fits)) in
      rw (capped, parse) (rw (first, parse) (rw (json, parse) (rw (items, parse) refl)))
