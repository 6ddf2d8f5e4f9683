-- ===== src/Ingest/Envelope/Items.antt =====
-- The loop of Parse in internal/ingest/envelope.go: the limits that its items keep, and its rounds.
use leser.Prelude.{
  ℕ, zero, suc, ◌+◌, ◌-◌, ◌≤◌, ◌<◌, ◌≡◌, ◌≢◌, refl, true, false, Option, none, some, List, [], ◌∷◌,
  ◌++◌, All, All-append, length, length-append, take, leb, Bool-cases, Option-cases, inl, inr,
  arith, if◌then◌else◌, ◌⊎◌, str_eq,
}
use mathlib.Core.Path.{subst}
use leser.Prelude.Bytes.{Bytes}
use leser.Ingest.Envelope.{
  Limits, EnvelopeHeader, ItemHeader, Item, Envelope, defaults, accepts, blank, Line, too_long,
  line, eof, read_line, Payload, bad, payload, read_payload, Parsed, parsed, malformed, out_of_fuel,
  read_item, read_items, parse,
}
use leser.Ingest.Envelope.Lines.{LineOk, read_line-Ok, PayloadOk, read_payload-Ok}

-- An item of a known type, with a payload within the limit
pub record ItemOk (lim : Limits) (i : Item) : Type 0 where
  pub known : accepts i.header.type_name ≡ true
  pub size : length i.payload ≤ lim.max_item_bytes

pub record ItemsOk (lim : Limits) (items : List Item) : Type 0 where
  pub each : All (ItemOk lim) items
  pub few : length items ≤ lim.max_items

-- What a round leaves: items within the limits, and no more input.
abbrev Round : Limits → Bytes → Option (List Item × Bytes) → Type 0
Round lim input none = Unit
Round lim input (some (items, left)) = ItemsOk lim items × (length left ≤ length input)

-- An end of the loop
abbrev Ended : Limits → Parsed (List Item) → Type 0
Ended lim (parsed items) = ItemsOk lim items
Ended lim malformed = Unit
Ended lim out_of_fuel = ⊥

abbrev Whole : Limits → Parsed Envelope → Type 0
Whole lim (parsed env) = ItemsOk lim env.items
Whole lim malformed = Unit
Whole lim out_of_fuel = ⊥

Payload-cases : (p : Payload) → (p ≡ bad) ⊎ ((bytes left : Bytes) × (p ≡ payload bytes left))
Payload-cases bad = inl refl
Payload-cases (payload bytes left) = inr (bytes, left, refl)

Line-cases :
    (l : Line)
    → (l ≡ too_long)
      ⊎ (((text rest : Bytes) × (l ≡ line text rest)) ⊎ ((text : Bytes) × (l ≡ eof text)))
Line-cases too_long = inl refl
Line-cases (line text rest) = inr (inl (text, rest, refl))
Line-cases (eof text) = inr (inr (text, refl))

blank-length : (text : Bytes) → blank text ≡ false → 0 < length text
unfolding blank
blank-length [] h = absurd (ground arith)
blank-length (b ∷ bs) h = omega arith

module _ (decode_header : Bytes → Option EnvelopeHeader) (decode_item : Bytes → Option ItemHeader)
    (ahead : Bytes → ℕ) where
  more_items :
      (lim : Limits) (items : List Item) (ih : ItemHeader) (bytes left rest : Bytes)
      → ItemsOk lim items
      → length items < lim.max_items
      → PayloadOk lim rest (payload bytes left)
      → Round lim rest (
          some (
            if accepts ih.type_name
            then (items ++ record { header = ih; payload = bytes } ∷ [], left)
            else (items, left)))
  more_items lim items ih bytes left rest ok room p = elim (Bool-cases (accepts ih.type_name)) [
    | inl known ↦
        let one : Item = record { header = ih; payload = bytes } in
        rw known (
          record {
            each =
                All-append (ItemOk lim) items (one ∷ []) ok.each
                  (record { known = known; size = p.0 }, tt);
            few = omega (arith, length-append items (one ∷ []), room);
          },
          p.1,
        )
    | inr unknown ↦ rw unknown (ok, p.1)
  ]

  read_item-Round :
      (lim : Limits) (items : List Item) (text rest : Bytes)
      → ItemsOk lim items
      → Round lim rest (read_item decode_header decode_item ahead lim items text rest)
  unfolding read_item
  read_item-Round lim items text rest ok = elim (Bool-cases (leb lim.max_items (length items))) [
    | inl full ↦ rw full tt
    | inr room ↦ rw room (elim (Option-cases (decode_item text)) [
      | inl no_json ↦ rw (no_json, read_item) tt
      | inr (ih, json) ↦
          rw (json, read_item)
            (elim (Bool-cases (str_eq ih.type_name "")) [
              | inl untyped ↦ rw untyped tt
              | inr typed ↦ rw typed (elim (Payload-cases (read_payload lim ih rest)) [
                | inl failed ↦ rw (failed, read_item) tt
                | inr (bytes, left, read) ↦
                    rw (read, read_item)
                      (more_items lim items ih bytes left rest ok (ground arith)
                        (subst (PayloadOk lim rest) read (read_payload-Ok lim ih rest)))
              ])
            ])
    ])
  ]

  rest_of_loop :
      (fuel : ℕ) (lim : Limits) (total : ℕ) (rest : Bytes) (r : Option (List Item × Bytes))
      → Round lim rest r
      → ((more : List Item) (left : Bytes)
          → length left ≤ length rest
          → ItemsOk lim more
          → Ended lim (read_items decode_header decode_item ahead fuel lim total more left))
      → Ended lim (elim r [
        | none ↦ malformed
        | some (more, left) ↦ read_items decode_header decode_item ahead fuel lim total more left
      ])
  rest_of_loop fuel lim total rest none h next = tt
  rest_of_loop fuel lim total rest (some (more, left)) h next = next more left h.1 h.0

  read_items-Ended :
      (fuel : ℕ) (lim : Limits) (total : ℕ) (items : List Item) (input : Bytes)
      → length input < fuel
      → ItemsOk lim items
      → Ended lim (read_items decode_header decode_item ahead fuel lim total items input)
  unfolding read_items
  read_items-Ended zero lim total items input enough ok = absurd (omega arith)
  read_items-Ended (suc fuel) lim total items input enough ok =
      elim (Bool-cases (leb (lim.max_envelope_bytes + 1) (total - length input + ahead input))) [
        | inl over ↦ rw over tt
        | inr within ↦ rw within (elim (Line-cases (read_line lim.max_envelope_bytes input)) [
          | inl long ↦ rw (long, read_items) ok
          | inr (inl (text, rest, read)) ↦
              let shorter =
                subst (LineOk lim.max_envelope_bytes input) read
                  (read_line-Ok lim.max_envelope_bytes input) in
              rw (read, read_items)
                (elim (Bool-cases (blank text)) [
                  | inl empty ↦
                      rw empty
                        (read_items-Ended fuel lim total items rest (omega (arith, shorter.1)) ok)
                  | inr full ↦ rw full (
                      rest_of_loop fuel lim total rest
                        (read_item decode_header decode_item ahead lim items text rest)
                        (read_item-Round lim items text rest ok)
                        (λ more left le k.
                          read_items-Ended fuel lim total more left (omega (arith, le, shorter.1))
                            k))
                ])
          | inr (inr (text, read)) ↦
              rw (read, read_items)
                (elim (Bool-cases (blank text)) [
                  | inl empty ↦ rw empty ok
                  | inr full ↦ rw full (
                      let some_input =
                        subst (LineOk lim.max_envelope_bytes input) read
                          (read_line-Ok lim.max_envelope_bytes input) in
                      rest_of_loop fuel lim total []
                        (read_item decode_header decode_item ahead lim items text [])
                        (read_item-Round lim items text [] ok)
                        (λ more left le k.
                          read_items-Ended fuel lim total more left
                            (omega (arith, le, some_input.1, blank-length text full)) k))
                ])
        ])
      ]

  parse-Whole :
      (set : Limits) (input : Bytes)
      → Whole (defaults set) (parse decode_header decode_item ahead set input)
  unfolding parse
  parse-Whole set input =
      let lim = defaults set in
      let capped = take (lim.max_envelope_bytes + 1) input in
      elim (Line-cases (read_line lim.max_envelope_bytes capped)) [
        | inl long ↦ rw (long, parse) tt
        | inr (inr (text, read)) ↦ rw (read, parse) tt
        | inr (inl (text, rest, read)) ↦
            rw (read, parse)
              (elim (Option-cases (decode_header text)) [
                | inl no_json ↦ rw (no_json, parse) tt
                | inr (header, json) ↦
                    rw (json, parse)
                      (whole header lim
                        (read_items decode_header decode_item ahead (length rest + 2) lim
                          (length capped) [] rest)
                        (read_items-Ended (length rest + 2) lim (length capped) [] rest
                          (omega arith) (record { each = tt; few = omega arith })))
              ])
      ]
    where
      whole :
          (header : EnvelopeHeader) (lim : Limits) (r : Parsed (List Item))
          → Ended lim r
          → Whole lim (elim r [
            | parsed items ↦ parsed (record { header = header; items = items })
            | malformed ↦ malformed
            | out_of_fuel ↦ out_of_fuel
          ])
      whole header lim (parsed items) h = h
      whole header lim malformed h = tt
      whole header lim out_of_fuel h = h

  -- The envelope that Parse gives has at most the number of items that the limits allow, each of a known type
  -- and with a payload of at most the bytes they allow, whatever the input is.
  pub parse-ItemsOk :
      (set : Limits) (input : Bytes) (env : Envelope)
      → parse decode_header decode_item ahead set input ≡ parsed env
      → ItemsOk (defaults set) env.items
  parse-ItemsOk set input env h = subst (Whole (defaults set)) h (parse-Whole set input)

  -- The loop of Parse ends on every input: the rounds that a byte for each allows are enough.
  pub parse_ends :
      (set : Limits) (input : Bytes) → parse decode_header decode_item ahead set input ≢ out_of_fuel
  parse_ends set input h = subst (Whole (defaults set)) h (parse-Whole set input)
