-- ===== src/Ingest/Envelope.antt =====
-- internal/ingest/envelope.go: the Sentry envelope. The input is the bytes of a record's body. What
-- encoding/json decodes of a line, and how many bytes bufio has read ahead, are parameters; a reason is not
-- kept in an error.
use leser.Prelude.{
  ℕ, zero, suc, ◌+◌, ◌-◌, ◌*◌, Bool, true, false, not, ◌&&◌, ◌||◌, Option, none, some, List, [],
  ◌∷◌, ◌++◌, any, length, take, drop, ltb, leb, ◌==◌, if◌then◌else◌, String, str_eq,
}
use leser.Prelude.Bytes.{Bytes}
pub mod Lines
pub mod Items
pub mod Prints
mod Tests

pub record Limits : Type 0 where
  pub max_envelope_bytes : ℕ
  pub max_items : ℕ
  pub max_item_bytes : ℕ

pub data ℤ : Type 0 where
  pos : ℕ → ℤ
  negsuc : ℕ → ℤ

pub record EnvelopeHeader : Type 0 where
  pub event_id : String
  pub dsn : String
  pub sent_at : String

pub record ItemHeader : Type 0 where
  pub type_name : String
  pub size : Option ℤ

pub record Item : Type 0 where
  pub header : ItemHeader
  pub payload : Bytes

pub record Envelope : Type 0 where
  pub header : EnvelopeHeader
  pub items : List Item

-- Limits.defaults, on fields that are not set
unfoldable pub defaults : Limits → Limits
defaults l = record {
  max_envelope_bytes = if l.max_envelope_bytes == 0 then 20 * 1048576 else l.max_envelope_bytes;
  max_items = if l.max_items == 0 then 50 else l.max_items;
  max_item_bytes = if l.max_item_bytes == 0 then 10 * 1048576 else l.max_item_bytes;
}

abbrev pub item_event : String
item_event = "event"

abbrev pub item_transaction : String
item_transaction = "transaction"

abbrev pub accepted_types : List String
accepted_types =
    item_event ∷ item_transaction ∷ "attachment" ∷ "session" ∷ "client_report" ∷ "check_in" ∷ []

abbrev pub accepts : String → Bool
accepts name = any (str_eq name) accepted_types

-- unicode.IsSpace, on the bytes of one rune
abbrev space : ℕ → Bool
space b = (leb 9 b && leb b 13) || b == 32

abbrev space_of_two : ℕ → ℕ → Bool
space_of_two a b = a == 0xc2 && (b == 0x85 || b == 0xa0)

abbrev space_of_three : ℕ → ℕ → ℕ → Bool
space_of_three a b c =
    (a == 0xe1 && b == 0x9a && c == 0x80)
    || (a == 0xe2 && b == 0x80 && (leb 0x80 c && leb c 0x8a || c == 0xa8 || c == 0xa9 || c == 0xaf))
    || (a == 0xe2 && b == 0x81 && c == 0x9f)
    || (a == 0xe3 && b == 0x80 && c == 0x80)

-- len(bytes.TrimSpace(line)) == 0
unfoldable pub blank : Bytes → Bool
blank [] = true
blank (a ∷ []) = space a
blank (a ∷ b ∷ []) = let rest = blank (b ∷ []) in if space a then rest else space_of_two a b
blank (a ∷ b ∷ c ∷ bs) =
    let one = blank (b ∷ c ∷ bs) in
    let two = blank (c ∷ bs) in
    let three = blank bs in
    if space a then one else if space_of_two a b then two else space_of_three a b c && three

-- The bytes up to a newline or the end, and whether a newline follows
unfoldable pub until_newline : Bytes → Bytes × Bool
until_newline [] = ([], false)
until_newline (b ∷ bs) =
    let rest = until_newline bs in if b == b'\n' then ([], true) else (b ∷ rest.0, rest.1)

-- What readLine returns, with what is left to read
pub data Line : Type 0 where
  too_long : Line
  line : Bytes → Bytes → Line
  eof : Bytes → Line

-- The bound counts the newline.
unfoldable pub read_line : ℕ → Bytes → Line
unfolding until_newline
read_line max input =
    let text = (until_newline input).0 in
    if (until_newline input).1
    then (if ltb max (length text + 1) then too_long else line text (drop (length text + 1) input))
    else if ltb max (length text)
    then too_long
    else eof text

pub data Payload : Type 0 where
  bad : Payload
  payload : Bytes → Bytes → Payload

-- A payload without a length runs to the next newline.
abbrev pub from_line : Line → Payload
from_line too_long = bad
from_line (line text rest) = payload text rest
from_line (eof text) = payload text []

-- The newline after a payload with a length is optional at the end.
abbrev pub after_sized : Bytes → Bytes → Payload
after_sized bytes [] = payload bytes []
after_sized bytes (b ∷ rest) = if b == b'\n' then payload bytes rest else bad

abbrev pub sized : Limits → ℤ → Bytes → Payload
sized lim (negsuc k) input = bad
sized lim (pos n) input =
    if ltb lim.max_item_bytes n || ltb (length input) n
    then bad
    else after_sized (take n input) (drop n input)

-- The payload of an item, and what is left to read
unfoldable pub read_payload : Limits → ItemHeader → Bytes → Payload
unfolding read_line
read_payload lim ih input = elim ih.size [
  | none ↦ from_line (read_line lim.max_item_bytes input)
  | some n ↦ sized lim n input
]

-- What the loop of Parse ends with: its items, an error, or more rounds to go.
pub data Parsed (A : Type 0) : Type 0 where
  parsed : A → Parsed A
  malformed : Parsed A
  out_of_fuel : Parsed A

module _ (decode_header : Bytes → Option EnvelopeHeader) (decode_item : Bytes → Option ItemHeader)
    (ahead : Bytes → ℕ) where
  -- The round of the loop for a line that is not blank
  unfoldable pub read_item : Limits → List Item → Bytes → Bytes → Option (List Item × Bytes)
  unfolding read_payload
  read_item lim items text rest =
      if leb lim.max_items (length items) then none else elim (decode_item text) [
        | none ↦ none
        | some ih ↦ if str_eq ih.type_name "" then none else elim (read_payload lim ih rest) [
          | bad ↦ none
          | payload bytes left ↦ some (
              if accepts ih.type_name
              then (items ++ record { header = ih; payload = bytes } ∷ [], left)
              else (items, left))
        ]
      ]

  -- The loop of Parse on what is left of `total` bytes
  unfoldable pub read_items : ℕ → Limits → ℕ → List Item → Bytes → Parsed (List Item)
  unfolding read_item read_line
  read_items zero lim total items input = out_of_fuel
  read_items (suc fuel) lim total items input =
      if leb (lim.max_envelope_bytes + 1) (total - length input + ahead input)
      then malformed
      else elim (read_line lim.max_envelope_bytes input) [
        | too_long ↦ parsed items
        | eof text ↦ if blank text then parsed items else elim (read_item lim items text []) [
          | none ↦ malformed
          | some (more, left) ↦ read_items fuel lim total more left
        ]
        | line text rest ↦
            if blank text
            then read_items fuel lim total items rest
            else elim (read_item lim items text rest) [
              | none ↦ malformed
              | some (more, left) ↦ read_items fuel lim total more left
            ]
      ]

  -- Parse; each round reads a byte at least, but for the last one.
  unfoldable pub parse : Limits → Bytes → Parsed Envelope
  unfolding read_items
  parse set input =
      let lim = defaults set in
      let capped = take (lim.max_envelope_bytes + 1) input in
      elim (read_line lim.max_envelope_bytes capped) [
        | too_long ↦ malformed
        | eof text ↦ malformed
        | line text rest ↦ elim (decode_header text) [
          | none ↦ malformed
          | some header ↦ elim (read_items (length rest + 2) lim (length capped) [] rest) [
            | parsed items ↦ parsed (record { header = header; items = items })
            | malformed ↦ malformed
            | out_of_fuel ↦ out_of_fuel
          ]
        ]
      ]
