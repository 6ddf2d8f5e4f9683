-- ===== src/Ingest/Envelope/Tests.antt =====
-- Parse of internal/ingest/envelope.go on small inputs: a line `e` stands for the header of an event of two
-- bytes, a line `r` for that of a replay without a length.
use leser.Prelude.{
  ◌≡◌, ◌≢◌, refl, Option, none, some, [], ◌∷◌, length, map, arith, ◌==◌, if◌then◌else◌,
}
use leser.Prelude.Bytes.{Bytes, bytes_eq}
use leser.Ingest.Envelope.{
  Limits, pos, EnvelopeHeader, ItemHeader, Envelope, item_event, defaults, blank, until_newline,
  read_line, read_payload, parsed, malformed, out_of_fuel, read_item, read_items, parse,
}
use leser.Ingest.Envelope.Items
use leser.Ingest.Envelope.Items.{ItemsOk}
use leser.Ingest.Envelope.Prints
use leser.Ingest.Envelope.Prints.{Framed, item_of, print_items, print}

abbrev header : EnvelopeHeader
header = record { event_id = "7"; dsn = ""; sent_at = "" }

abbrev event_header : ItemHeader
event_header = record { type_name = item_event; size = some (pos 2) }

abbrev decode_header : Bytes → Option EnvelopeHeader
decode_header [] = none
decode_header (b ∷ bs) = some header

abbrev decode_item : Bytes → Option ItemHeader
decode_item [] = none
decode_item (b ∷ bs) =
    if b == b'e'
    then some event_header
    else if b == b'r'
    then some (record { type_name = "replay_event"; size = none })
    else none

abbrev limits : Limits
limits = record { max_envelope_bytes = 40; max_items = 2; max_item_bytes = 4 }

abbrev framed : Framed
framed = record {
  text = b'e' ∷ [];
  item = record { header = event_header; payload = b'o' ∷ b'\n' ∷ [] };
}

abbrev sent : Bytes
sent = print (b'{' ∷ []) (framed ∷ framed ∷ [])

abbrev envelope : Envelope
envelope = record { header = header; items = framed.item ∷ framed.item ∷ [] }

program : Unit {0}
unfolding bytes_eq defaults blank until_newline read_line read_payload read_item read_items parse
    print_items
program = tt

two_items : parse decode_header decode_item length limits sent ≡ parsed envelope
unfolding program
two_items = refl

too_many :
    parse decode_header decode_item length limits
      (print (b'{' ∷ []) (framed ∷ framed ∷ framed ∷ []))
    ≡ malformed
unfolding program
too_many = refl

unknown_type :
    parse decode_header decode_item length limits
      (b'{' ∷ b'\n' ∷ b'r' ∷ b'\n' ∷ b'x' ∷ b'\n' ∷ b' ' ∷ b'\n' ∷ b'e' ∷ b'\n' ∷ b'o' ∷ b'k' ∷ [])
    ≡ parsed (record {
      header = header;
      items = record { header = event_header; payload = b'o' ∷ b'k' ∷ [] } ∷ [];
    })
unfolding program
unknown_type = refl

truncated :
    parse decode_header decode_item length limits (b'{' ∷ b'\n' ∷ b'e' ∷ b'\n' ∷ b'o' ∷ [])
    ≡ malformed
unfolding program
truncated = refl

parse-ItemsOk_example : ItemsOk (defaults limits) envelope.items
parse-ItemsOk_example =
    Items.parse-ItemsOk decode_header decode_item length limits sent envelope two_items

parse_ends_example : parse decode_header decode_item length limits sent ≢ out_of_fuel
parse_ends_example = Items.parse_ends decode_header decode_item length limits sent

parse-print_example :
    parse decode_header decode_item length limits (print (b'{' ∷ []) (framed ∷ framed ∷ []))
    ≡ parsed (record { header = header; items = map item_of (framed ∷ framed ∷ []) })
unfolding program
parse-print_example =
    Prints.parse-print decode_header decode_item length limits (b'{' ∷ []) header
      (framed ∷ framed ∷ []) (λ rest. omega arith) (omega arith, tt) refl
      (framed-Ok, (framed-Ok, tt)) (omega arith) (omega arith)
  where
    framed-Ok : Prints.FramedOk decode_header decode_item length (defaults limits) framed
    framed-Ok = record {
      one_line = (omega arith, tt);
      filled = refl;
      header = refl;
      size = refl;
      known = refl;
      small = omega arith;
    }
