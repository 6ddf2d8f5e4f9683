-- ===== src/Wal/Delivery/Next.antt =====
-- position and Next of internal/wal/reader.go on a log whose state and files agree.
use leser.Prelude.{
  ℕ, suc, ◌+◌, ◌-◌, ◌≤◌, ◌<◌, ◌≡◌, refl, sym, ap, ◌∙◌, List, [], ◌∷◌, ◌++◌, some, arith, append-nil,
  length, get_elem?, get_elem?-append_left, get_elem?-append_right, All, All-append,
}
use leser.Prelude.Bytes.{Bytes}
use leser.Wal.Record.{Entry, Record, scan_record}
use leser.Wal.Record.RoundTrip.{Fits}
use leser.Wal.Log.{Log}
use leser.Wal.Reader.{Reader, ok, position, next}
use leser.Wal.Layout.{Chunks, total, entries, Holds, entries-snoc}
use leser.Wal.Cursors.{place, split_at, scan_record-place}
use leser.Wal.Delivery.{chunks, locate}
use leser.Wal.Delivery.Positions.{position-lem, CursorOk}

get_elem?-entries :
    (pre : Chunks) (d : List Entry) (post : Chunks) (i k : ℕ)
    → i < length d
    → k ≡ total pre + i
    → get_elem? (entries (pre ++ d ∷ post)) k ≡ get_elem? d i
unfolding entries total
get_elem?-entries [] d post i k h p =
    ap (get_elem? (d ++ entries post)) (omega arith) ∙ get_elem?-append_left d (entries post) i h
get_elem?-entries (c ∷ pre) d post i k h p =
    get_elem?-append_right c (entries (pre ++ d ∷ post)) k (total pre + i) (omega arith)
    ∙ get_elem?-entries pre d post i (total pre + i) h refl

All-located :
    (P : List Entry → Type 0) (pre : Chunks) (d : List Entry) (post ds : Chunks)
    → ds ≡ pre ++ d ∷ post
    → All P ds
    → P d
All-located P pre d post ds e h = go pre (rw e at h)
  where
    go : (pre : Chunks) → All P (pre ++ d ∷ post) → P d
    go [] h = h.0
    go (c ∷ pre) h = go pre h.1

-- What Next gives a reader of the log: the entry of its position, the next position, and a cursor
-- that is good for the next call.
pub record Delivers (m : ℕ) (l : Log) (b : ℕ) (cs : Chunks) (es : List Entry) (r : Reader)
    : Type 0 where
  pub entry : Entry
  pub reader : Reader
  pub at : get_elem? (entries cs ++ es) (r.pos - b) ≡ some entry
  pub result : next m l r ≡ ok (record { offset = r.pos; entry = entry }, reader)
  pub pos : reader.pos ≡ r.pos + 1
  pub committed : reader.committed ≡ r.committed
  pub cursor : CursorOk b (chunks cs es) reader.cursor

next_result :
    (m : ℕ) (l : Log) (r : Reader) (f : Bytes) (base p : ℕ) (rec : Record) (after : ℕ)
    → r.pos < l.next
    → position m l r.pos r.cursor ≡ ok (f, record { base = base; offset = r.pos; byte_pos = p })
    → scan_record f p (length f) m r.pos ≡ some (rec, after)
    → next m l r
      ≡ ok (
        rec,
        record r {
          pos = r.pos + 1;
          cursor = some (record { base = base; offset = r.pos + 1; byte_pos = after });
        },
      )
unfolding next
next_result m l r f base p rec after h found scanned = ground arith

-- On a log whose state and files agree, for a reader whose position is not below the oldest offset and
-- is below the latest one, and whose open cursor (if any) stands at a record's start: Next returns the
-- entry of that position with its offset, moves the position on by one, and leaves a cursor that is
-- good for the next call.
pub next-Delivers :
    (m b : ℕ) (cs : Chunks) (es : List Entry) (l : Log) (r : Reader)
    → Holds m l b cs es
    → CursorOk b (chunks cs es) r.cursor
    → b ≤ r.pos
    → r.pos < l.next
    → Delivers m l b cs es r
next-Delivers m b cs es l r h k lo hi =
    let a = locate b r.pos cs es h.sealed lo (omega (arith, h.next)) in
    let base = b + total a.pre in
    let fits =
      All-located (All (Fits m)) a.pre a.d a.post (chunks cs es) a.split
        (All-append (All (Fits m)) cs (es ∷ []) h.sealed_fit (h.fit, tt)) in
    let n = r.pos - base in
    let s = split_at a.d n (omega (arith, a.low, a.high)) in
    let found = position-lem m b cs es l h r.pos a r.cursor k (omega (arith, h.word)) fits in
    let scanned = scan_record-place m base a.d fits n s r.pos in
    record {
      entry = s.entry;
      reader = record r {
        pos = r.pos + 1;
        cursor = some (record { base = base; offset = r.pos + 1; byte_pos = place a.d (suc n) });
      };
      at =
          ap (λ x. get_elem? x (r.pos - b))
            (ap (λ x. entries cs ++ x) (sym (append-nil es))
              ∙ sym (entries-snoc cs es)
              ∙ ap entries a.split)
          ∙ get_elem?-entries a.pre a.d a.post n (r.pos - b) (omega (arith, a.low, a.high))
              (omega (arith, a.low))
          ∙ s.at;
      result = next_result m l r _ _ _ _ _ hi found scanned;
      pos = refl;
      committed = refl;
      cursor = record {
        pre = a.pre;
        d = a.d;
        post = a.post;
        n = suc n;
        split = a.split;
        sealed = a.sealed;
        within = omega (arith, a.low, a.high);
        base = refl;
        offset = omega (arith, a.low);
        byte_pos = refl;
      };
    }
