-- ===== src/Wal/Delivery/Positions.antt =====
-- position of internal/wal/reader.go on a log whose state and files agree: where the cursor comes to stand.
use leser.Prelude.{
  ℕ, ◌+◌, ◌-◌, ◌≤◌, ◌<◌, ◌^◌, ◌≡◌, sym, ap, ◌∙◌, true, false, List, [], ◌∷◌, ◌++◌, Option, some,
  none, arith, length, All, leb, ◌==◌, ◌&&◌, Bool-cases, inl, inr,
}
use leser.Wal.Record.{Entry}
use leser.Wal.Record.RoundTrip.{Fits}
use leser.Wal.Segment.Recovery.{seg_file}
use leser.Wal.Disk.{read_file}
use leser.Wal.Log.{Log}
use leser.Wal.Reader.{Cursor, ok, skip_to, start, reusable, open_segment, keep_open, position}
use leser.Wal.Layout.{Chunks, total, meta, Holds, NonEmpty}
use leser.Wal.Cursors.{place, place-zero, skip-place}
use leser.Wal.Rescans.{header-seg_file}
use leser.Wal.Delivery.{Located, chunks, segment_for-Located, file_at}

-- A cursor stands before a record of one of the segments, or at its end.
pub record CursorAt (b : ℕ) (ds : Chunks) (c : Cursor) : Type 0 where
  pub pre : Chunks
  pub d : List Entry
  pub post : Chunks
  pub n : ℕ
  pub split : ds ≡ pre ++ d ∷ post
  pub sealed : All NonEmpty pre
  pub within : n ≤ length d
  pub base : c.base ≡ b + total pre
  pub offset : c.offset ≡ b + total pre + n
  pub byte_pos : c.byte_pos ≡ place d n

abbrev pub CursorOk : ℕ → Chunks → Option Cursor → Type 0
CursorOk b ds none = Unit
CursorOk b ds (some c) = CursorAt b ds c

-- The base tells which segment it is.
pub split_unique :
    (pre pre' : Chunks) (d d' : List Entry) (post post' : Chunks)
    → pre ++ d ∷ post ≡ pre' ++ d' ∷ post'
    → total pre ≡ total pre'
    → All NonEmpty pre
    → All NonEmpty pre'
    → NonEmpty d'
    → d ≡ d'
unfolding total
split_unique [] [] d d' post post' e t s s' n = cc
split_unique [] (x ∷ pre') d d' post post' e t s s' n = absurd (omega arith)
split_unique (x ∷ pre) [] d d' post post' e t s s' n = absurd (omega arith)
split_unique (x ∷ pre) (y ∷ pre') d d' post post' e t s s' n =
    let p : x ≡ y = cc in
    split_unique pre pre' d d' post post' (cc) (omega (arith, ap length p)) s.1 s'.1 n

pub cursor_eq :
    (c : Cursor) (base offset byte_pos : ℕ)
    → c.base ≡ base
    → c.offset ≡ offset
    → c.byte_pos ≡ byte_pos
    → c ≡ record { base = base; offset = offset; byte_pos = byte_pos }
cursor_eq c base offset byte_pos p q r = λ i. record { base = p i; offset = q i; byte_pos = r i }

module _ (m b : ℕ) (cs : Chunks) (es : List Entry) (l : Log) (h : Holds m l b cs es) where
  module _ (off : ℕ) (a : Located b (chunks cs es) off) where
    abbrev pub base : ℕ
    base = b + total a.pre

    -- What position starts from is the segment of the offset, at or before it.
    open-start :
        (off < 2 ^ 64)
        → open_segment l (meta base a.d)
          ≡ ok (seg_file base a.d, record { base = base; offset = base; byte_pos = place a.d 0 })
    unfolding open_segment meta
    open-start w = ground (
      arith,
      file_at m b cs es l h off a,
      header-seg_file (b + total a.pre) a.d (omega (arith, a.low)),
      place-zero a.d,
    )

    keep-start :
        (c : Cursor) (k : CursorAt b (chunks cs es) c)
        → c.base ≡ base
        → keep_open l c
          ≡ ok (
            seg_file base a.d,
            record { base = base; offset = base + k.n; byte_pos = place a.d k.n },
          )
    unfolding keep_open
    keep-start c k p =
        let same : k.d ≡ a.d =
          split_unique k.pre a.pre k.d a.d k.post a.post (sym k.split ∙ a.split)
            (omega (arith, k.base)) k.sealed a.sealed (omega (arith, a.low, a.high)) in
        let f = ap (λ x. read_file x l.disk) p ∙ file_at m b cs es l h off a in
        let e =
          cursor_eq c (b + total a.pre) (b + total a.pre + k.n) (place a.d k.n) p
            (omega (arith, k.base, k.offset)) (k.byte_pos ∙ ap (λ x. place x k.n) same) in
        rw (f, keep_open) (ap (λ x. ok (seg_file (b + total a.pre) a.d, x)) e)

    keep_within : (c : Cursor) (k : CursorAt b (chunks cs es) c) → c.base ≡ base → k.n ≤ length a.d
    keep_within c k p =
        let same : k.d ≡ a.d =
          split_unique k.pre a.pre k.d a.d k.post a.post (sym k.split ∙ a.split)
            (omega (arith, k.base)) k.sealed a.sealed (omega (arith, a.low, a.high)) in
        omega (arith, k.within, ap length same)

    start_kept :
        (c : Cursor)
        → ((c.base == base) && leb c.offset off) ≡ true
        → start l off (meta base a.d) (some c) ≡ keep_open l c
    unfolding start reusable meta
    start_kept c t = ground arith

    start_opened :
        (c : Cursor)
        → ((c.base == base) && leb c.offset off) ≡ false
        → start l off (meta base a.d) (some c) ≡ open_segment l (meta base a.d)
    unfolding start reusable meta
    start_opened c t = ground arith

    opened_at :
        off < 2 ^ 64
        → open_segment l (meta base a.d)
          ≡ ok
              (seg_file base a.d, record { base = base; offset = base + 0; byte_pos = place a.d 0 })
    opened_at w =
        open-start w
        ∙ ap
            (λ x.
              ok (seg_file base a.d, record { base = base; offset = x; byte_pos = place a.d 0 }))
            (omega arith)

    start-lem :
        (cursor : Option Cursor)
        → CursorOk b (chunks cs es) cursor
        → off < 2 ^ 64
        → (n : ℕ) × (base + n ≤ off)
          × (n ≤ length a.d)
          × (start l off (meta base a.d) cursor
              ≡ ok (
                seg_file base a.d,
                record { base = base; offset = base + n; byte_pos = place a.d n },
              ))
    start-lem none k w =
        (0, omega (arith, a.low), omega arith, unfold start reusable in opened_at w)
    start-lem (some c) k w = elim (Bool-cases ((c.base == base) && leb c.offset off)) [
      | inl t ↦
          let p : c.base ≡ base = ground arith in
          (k.n, ground (arith, k.offset), keep_within c k p, start_kept c t ∙ keep-start c k p)
      | inr t ↦ (0, omega (arith, a.low), omega arith, start_opened c t ∙ opened_at w)
    ]

    pub position-lem :
        (cursor : Option Cursor)
        → CursorOk b (chunks cs es) cursor
        → off < 2 ^ 64
        → All (Fits m) a.d
        → position m l off cursor
          ≡ ok (
            seg_file base a.d,
            record { base = base; offset = off; byte_pos = place a.d (off - base) },
          )
    unfolding position skip_to
    position-lem cursor k w f =
        let (n, low, within, started) = start-lem cursor k w in
        let k' : n + (off - (base + n)) ≡ off - base = omega arith in
        let there : base + (off - base) ≡ off = omega (arith, a.low) in
        let moved =
          skip-place m base a.d f (off - (base + n)) n (omega (arith, a.high))
          ∙ ap (λ y. ok (record { base = base; offset = base + y; byte_pos = place a.d y })) k'
          ∙ ap (λ x. ok (record { base = base; offset = x; byte_pos = place a.d (off - base) }))
              there in
        rw (segment_for-Located m b cs es l h off a, position)
          (rw (started, position) (rw (moved, position)))
