-- ===== src/Wal/Retention.antt =====
-- Retain of internal/wal/retention.go. Times are nanoseconds since the epoch, and not before it.
use leser.Prelude.{
  ℕ, zero, suc, ◌+◌, ◌-◌, ◌≤◌, ◌<◌, ◌≡◌, refl, sym, ap, ◌∙◌, Bool, true, false, ◌&&◌, ◌||◌, Option,
  none, some, List, [], ◌∷◌, ◌++◌, length, arith, All, ltb, if◌then◌else◌, Bool-cases, inl, inr,
  max,
}
use mathlib.Core.Path.{subst, subst₂}
use leser.Wal.Record.RoundTrip.{Fits}
use leser.Prelude.Bytes.{Bytes}
use leser.Wal.Record.{Entry, scan_record, seg_header_len}
use leser.Wal.Disk.{Disk, read_file, remove_file}
use leser.Wal.Log.{Log, SegMeta, end}
use leser.Wal.Segment.Recovery.{seg_file}
use leser.Wal.Layout.{
  Chunks, total, meta, metas, files, Holds, NonEmpty, entries, entries-append, total-append,
  All-after,
}

-- A zero turns a bound off.
pub record RetentionPolicy : Type 0 where
  pub max_bytes : ℕ
  pub max_age : ℕ
  pub min_retain_offset : ℕ

-- The scan of segmentNewestTime: the time of the last record, 0 if there is none.
newest_from : ℕ → ℕ → Bytes → ℕ → ℕ → ℕ → ℕ
newest_from zero max_record f pos off last = last
newest_from (suc fuel) max_record f pos off last =
    elim (scan_record f pos (length f) max_record off) [
      | none ↦ last
      | some (r, next) ↦ newest_from fuel max_record f next (off + 1) r.entry.time
    ]

unfoldable pub segment_newest_time : ℕ → Disk → SegMeta → Option ℕ
unfolding newest_from
segment_newest_time max_record disk s = elim (read_file s.base disk) [
  | none ↦ none
  | some f ↦ some (newest_from (length f) max_record f seg_header_len s.base 0)
]

-- The tests of the loop's body, for the oldest segment: may it go, is it over a bound?
over_size : RetentionPolicy → ℕ → Bool
over_size p size = ltb 0 p.max_bytes && ltb p.max_bytes size

over_age : RetentionPolicy → ℕ → Option ℕ → Bool
over_age p now none = false
over_age p now (some newest) = ltb 0 p.max_age && ltb p.max_age (now - newest)

unfoldable pub expendable : ℕ → RetentionPolicy → ℕ → ℕ → Disk → SegMeta → Bool
unfolding over_size over_age
expendable max_record p now size disk s =
    if ltb p.min_retain_offset (end s)
    then false
    else over_size p size || over_age p now (segment_newest_time max_record disk s)

total_bytes : List SegMeta → ℕ
total_bytes [] = 0
total_bytes (s ∷ segs) = s.bytes + total_bytes segs

pub record Retained : Type 0 where
  pub segs : List SegMeta
  pub disk : Disk
  pub deleted : ℕ

-- The loop, oldest segment first; the last segment is active and stays.
unfoldable pub retain_loop : ℕ → RetentionPolicy → ℕ → ℕ → List SegMeta → Disk → Retained
retain_loop max_record p now size [] disk = record { segs = []; disk = disk; deleted = 0 }
retain_loop max_record p now size (s ∷ []) disk = record { segs = s ∷ []; disk = disk; deleted = 0 }
retain_loop max_record p now size (s ∷ t ∷ segs) disk =
    let rest = retain_loop max_record p now (size - s.bytes) (t ∷ segs) (remove_file s.base disk) in
    if expendable max_record p now size disk s
    then record rest { deleted = rest.deleted + 1 }
    else record { segs = s ∷ t ∷ segs; disk = disk; deleted = 0 }

unfoldable pub retain : ℕ → RetentionPolicy → ℕ → Log → Log × ℕ
unfolding total_bytes retain_loop
retain max_record p now l =
    let r = retain_loop max_record p now (total_bytes l.segs) l.segs l.disk in
    (record l { segs = r.segs; disk = r.disk }, r.deleted)

-- What the loop keeps of the sealed segments: those behind a number of the oldest ones, each of which
-- ends at or below the offset that consumers still need.
pub record Keeps (p : RetentionPolicy) (b e : ℕ) (cs : Chunks) (es : List Entry) (r : Retained)
    : Type 0 where
  pub gone : Chunks
  pub kept : Chunks
  pub split : cs ≡ gone ++ kept
  pub segs : r.segs ≡ metas (b + total gone) kept ++ meta e es ∷ []
  pub disk : r.disk ≡ files (b + total gone) kept ++ (e, seg_file e es) ∷ []
  pub deleted : r.deleted ≡ length gone
  pub unread : b + total gone ≤ max b p.min_retain_offset

-- One round of the loop with segments behind the oldest.
retain_step :
    (m : ℕ) (p : RetentionPolicy) (now size : ℕ) (s : SegMeta) (segs : List SegMeta) (disk : Disk)
    → 0 < length segs
    → retain_loop m p now size (s ∷ segs) disk ≡ (
        if expendable m p now size disk s
        then (let rest = retain_loop m p now (size - s.bytes) segs (remove_file s.base disk) in
            record rest { deleted = rest.deleted + 1 })
        else record { segs = s ∷ segs; disk = disk; deleted = 0 })
unfolding retain_loop
retain_step m p now size s [] disk h = absurd (omega arith)
retain_step m p now size s (t ∷ segs) disk h = refl

metas_pos : (b : ℕ) (cs : Chunks) (s : SegMeta) → 0 < length (metas b cs ++ s ∷ [])
unfolding metas
metas_pos b [] s = omega arith
metas_pos b (c ∷ cs) s = omega arith

expendable-unread :
    (m : ℕ) (p : RetentionPolicy) (now size : ℕ) (disk : Disk) (b : ℕ) (c : List Entry)
    → expendable m p now size disk (meta b c) ≡ true
    → b + length c ≤ p.min_retain_offset
unfolding expendable end meta
expendable-unread m p now size disk b c h = ground arith

remove_first : (b : ℕ) (f : Bytes) (disk : Disk) → remove_file b ((b, f) ∷ disk) ≡ disk
unfolding remove_file
remove_first b f disk = ground arith

Keeps-all :
    (p : RetentionPolicy) (b e : ℕ) (cs : Chunks) (es : List Entry)
    → Keeps p b e cs es (record {
      segs = metas b cs ++ meta e es ∷ [];
      disk = files b cs ++ (e, seg_file e es) ∷ [];
      deleted = 0;
    })
unfolding total
Keeps-all p b e cs es =
    let at : b ≡ b + 0 = omega arith in
    record {
      gone = [];
      kept = cs;
      split = refl;
      segs = ap (λ x. metas x cs ++ meta e es ∷ []) at;
      disk = ap (λ x. files x cs ++ (e, seg_file e es) ∷ []) at;
      deleted = refl;
      unread = omega arith;
    }

Keeps-later :
    (p : RetentionPolicy) (b e : ℕ) (c : List Entry) (cs : Chunks) (es : List Entry) (r : Retained)
    → b + length c ≤ p.min_retain_offset
    → Keeps p (b + length c) e cs es r
    → Keeps p b e (c ∷ cs) es (record r { deleted = r.deleted + 1 })
unfolding total
Keeps-later p b e c cs es r h k =
    let at : b + length c + total k.gone ≡ b + (length c + total k.gone) = omega arith in
    record {
      gone = c ∷ k.gone;
      kept = k.kept;
      split = ap (◌∷◌ c) k.split;
      segs = k.segs ∙ ap (λ x. metas x k.kept ++ meta e es ∷ []) at;
      disk = k.disk ∙ ap (λ x. files x k.kept ++ (e, seg_file e es) ∷ []) at;
      deleted = omega (arith, k.deleted);
      unread = omega (arith, k.unread);
    }

retain_loop-Keeps :
    (m : ℕ) (p : RetentionPolicy) (now size b e : ℕ) (cs : Chunks) (es : List Entry)
    → Keeps p b e cs es (
        retain_loop m p now size
          (metas b cs ++ meta e es ∷ [])
          (files b cs ++ (e, seg_file e es) ∷ []))
unfolding metas files meta
retain_loop-Keeps m p now size b e [] es = unfold retain_loop in Keeps-all p b e [] es
retain_loop-Keeps m p now size b e (c ∷ cs) es =
    let d : Disk = (b, seg_file b c) ∷ (files (b + length c) cs ++ (e, seg_file e es) ∷ []) in
    let later = retain_loop-Keeps m p now (size - (meta b c).bytes) (b + length c) e cs es in
    rw (retain_step m p now size (meta b c) _ d (metas_pos (b + length c) cs (meta e es)))
      (elim (Bool-cases (expendable m p now size d (meta b c))) [
        | inl t ↦
            rw
              (
                t,
                remove_first b (seg_file b c) (files (b + length c) cs ++ (e, seg_file e es) ∷ []),
              )
              (Keeps-later p b e c cs es _ (expendable-unread m p now size d b c t) later)
        | inr t ↦ rw t (Keeps-all p b e (c ∷ cs) es)
      ])

-- A log after Retain: the segments that are gone, and those that are kept.
pub record Retains (m b : ℕ) (p : RetentionPolicy) (now : ℕ) (l : Log) (cs : Chunks)
    (es : List Entry) : Type 0 where
  pub gone : Chunks
  pub kept : Chunks
  pub content : entries cs ≡ entries gone ++ entries kept
  pub holds : Holds m (retain m p now l).0 (b + total gone) kept es
  pub deleted : (retain m p now l).1 ≡ length gone
  pub unread : b + total gone ≤ max b p.min_retain_offset
  pub next : (retain m p now l).0.next ≡ l.next

loop_at :
    (m b : ℕ) (p : RetentionPolicy) (now : ℕ) (l : Log) (cs : Chunks) (es : List Entry)
    → Holds m l b cs es
    → Keeps p b (b + total cs) cs es (retain_loop m p now (total_bytes l.segs) l.segs l.disk)
loop_at m b p now l cs es h =
    subst₂ (λ x y. Keeps p b (b + total cs) cs es (retain_loop m p now (total_bytes l.segs) x y))
      (sym h.segs) (sym h.disk)
      (retain_loop-Keeps m p now (total_bytes l.segs) b (b + total cs) cs es)

-- On a log whose state and files agree, Retain removes a front part of the sealed segments and nothing
-- else, returns how many it removed, and leaves the state and the files in agreement: the first offset
-- that is left is not above MinRetainOffset unless nothing was removed, and the next one is unchanged.
pub retain-Retains :
    (m b : ℕ) (p : RetentionPolicy) (now : ℕ) (l : Log) (cs : Chunks) (es : List Entry)
    → Holds m l b cs es
    → Retains m b p now l cs es
unfolding retain
retain-Retains m b p now l cs es h =
    let k = loop_at m b p now l cs es h in
    let n : b + total cs ≡ b + total k.gone + total k.kept =
      omega (arith, ap total k.split, total-append k.gone k.kept) in
    record {
      gone = k.gone;
      kept = k.kept;
      content = ap entries k.split ∙ entries-append k.gone k.kept;
      holds = record {
        segs = k.segs ∙ ap (λ x. metas (b + total k.gone) k.kept ++ meta x es ∷ []) n;
        disk = k.disk ∙ ap (λ x. files (b + total k.gone) k.kept ++ (x, seg_file x es) ∷ []) n;
        active = h.active ∙ n;
        next = omega (arith, h.next);
        sealed = All-after NonEmpty k.gone k.kept (subst (All NonEmpty) k.split h.sealed);
        sealed_fit =
            All-after (All (Fits m)) k.gone k.kept
              (subst (All (All (Fits m))) k.split h.sealed_fit);
        fit = h.fit;
        word = h.word;
      };
      deleted = k.deleted;
      unread = k.unread;
      next = refl;
    }
