-- ===== src/Eventstore/Refresh/Rounds.antt =====
-- Open after the segments of internal/eventstore/store.go were written, and Refresh after Refresh.
use mathlib.Core.List.{Perm}
use leser.Prelude.{◌≡◌, refl, Bool, not, true, some, List, [], ◌∷◌, ◌++◌, map, All, arith}
use leser.Eventstore.{SegPath, SegMeta, Store, Options}
use leser.Prelude.Sorting.{keep}
use leser.Eventstore.Refresh.{
  Found, read_segment_meta, is_known, new_segments, path_of, refresh, open_store,
}
use leser.Eventstore.Refresh.Footers.{file_of, Placed, read_segment_meta-file_of}

new_segments-files :
    (segs : List SegMeta) → All Placed segs → new_segments [] (map file_of segs) ≡ some segs
unfolding new_segments
new_segments-files [] h = refl
new_segments-files (m ∷ segs) h =
    ground (arith, read_segment_meta-file_of m h.0, new_segments-files segs h.1)

-- Open on a directory with the files of some segments, as writeSegment leaves them in the directories of their
-- project and hour, gives a store with these segments in the order of the walk: the same bounds, counts of rows
-- and row groups, all known, and nothing in the buffer.
pub open-files :
    (opts : Options) (segs : List SegMeta)
    → All Placed segs
    → open_store opts (map file_of segs)
      ≡ some (record {
        opts = opts;
        buf = [];
        buf_since = 0;
        segs = segs;
        known = map path_of segs;
        flush_count = 0;
      })
unfolding open_store
open-files opts segs h = ground (arith, new_segments-files segs h)

-- After a walk without an error, the paths that it found are known.
Noted : List SegPath → List Found → Type 0
Noted known walk = All (λ file. is_known known file.path ≡ true) walk

abbrev unseen : List SegPath → Found → Bool
unseen known file = not (is_known known file.path)

-- What a Refresh takes: `new` are the segments that the footers of the files describe whose paths were not
-- known, in the order of the walk.
pub record Taken (walk : List Found) (s s' : Store) : Type 0 where
  pub new : List SegMeta
  pub read :
      map read_segment_meta (keep (λ file. not (is_known s.known file.path)) walk) ≡ map some new
  pub segs : Perm s'.segs (s.segs ++ new)
  pub buf : s'.buf ≡ s.buf
  pub again : refresh walk s' ≡ some s'
