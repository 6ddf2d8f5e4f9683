-- ===== src/Wal/Disk.antt =====
-- The segment files in the log's directory, each under the base offset that its name spells. The
-- operating system's errors are not modelled: a call fails only where the files make it fail.
use leser.Prelude.{ℕ, Option, none, some, List, [], ◌∷◌, ◌++◌, map, ◌==◌, leb, if◌then◌else◌, take}
use leser.Prelude.Bytes.{Bytes}

abbrev pub Disk : Type 0
Disk = List (ℕ × Bytes)

-- os.Open and a read of the whole file
unfoldable pub read_file : ℕ → Disk → Option Bytes
read_file k [] = none
read_file k ((j, f) ∷ d) = if j == k then some f else read_file k d

unfoldable pub change_file : (Bytes → Bytes) → ℕ → Disk → Disk
change_file g k [] = []
change_file g k ((j, f) ∷ d) = if j == k then (j, g f) ∷ d else (j, f) ∷ change_file g k d

-- A Write at the end of the file, and File.Truncate.
abbrev pub append_file : Bytes → ℕ → Disk → Disk
append_file bytes = change_file (λ f. f ++ bytes)

abbrev pub truncate_file : ℕ → ℕ → Disk → Disk
truncate_file n = change_file (take n)

-- os.Remove
unfoldable pub remove_file : ℕ → Disk → Disk
remove_file k [] = []
remove_file k ((j, f) ∷ d) = if j == k then d else (j, f) ∷ remove_file k d

-- os.OpenFile with O_EXCL and the write of the contents: `none` if the file is there already.
unfoldable pub create_file : ℕ → Bytes → Disk → Option Disk
unfolding read_file
create_file k contents d = elim (read_file k d) [
  | none ↦ some (d ++ (k, contents) ∷ [])
  | some _ ↦ none
]

unfoldable pub insert_sorted : ℕ → List ℕ → List ℕ
insert_sorted k [] = k ∷ []
insert_sorted k (j ∷ ks) = if leb k j then k ∷ j ∷ ks else j ∷ insert_sorted k ks

unfoldable pub sort_bases : List ℕ → List ℕ
sort_bases [] = []
sort_bases (k ∷ ks) = insert_sorted k (sort_bases ks)

abbrev pub bases : Disk → List ℕ
bases = map (λ e. e.0)

-- listSegments: the bases, ascending
unfoldable pub list_segments : Disk → List ℕ
unfolding insert_sorted sort_bases
list_segments d = sort_bases (bases d)
