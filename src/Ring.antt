-- ===== src/Ring.antt =====
-- internal/cluster/ring.go: the consistent-hash ring. Texts are their bytes. sort.Slice is a parameter, as it
-- does not say in what order it leaves entries of equal hash; a map's keys come in no order, and are
-- sorted before they are used.
use Prim.Native.Nat.{bit_xor}
use leser.Prelude.{
  ℕ, zero, suc, ◌+◌, ◌*◌, ◌/◌, ◌%◌, ◌^◌, Bool, true, false, not, Option, none, some, List, [], ◌∷◌,
  ◌++◌, any, length, get_elem?, ltb, leb, ◌==◌, if◌then◌else◌,
}
use leser.Prelude.Bytes.{Bytes, bytes_eq}
use leser.Prelude.Search.{search, elem_test}
use leser.Prelude.Sorting.{sort_by}
use leser.Prelude.Texts.{itoa, text_le}
pub mod Nodes
pub mod Sorts
pub mod Owners
mod Tests

pub record RingEntry : Type 0 where
  pub hash : ℕ
  pub node : Bytes

pub record Ring : Type 0 where
  pub entries : List RingEntry
  pub nodes : List Bytes

abbrev pub vnodes_per_node : ℕ
vnodes_per_node = 100

-- hash/fnv's 32-bit FNV-1a
fnv_from : ℕ → Bytes → ℕ
fnv_from h [] = h
fnv_from h (b ∷ bs) = fnv_from (bit_xor h b * 16777619 % 2 ^ 32) bs

unfoldable pub fnv32a : Bytes → ℕ
unfolding fnv_from
fnv32a s = fnv_from 2166136261 s

-- x ^= x >> n
abbrev pub xor_shift : ℕ → ℕ → ℕ
xor_shift n x = bit_xor x (x / 2 ^ n)

unfoldable pub finalize : ℕ → ℕ
finalize x =
    xor_shift 16 (xor_shift 13 (xor_shift 16 x * 0x85eb_ca6b % 2 ^ 32) * 0xc2b2_ae35 % 2 ^ 32)

unfoldable pub hash_key : Bytes → ℕ
unfolding fnv32a finalize
hash_key s = finalize (fnv32a s)

-- The virtual node v, which is below 100
unfoldable pub vnode : Bytes → ℕ → RingEntry
unfolding hash_key itoa
vnode id v = record { hash = hash_key (id ++ b'#' ∷ itoa 2 v); node = id }

-- The inner loop of SetNodes, for `count` virtual nodes from v on
unfoldable pub vnodes : ℕ → ℕ → Bytes → List RingEntry
vnodes zero v id = []
vnodes (suc count) v id = vnode id v ∷ vnodes count (v + 1) id

unfoldable pub all_vnodes : List Bytes → List RingEntry
all_vnodes [] = []
all_vnodes (id ∷ ids) = vnodes vnodes_per_node 0 id ++ all_vnodes ids

-- uniq: the keys of the map
unfoldable pub uniq : List Bytes → List Bytes
uniq [] = []
uniq (id ∷ ids) = let rest = uniq ids in if any (bytes_eq id) ids then rest else id ∷ rest

abbrev pub hash_le : RingEntry → RingEntry → Bool
hash_le e f = leb e.hash f.hash

-- `sort` is sort.Slice by the entries' hashes.
unfoldable pub set_nodes : (List RingEntry → List RingEntry) → List Bytes → Ring
set_nodes sort ids = record {
  entries = sort (all_vnodes (sort_by text_le (uniq ids)));
  nodes = uniq ids;
}

-- The index that OwnerFor takes: past the end, it wraps around.
abbrev pub owner_index : ℕ → List RingEntry → ℕ
owner_index h entries =
    let i = search (length entries) (elem_test (λ e. leb h e.hash) entries) in
    if i == length entries then 0 else i

unfoldable pub owner_for : Bytes → Ring → Option Bytes
owner_for key r =
    if length r.entries == 0
    then none
    else elim (get_elem? r.entries (owner_index (hash_key key) r.entries)) [
      | none ↦ none
      | some e ↦ some e.node
    ]
