-- ===== src/Eventstore/Flush/Partitions.antt =====
-- The partitions that Flush of internal/eventstore/store.go makes of the buffer's rows.
use mathlib.Core.List.{Permᴰ}
use mathlib.Core.List.Permᴰ as PermD
use leser.Prelude.{
  ◌≡◌, refl, ◌&&◌, ◌==◌, List, [], ◌∷◌, ◌++◌, append_assoc, All, All-append, Bool-cases, inl, inr,
  arith,
}
use leser.Prelude.Permutations.{gather, Permᴰ-of_eq}
use leser.Eventstore.{Event}
use leser.Eventstore.Flush.{Partition, hour_of, add_to, partitions}

-- The rows of all partitions
abbrev pub rows_of : List Partition → List Event
rows_of parts = gather (λ p. p.events) parts

abbrev pub InPartition : Partition → Event → Type 0
InPartition p e = (e.project_id ≡ p.proj) × (hour_of e ≡ p.hour)

add_to-Permᴰ :
    (e : Event) (parts : List Partition) → Permᴰ (rows_of (add_to e parts)) (e ∷ rows_of parts)
unfolding add_to gather
add_to-Permᴰ e [] = PermD.refl (e ∷ [])
add_to-Permᴰ e (p ∷ parts) = elim (Bool-cases ((p.proj == e.project_id) && (p.hour == hour_of e))) [
  | inl yes' ↦ rw yes' (
      Permᴰ.trans (Permᴰ-of_eq (append_assoc p.events (e ∷ []) (rows_of parts)))
        (PermD.middle e p.events (rows_of parts)))
  | inr no' ↦ rw no' (
      Permᴰ.trans (PermD.append_left p.events (add_to-Permᴰ e parts))
        (PermD.middle e p.events (rows_of parts)))
]

-- Every row is in a partition, once.
pub partitions-Permᴰ :
    (parts : List Partition) (rows : List Event)
    → Permᴰ (rows_of (partitions parts rows)) (rows_of parts ++ rows)
unfolding partitions
partitions-Permᴰ parts [] = PermD.symm (PermD.append-nil (rows_of parts))
partitions-Permᴰ parts (e ∷ rows) = Permᴰ.trans (partitions-Permᴰ (add_to e parts) rows) (
    Permᴰ.trans (PermD.append_right rows (add_to-Permᴰ e parts))
      (PermD.symm (PermD.middle e (rows_of parts) rows)))

pub record PartitionOk (p : Partition) : Type 0 where
  pub rows : All (InPartition p) p.events

add_to-Ok :
    (e : Event) (parts : List Partition) → All PartitionOk parts → All PartitionOk (add_to e parts)
unfolding add_to
add_to-Ok e [] h = (record { rows = ((refl, refl), tt) }, tt)
add_to-Ok e (p ∷ parts) h = elim (Bool-cases ((p.proj == e.project_id) && (p.hour == hour_of e))) [
  | inl yes' ↦
      let own : InPartition p e = ground arith in
      rw yes'
        (record { rows = All-append (InPartition p) p.events (e ∷ []) h.0.rows (own, tt) }, h.1)
  | inr no' ↦ rw no' (h.0, add_to-Ok e parts h.1)
]

pub partitions-Ok :
    (parts : List Partition) (rows : List Event)
    → All PartitionOk parts
    → All PartitionOk (partitions parts rows)
unfolding partitions
partitions-Ok parts [] h = h
partitions-Ok parts (e ∷ rows) h = partitions-Ok (add_to e parts) rows (add_to-Ok e parts h)
