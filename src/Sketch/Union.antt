-- ===== src/Sketch/Union.antt =====
-- Add and Merge of internal/eventstore/hll.go.
use leser.Prelude.{ℕ, zero, suc, ◌≡◌, refl, sym, ap, ◌∙◌, List, [], ◌∷◌, ◌++◌, arith, length}
use leser.Prelude.Bytes.{Bytes}
use leser.Sketch.{Registers, raise, raise_at, zeros, new_hll, add, add_all, merge, register_count}

length-raise_at : (i rank : ℕ) (regs : Registers) → length (raise_at i rank regs) ≡ length regs
unfolding raise_at
length-raise_at i rank [] = refl
length-raise_at zero rank (v ∷ regs) = refl
length-raise_at (suc i) rank (v ∷ regs) = ap suc (length-raise_at i rank regs)

merge-raise_at :
    (i rank : ℕ) (regs others : Registers)
    → length regs ≡ length others
    → merge regs (raise_at i rank others) ≡ raise_at i rank (merge regs others)
unfolding merge raise_at
merge-raise_at i rank [] others h = refl
merge-raise_at i rank (v ∷ regs) [] h = absurd (omega arith)
merge-raise_at zero rank (v ∷ regs) (w ∷ others) h = ap (λ n. n ∷ merge regs others) (ground arith)
merge-raise_at (suc i) rank (v ∷ regs) (w ∷ others) h =
    ap (λ x. raise v w ∷ x) (merge-raise_at i rank regs others (omega arith))

length-add : (s : Bytes) (regs : Registers) → length (add s regs) ≡ length regs
unfolding add
length-add s regs = length-raise_at _ _ regs

length-add_all :
    (values : List Bytes) (regs : Registers) → length (add_all values regs) ≡ length regs
unfolding add_all
length-add_all [] regs = refl
length-add_all (s ∷ values) regs = length-add_all values (add s regs) ∙ length-add s regs

merge-add_all :
    (values : List Bytes) (regs others : Registers)
    → length regs ≡ length others
    → merge regs (add_all values others) ≡ add_all values (merge regs others)
unfolding add_all
merge-add_all [] regs others h = refl
merge-add_all (s ∷ values) regs others h =
    merge-add_all values regs (add s others) (h ∙ sym (length-add s others))
    ∙ ap (add_all values) (unfold add in merge-raise_at _ _ regs others h)

merge-zeros : (regs : Registers) (n : ℕ) → merge regs (zeros n) ≡ regs
unfolding merge zeros
merge-zeros [] n = refl
merge-zeros (v ∷ regs) zero = refl
merge-zeros (v ∷ regs) (suc n) = ground (arith, merge-zeros regs n)

merge-new_hll : (regs : Registers) → merge regs new_hll ≡ regs
unfolding new_hll
merge-new_hll regs = merge-zeros regs register_count

pub add_all-append :
    (xs ys : List Bytes) (regs : Registers) → add_all (xs ++ ys) regs ≡ add_all ys (add_all xs regs)
unfolding add_all
add_all-append [] ys regs = refl
add_all-append (s ∷ xs) ys regs = add_all-append xs ys (add s regs)

-- The union of the sketches of two sequences of values is the sketch of all their values.
pub merge_lem :
    (xs ys : List Bytes)
    → merge (add_all xs new_hll) (add_all ys new_hll) ≡ add_all (xs ++ ys) new_hll
merge_lem xs ys =
    merge-add_all ys (add_all xs new_hll) new_hll (length-add_all xs new_hll)
    ∙ ap (add_all ys) (merge-new_hll (add_all xs new_hll))
    ∙ sym (add_all-append xs ys new_hll)

raise_at-commutes :
    (i j r q : ℕ) (regs : Registers)
    → raise_at i r (raise_at j q regs) ≡ raise_at j q (raise_at i r regs)
unfolding raise_at
raise_at-commutes i j r q [] = refl
raise_at-commutes zero zero r q (v ∷ regs) = ap (λ n. n ∷ regs) (ground arith)
raise_at-commutes zero (suc j) r q (v ∷ regs) = refl
raise_at-commutes (suc i) zero r q (v ∷ regs) = refl
raise_at-commutes (suc i) (suc j) r q (v ∷ regs) = ap (λ x. v ∷ x) (raise_at-commutes i j r q regs)

raise_at-twice : (i r : ℕ) (regs : Registers) → raise_at i r (raise_at i r regs) ≡ raise_at i r regs
unfolding raise_at
raise_at-twice i r [] = refl
raise_at-twice zero r (v ∷ regs) = ap (λ n. n ∷ regs) (ground arith)
raise_at-twice (suc i) r (v ∷ regs) = ap (λ x. v ∷ x) (raise_at-twice i r regs)

-- The order of two additions does not matter, and to add a value again changes nothing.
pub add_lem :
    (s t : Bytes) (regs : Registers)
    → (add s (add t regs) ≡ add t (add s regs)) × (add s (add s regs) ≡ add s regs)
unfolding add
add_lem s t regs = (raise_at-commutes _ _ _ _ regs, raise_at-twice _ _ regs)
