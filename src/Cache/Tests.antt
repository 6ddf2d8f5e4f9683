-- ===== src/Cache/Tests.antt =====
-- Runs of internal/cache on small inputs, and its theorems at inputs that meet their hypotheses.
use leser.Prelude.{ℕ, ◌≡◌, refl, none, some, [], ◌∷◌, List, arith}
use leser.Cache.{
  Lru, Op, new, get, set, delete, run, do_get, do_set, find, without, remove_element, expired,
  evict, push_front, put,
}
use leser.Cache.Items.{Distinct, size}
use leser.Cache.Eviction.{Bounded}
use leser.Cache.Calls

abbrev calls : List (Op ℕ)
calls = do_set 1 "a" 10 3 ∷ do_set 2 "b" 20 0 ∷ do_get 3 "a" ∷ do_set 4 "c" 30 4 ∷ []

abbrev full : Lru ℕ
full = record {
  max_bytes = 7;
  cur_bytes = 7;
  ttl = 5;
  hits = 1;
  misses = 0;
  items =
      record { key = "c"; val = 30; bytes = 4; expires = 9 }
      ∷ record { key = "a"; val = 10; bytes = 3; expires = 6 }
      ∷ [];
}

program : Unit {0}
unfolding new get set delete run find without remove_element expired evict push_front put
program = tt

-- "a" was used last, so "b" is evicted for "c".
evicts : run calls (new 7 5) ≡ full
unfolding program
evicts = refl

expires : (get 7 "a" full).0 ≡ none
unfolding program
expires = refl

full-Bounded : Bounded full
unfolding Distinct size find
full-Bounded = record {
  ok = record { distinct = (refl, (refl, tt)); counted = refl };
  bound = omega arith;
}

run-new-Bounded_example : Bounded (run calls (new 7 5))
run-new-Bounded_example = Calls.run-new-Bounded 7 5 calls

get-set_example : (get 8 "d" (set 6 "d" 40 5 full)).0 ≡ some 40
get-set_example = Calls.get-set 6 8 "d" 40 5 full full-Bounded (omega arith) (omega arith)
