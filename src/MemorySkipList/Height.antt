-- ===== src/MemorySkipList/Height.antt =====
-- `RandomHeight`, and the levels that a higher node opens.
use persist_tree_test.Base.{ℕ, zero, suc, ◌+◌, ◌-◌, ◌<◌, ◌≤◌, ◌≡◌, refl, ◌⊎◌, arith, lt→ltb, update}
use persist_tree_test.Base.Outcome.{ok}
use persist_tree_test.Node.{Ptr}
use persist_tree_test.Random
use persist_tree_test.MemorySkipList.{SkipList, random_height_loop, random_height, raise, set_prev}

random_height_loop_bounds :
    (scaled rounds height seed : ℕ)
    → (height ≤ (random_height_loop scaled rounds height seed).0)
      × ((random_height_loop scaled rounds height seed).0 ≤ height + rounds)
unfolding random_height_loop
random_height_loop_bounds scaled zero height seed = omega arith
random_height_loop_bounds scaled (suc rounds) height seed =
    ground (arith, random_height_loop_bounds scaled rounds (height + 1) (Random.next seed).1)

-- The height of a new node is at least 1 and at most `kMaxHeight_`.
pub random_height_bounds :
    (l : SkipList) (seed : ℕ)
    → 0 < l.k_max_height
    → (1 ≤ (random_height l seed).0) × ((random_height l seed).0 ≤ l.k_max_height)
unfolding random_height
random_height_bounds l seed h =
    let b = random_height_loop_bounds l.k_scaled_inverse_branching (l.k_max_height - 1) 1 seed in
    (b.0, omega arith)

-- Levels `i` up to `i + count` of `prev_` point at the head, the others are as they were.
pub raise_lem :
    (l : SkipList) (count i : ℕ) (prev : ℕ → Ptr)
    → (count ≡ 0) ⊎ (i + count ≤ l.k_max_height)
    → (prev' : ℕ → Ptr) × (raise l count i prev ≡ ok prev')
      × ((j : ℕ) → i ≤ j → j < i + count → prev' j ≡ l.head)
      × ((j : ℕ) → (j < i) ⊎ (i + count ≤ j) → prev' j ≡ prev j)
unfolding raise set_prev
raise_lem l zero i prev le = (prev, refl, λ j a b. absurd (omega arith), λ j o. refl)
raise_lem l (suc count) i prev le =
    let (prev', run, new, old) = raise_lem l count (i + 1) (update prev i l.head) (omega arith) in
    (
      prev',
      rw (lt→ltb i l.k_max_height (omega arith)) run,
      λ j a b. ground (arith, new j, old j),
      λ j o. ground (arith, old j),
    )
