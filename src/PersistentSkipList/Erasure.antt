-- ===== src/PersistentSkipList/Erasure.antt =====
-- Without their counters, the searches of `Persistent_SkipList` are those of `Memory_SkipList`.
use Prim.Native.Nat.{Ordering, lt, eq, gt}
use persist_tree_test.Base.{
  ℕ, zero, suc, ◌+◌, ◌-◌, ◌<◌, ◌≡◌, refl, ◌∙◌, sym, ap, inl, inr, arith, Bool, true, false, Option,
  some, none, List, ◌==◌, if◌then◌else◌, ne→==_false, Bool-cases, ◌%◌, ◌^◌,
}
use persist_tree_test.Base.Outcome.{
  Outcome, ok, fault, out_of_fuel, ◌>>=◌, Outcome-cases, >>=-eq-ok, ok-injective,
}
use persist_tree_test.Node.{Ptr, null, Heap, next}
use persist_tree_test.MemorySkipList
use persist_tree_test.MemorySkipList.{SkipList, key_is_after_node, set_prev, compare_key_and_node}
use persist_tree_test.PersistentSkipList.{
  Counters, u64, suited, timed, walk, descend, add_time, find_less_than, find_next_node,
  position_after, position,
}

abbrev pub drop {ℓ κ} : {A : Type ℓ} {B : Type κ} → Outcome (A × B) → Outcome A
drop o = o >>= λ p. ok p.0

module _ (l : SkipList) (key : List ℕ) (h : Heap) where
  drop-walk :
      (fuel i : ℕ) (x : Ptr) (cnt : ℕ)
      → drop (walk l key h fuel i x cnt) ≡ MemorySkipList.walk l key h fuel i x
  unfolding walk MemorySkipList.walk
  drop-walk zero i x cnt = refl
  drop-walk (suc fuel) i x cnt = elim (Outcome-cases (next x i h)) [
    | inl (n, e) ↦
        rw e (elim (Outcome-cases (if n == null then ok false else key_is_after_node l key n h)) [
          | inl (b, e') ↦ rw e' (branch b _ _ (drop-walk fuel i n (cnt + 1)))
          | inr (inl e') ↦ rw e' refl
          | inr (inr e') ↦ rw e' refl
        ])
    | inr (inl e) ↦ rw e refl
    | inr (inr e) ↦ rw e refl
  ]
    where
      branch :
          (b : Bool) (o : Outcome (Ptr × ℕ)) (o' : Outcome Ptr)
          → drop o ≡ o'
          → drop (if b then o else ok (x, cnt)) ≡ (if b then o' else ok x)
      branch true o o' e = e
      branch false o o' e = refl

  drop-descend :
      (fuel n : ℕ) (x : Ptr) (prev : ℕ → Ptr) (cnt : ℕ)
      → drop (descend l key h fuel n x prev cnt) ≡ MemorySkipList.descend l key h fuel n x prev
  unfolding descend MemorySkipList.descend
  drop-descend fuel zero x prev cnt = refl
  drop-descend fuel (suc i) x prev cnt =
      rw (sym (drop-walk fuel i x cnt)) (elim (Outcome-cases (walk l key h fuel i x cnt)) [
        | inl ((x', cnt'), e) ↦ rw e (elim (Outcome-cases (set_prev l i x' prev)) [
          | inl (prev', e') ↦ rw e' (drop-descend fuel i x' prev' cnt')
          | inr (inl e') ↦ rw e' refl
          | inr (inr e') ↦ rw e' refl
        ])
        | inr (inl e) ↦ rw e refl
        | inr (inr e) ↦ rw e refl
      ])

-- `o` ends with this `prev_`, and the gigabyte has as many operations as before.
abbrev pub Finds : Outcome ((ℕ → Ptr) × Counters) → (ℕ → Ptr) → ℕ → Type 0
Finds o prev per = (c : Counters) × (o ≡ ok (prev, c)) × (c.per_1g_num ≡ per)

drop_inversion {ℓ κ} :
    {A : Type ℓ} {B : Type κ} (o : Outcome (A × B)) {a : A}
    → drop o ≡ ok a
    → (b : B) × (o ≡ ok (a, b))
drop_inversion (ok (a', b)) e = (b, cc)
drop_inversion fault e = cc
drop_inversion out_of_fuel e = cc

add_time-ok :
    (c : Counters) (cnt : ℕ)
    → 0 < c.per_1g_num
    → (c' : Counters) × (add_time c cnt ≡ ok c') × (c'.per_1g_num ≡ c.per_1g_num)
unfolding add_time
add_time-ok c cnt h = (
  record c {
    cnt_time = if (c.opt_1g_num % c.per_1g_num) == 0 then 0 else (c.cnt_time + cnt) % 2 ^ 64;
  },
  rw (ne→==_false c.per_1g_num 0 (omega arith)) refl,
  refl,
)

module _ (l : SkipList) (key : List ℕ) (h : Heap) (fuel : ℕ) (c : Counters)
    (some_ops : 0 < c.per_1g_num) where
  find_less_than-Finds :
      {prev : ℕ → Ptr}
      → MemorySkipList.find_less_than l key h fuel ≡ ok prev
      → Finds (find_less_than l c key h fuel) prev c.per_1g_num
  unfolding find_less_than MemorySkipList.find_less_than
  find_less_than-Finds e =
      let (cnt, run) =
        drop_inversion (descend l key h fuel l.max_height l.head l.prev 0)
          (drop-descend l key h fuel l.max_height l.head l.prev 0 ∙ e) in
      let (c', done, same) =
        add_time-ok (record c { all_cnt = u64 (c.all_cnt + 1); head_cnt = u64 (c.head_cnt + 1) })
          cnt some_ops in
      (c', rw (run, done) refl, same)

  find_next_node-Finds :
      {prev : ℕ → Ptr}
      → MemorySkipList.find_next_node l key h fuel ≡ ok prev
      → Finds (find_next_node l c key h fuel) prev c.per_1g_num
  unfolding find_next_node MemorySkipList.find_next_node
  find_next_node-Finds {prev} e = elim (Bool-cases (l.max_height == 0)) [
    | inl none_used ↦ absurd (faulty (rw none_used at e))
    | inr used ↦
        let x = l.prev (l.max_height - 1) in
        let (cnt, run) =
          drop_inversion (descend l key h fuel l.max_height x l.prev 0)
            (drop-descend l key h fuel l.max_height x l.prev 0 ∙ (rw used at e)) in
        let (c', done, same) =
          add_time-ok (record c { all_cnt = u64 (c.all_cnt + 1) }) cnt some_ops in
        (c', rw (used, run, done) refl, same)
  ]
    where
      faulty : ◌≡◌ {A = Outcome (ℕ → Ptr)} fault (ok prev) → ⊥
      faulty e = cc

-- The array after the first half of `Insert`: a key at the finger leaves it alone.
abbrev pub placed : Option (ℕ → Ptr) → (ℕ → Ptr) → ℕ → Ptr
placed none prev = prev
placed (some prev') prev = prev'

module _ (l : SkipList) (key : List ℕ) (h : Heap) (fuel : ℕ) where
  position_after-Finds :
      (c : Counters) (n : Ptr) (place : Option (ℕ → Ptr))
      → 0 < c.per_1g_num
      → MemorySkipList.position_after l key h fuel n ≡ ok place
      → Finds (position_after l c key h fuel n) (placed place l.prev) c.per_1g_num
  unfolding position_after MemorySkipList.position_after
  position_after-Finds c n place pos e = elim (Bool-cases (n == null)) [
    | inl last ↦ rw last (done (timed (suited c)) refl (some l.prev) (rw last at e) refl)
    | inr more ↦
        let (res, compared, e') = >>=-eq-ok (compare_key_and_node l key n h) _ (rw more at e) in
        rw (more, compared) (by_order res e')
  ]
    where
      done :
          (c' : Counters)
          → c'.per_1g_num ≡ c.per_1g_num
          → (place' : Option (ℕ → Ptr)) → ok place' ≡ ok place
          → placed place' l.prev ≡ l.prev
          → Finds (ok (l.prev, c')) (placed place l.prev) c.per_1g_num
      done c' same place' e'' keeps = (
        c',
        ap (λ p. ok (p, c')) (sym keeps ∙ ap (λ p. placed p l.prev) (ok-injective _ _ e'')),
        same,
      )

      by_order :
          (res : Ordering)
          → elim res [
            | lt ↦ ok (some l.prev)
            | gt ↦ (MemorySkipList.find_next_node l key h fuel >>= λ prev. ok (some prev))
            | eq ↦ ok none
          ]
            ≡ ok place
          → Finds
              (elim res [
                | lt ↦ ok (l.prev, timed (suited c))
                | gt ↦ (find_next_node l c key h fuel >>= λ (prev, c'). ok (prev, timed c'))
                | eq ↦ ok (l.prev, timed c)
              ])
              (placed place l.prev)
              c.per_1g_num
      by_order lt e' = done (timed (suited c)) refl (some l.prev) e' refl
      by_order eq e' = done (timed c) refl none e' refl
      by_order gt e' =
          let (prev, run, e'') = >>=-eq-ok (MemorySkipList.find_next_node l key h fuel) _ e' in
          let (c', run', same) = find_next_node-Finds l key h fuel c pos run in
          (
            timed c',
            rw run' (ap (λ p. ok (placed p l.prev, timed c')) (ok-injective (some prev) place e'')),
            same,
          )

  -- The first half of `Insert` succeeds where that in DRAM does, with the same `prev_`; where that
  -- in DRAM finds the key at the finger, `prev_` stays.
  pub position-Finds :
      (c : Counters) (place : Option (ℕ → Ptr))
      → 0 < c.per_1g_num
      → MemorySkipList.position l key h fuel ≡ ok place
      → Finds (position l c key h fuel) (placed place l.prev) c.per_1g_num
  unfolding position MemorySkipList.position
  position-Finds c place pos e =
      let (res, compared, e') = >>=-eq-ok (compare_key_and_node l key (l.prev 0) h) _ e in
      rw compared (by_order res e')
    where
      counted : Counters
      counted = record c { opt_1g_num = u64 (c.opt_1g_num + 1) }

      by_order :
          (res : Ordering)
          → elim res [
            | gt ↦ (next (l.prev 0) 0 h >>= λ n. MemorySkipList.position_after l key h fuel n)
            | lt ↦ (MemorySkipList.find_less_than l key h fuel >>= λ prev. ok (some prev))
            | eq ↦ ok none
          ]
            ≡ ok place
          → Finds
              (elim res [
                | gt ↦ (next (l.prev 0) 0 h >>= λ n. position_after l counted key h fuel n)
                | lt ↦ find_less_than l counted key h fuel
                | eq ↦ ok (l.prev, counted)
              ])
              (placed place l.prev)
              c.per_1g_num
      by_order gt e' =
          let (n, reads, e'') = >>=-eq-ok (next (l.prev 0) 0 h) _ e' in
          rw reads (position_after-Finds counted n place pos e'')
      by_order lt e' =
          let (prev, run, e'') = >>=-eq-ok (MemorySkipList.find_less_than l key h fuel) _ e' in
          let (c', run', same) = find_less_than-Finds l key h fuel counted pos run in
          (c', run' ∙ ap (λ p. ok (placed p l.prev, c')) (ok-injective (some prev) place e''), same)
      by_order eq e' =
          (counted, ap (λ p. ok (placed p l.prev, counted)) (ok-injective none place e'), refl)
