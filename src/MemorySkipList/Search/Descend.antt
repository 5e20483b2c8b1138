-- ===== src/MemorySkipList/Search/Descend.antt =====
-- The descent through the levels: both searches leave in `prev` the last node below the key.
use persist_tree_test.Base.{
  ℕ, zero, suc, ◌<◌, ◌≤◌, ◌≡◌, refl, ◌∙◌, sym, ap, arith, List, ◌++◌, All, All-right, lt→ltb,
  length, length-append, update, append_assoc, subst,
}
use persist_tree_test.Base.Outcome.{ok}
use persist_tree_test.CString.Rank.{IsKey, rank}
use persist_tree_test.Node.{Ptr, Heap}
use persist_tree_test.Towers.{Tower, last, last-append, From, Below}
use persist_tree_test.Towers.Chain.{Chain, Chain-last}
use persist_tree_test.Towers.Reaches.{Reaches, last-Reaches}
use persist_tree_test.MemorySkipList.{SkipList, walk, descend, set_prev}
use persist_tree_test.MemorySkipList.Search.{Holds, walk-last}

-- The levels below `n` of `prev` hold the last nodes of the towers `ts`.
abbrev pub Fingers : Ptr → List Tower → ℕ → (ℕ → Ptr) → Type 0
Fingers head ts n prev = (i : ℕ) → i < n → prev i ≡ last i head ts

-- Where a descent through `n` levels may start.
abbrev pub Start : ℕ → Ptr → Ptr → List Tower → Type 0
Start zero head x ts = Unit
Start (suc i) head x ts = Reaches i head x ts

pub Start-below : (n : ℕ) {head x : Ptr} {ts : List Tower} → Reaches n head x ts → Start n head x ts
Start-below zero re = tt
Start-below (suc i) re = record {
  front = re.front;
  back = re.back;
  split = re.split;
  ends = λ j le. re.ends j (omega arith);
}

module _ (l : SkipList) (h : Heap) (key : List ℕ) (ik : IsKey l.key_size key) (ts us : List Tower)
    (holds : All (Holds l.key_size h) (ts ++ us))
    (below : Below l.key_size (rank l.key_size key) ts)
    (from : From l.key_size (rank l.key_size key) us) (fuel : ℕ) (enough : length ts < fuel) where
  walk-Reaches :
      (i : ℕ) {x : Ptr}
      → Chain h i l.head (ts ++ us)
      → Reaches i l.head x ts
      → walk l key h fuel i x ≡ ok (last i l.head ts)
  walk-Reaches i {x} c re =
      walk-last l h key ik fuel i re.back us
        (omega (arith, length-append re.front re.back, ap length re.split))
        (subst (λ y. Chain h i y (re.back ++ us)) (re.ends i (omega arith))
          (Chain-last re.front (re.back ++ us) (
            subst (Chain h i l.head) (ap (λ y. y ++ us) re.split ∙ append_assoc re.front re.back us)
              c)))
        (All-right _ re.front (re.back ++ us) (
          subst (All (Holds l.key_size h))
            (ap (λ y. y ++ us) re.split ∙ append_assoc re.front re.back us) holds))
        (All-right _ re.front re.back
          (subst (Below l.key_size (rank l.key_size key)) re.split below))
        from
      ∙ ap ok (
          ap (λ y. last i y re.back) (sym (re.ends i (omega arith)))
          ∙ sym (last-append i l.head re.front re.back)
          ∙ ap (last i l.head) (sym re.split))

  pub descend-Fingers :
      (n : ℕ) (x : Ptr) (prev : ℕ → Ptr)
      → n ≤ l.k_max_height
      → ((i : ℕ) → i < n → Chain h i l.head (ts ++ us))
      → Start n l.head x ts
      → (prev' : ℕ → Ptr) × (descend l key h fuel n x prev ≡ ok prev')
        × Fingers l.head ts n prev'
        × ((i : ℕ) → n ≤ i → prev' i ≡ prev i)
  unfolding descend set_prev
  descend-Fingers zero x prev le c re = (prev, refl, λ i lt. absurd (omega arith), λ i le'. refl)
  descend-Fingers (suc n) x prev le c re =
      let x' = last n l.head ts in
      let (prev', run, good, same) =
        descend-Fingers n x' (update prev n x') (omega arith) (λ i lt. c i (omega arith))
          (Start-below n (last-Reaches n l.head ts)) in
      (
        prev',
        rw (walk-Reaches n (c n (omega arith)) re, lt→ltb _ _ le) run,
        λ i lt. ground (arith, good i, same i),
        λ i le'. ground (arith, same i),
      )
