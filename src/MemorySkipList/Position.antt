-- ===== src/MemorySkipList/Position.antt =====
-- The first half of `Insert` on a well-formed list: the key's place, or the node that has its rank.
use Prim.Native.Nat.{compare, Ordering}
use persist_tree_test.Base.{
  ℕ, zero, suc, ◌-◌, ◌<◌, ◌≡◌, refl, ◌∙◌, sym, ap, ◌⊎◌, inl, inr, arith, Option, some, none, List,
  [], ◌∷◌, ◌++◌, All, All-left, All-right, All-append, length, length-append, append_assoc, subst,
  ne→==_false, compare_cases, lt→ltb,
}
use persist_tree_test.Base.Outcome.{Outcome, ok, ◌>>=◌}
use persist_tree_test.CString.Rank.{IsKey, rank}
use persist_tree_test.Node.{Ptr, Heap, next}
use persist_tree_test.Towers.{
  Tower, last, last-append, From, Below, UpTo, Ascending, Ascending-UpTo,
}
use persist_tree_test.Towers.Chain.{Chain, stop, through, past, Chain-last}
use persist_tree_test.Towers.Reaches.{Reaches, Reaches-start, Reaches-append, last-Reaches}
use persist_tree_test.MemorySkipList.{
  SkipList, position, position_after, find_less_than, find_next_node, compare_key_and_node,
}
use persist_tree_test.MemorySkipList.Search.{
  Holds, compare_key_and_node-rank, compare_key_and_node-head,
}
use persist_tree_test.MemorySkipList.Search.Descend.{Start, Start-below, descend-Fingers}
use persist_tree_test.MemorySkipList.WellFormed.{
  IsSkipList, Placed, AtFinger, cut, snoc_cases, Ascending-right, Ascending-left, Below-of_UpTo,
  UpTo-of_Below, From-mono,
}

Start-at : (n : ℕ) {head x : Ptr} {ts : List Tower} → Reaches (n - 1) head x ts → Start n head x ts
Start-at zero re = tt
Start-at (suc i) {head} {x} {ts} re = subst (λ j. Reaches j head x ts) (omega arith) re

module _ (l : SkipList) (h : Heap) (key : List ℕ) (ik : IsKey l.key_size key) (ts us : List Tower)
    (fuel : ℕ) (enough : length (ts ++ us) < fuel) (w : IsSkipList l h ts us) where
  abbrev r : ℕ
  r = rank l.key_size key

  abbrev Found : Outcome (ℕ → Ptr) → Type 0
  Found run = (prev : ℕ → Ptr) × (run ≡ ok prev) × Placed l ts us r prev

  pub find_less_than-Placed : Found (find_less_than l key h fuel)
  unfolding find_less_than
  find_less_than-Placed =
      let (before, after, e, below, from) = cut l.key_size r (ts ++ us) w.ascending in
      let (prev, run, good, _) =
        descend-Fingers l h key ik before after (subst (All (Holds l.key_size h)) e w.holds) below
          from fuel (omega (arith, ap length e, length-append before after)) l.max_height l.head
          l.prev w.levels
          (λ i lt. subst (Chain h i l.head) e (w.chains i (omega (arith, w.levels))))
          (Start-below l.max_height (Reaches-start l.max_height l.head before)) in
      (
        prev,
        run,
        record {
          before = before;
          after = after;
          same = sym e;
          up_to = UpTo-of_Below _ r before below;
          from = from;
          fingers = good;
        },
      )

  pub find_next_node-Placed : Below l.key_size r ts → Found (find_next_node l key h fuel)
  unfolding find_next_node
  find_next_node-Placed first =
      let (more, after, e, below, from) =
        cut l.key_size r us (Ascending-right l.key_size ts us w.ascending) in
      let e' : ts ++ us ≡ (ts ++ more) ++ after =
        ap (◌++◌ ts) e ∙ sym (append_assoc ts more after) in
      let all_below : Below l.key_size r (ts ++ more) = All-append _ ts more first below in
      let (prev, run, good, _) =
        descend-Fingers l h key ik (ts ++ more) after (subst (All (Holds l.key_size h)) e' w.holds)
          all_below from fuel (omega (arith, ap length e', length-append (ts ++ more) after))
          l.max_height (l.prev (l.max_height - 1)) l.prev w.levels
          (λ i lt. subst (Chain h i l.head) e' (w.chains i (omega (arith, w.levels))))
          (Start-at l.max_height (
            subst (λ x. Reaches (l.max_height - 1) l.head x (ts ++ more))
              (sym (w.fingers (l.max_height - 1) (omega (arith, w.some_level))))
              (Reaches-append more (last-Reaches (l.max_height - 1) l.head ts)))) in
      (
        prev,
        rw (ne→==_false l.max_height 0 (omega (arith, w.some_level))) run,
        record {
          before = ts ++ more;
          after = after;
          same = sym e';
          up_to = UpTo-of_Below _ r (ts ++ more) all_below;
          from = from;
          fingers = good;
        },
      )

  abbrev Decided : Outcome (Option (ℕ → Ptr)) → Type 0
  Decided run =
      ((prev : ℕ → Ptr) × (run ≡ ok (some prev)) × Placed l ts us r prev)
      ⊎ ((run ≡ ok none) × AtFinger l.key_size r ts us)

  here_Placed : UpTo l.key_size r ts → From l.key_size r us → Placed l ts us r l.prev
  here_Placed up from = record {
    before = ts;
    after = us;
    same = refl;
    up_to = up;
    from = from;
    fingers = w.fingers;
  }

-- `position_after` is stated over the towers behind the finger, which are matched.
position_after-Decided :
    (l : SkipList) (h : Heap) (key : List ℕ) (ik : IsKey l.key_size key) (ts us : List Tower)
    (fuel : ℕ) (enough : length (ts ++ us) < fuel) (w : IsSkipList l h ts us)
    → Below l.key_size (rank l.key_size key) ts
    → Chain h 0 (l.prev 0) us
    → Decided l h key ik ts us fuel enough w
        (next (l.prev 0) 0 h >>= λ n. position_after l key h fuel n)
unfolding position_after
position_after-Decided l h key ik ts [] fuel enough w below (stop e) =
    rw e (
      inl
        (l.prev, refl, here_Placed l h key ik ts [] fuel enough w (UpTo-of_Below _ _ ts below) tt))
position_after-Decided l h key ik ts (t ∷ us) fuel enough w below (past le c) =
    absurd (omega (arith, (All-right _ ts (t ∷ us) w.tall).0))
position_after-Decided l h key ik ts (t ∷ us) fuel enough w below (through lt e c) =
    let r = rank l.key_size key in
    let holds : Holds l.key_size h t = (All-right _ ts (t ∷ us) w.holds).0 in
    let back : From l.key_size (rank l.key_size t.key) us =
      (Ascending-right l.key_size ts (t ∷ us) w.ascending).0 in
    rw (e, ne→==_false _ _ holds.stored.ne_null, compare_key_and_node-rank l h key ik t holds)
      (elim (compare_cases r (rank l.key_size t.key)) [
        | inl (c', less) ↦ rw c' (
            inl (
              l.prev,
              refl,
              here_Placed l h key ik ts (t ∷ us) fuel enough w (UpTo-of_Below _ r ts below)
                  (omega arith, From-mono _ _ r us back (omega arith)),
            ))
        | inr (inl (c', same)) ↦ rw c' (inr (refl, inr (t, us, refl, sym same)))
        | inr (inr (c', more)) ↦
            let (prev, run, placed) =
              find_next_node-Placed l h key ik ts (t ∷ us) fuel enough w below in
            rw (c', run) (inl (prev, refl, placed))
      ])

-- The last inserted node is the last tower of `ts`.
pub finger_last :
    (l : SkipList) (h : Heap) (ts us front : List Tower) (t : Tower)
    → IsSkipList l h ts us
    → ts ≡ front ++ (t ∷ [])
    → (0 < t.height)
      × (l.prev 0 ≡ t.ptr)
      × Holds l.key_size h t
      × UpTo l.key_size (rank l.key_size t.key) ts
finger_last l h ts us front t w e =
    let tall : 0 < t.height =
      (All-right _ front (t ∷ [])
        (subst (All (λ u. 0 < u.height)) e (All-left _ ts us w.tall))).0 in
    let up : UpTo l.key_size (rank l.key_size t.key) (front ++ (t ∷ [])) =
      All-append _ front (t ∷ [])
        (Ascending-UpTo l.key_size front t
          (subst (Ascending l.key_size) e (Ascending-left l.key_size ts us w.ascending)))
        (omega arith, tt) in
    (
      tall,
      w.fingers 0 w.some_level
          ∙ ap (last 0 l.head) e
          ∙ last-append 0 l.head front (t ∷ [])
          ∙ rw (lt→ltb _ _ tall) refl,
      (All-right _ front (t ∷ [])
          (subst (All (Holds l.key_size h)) e (All-left _ ts us w.holds))).0,
      subst (UpTo l.key_size (rank l.key_size t.key)) (sym e) up,
    )

-- The first half of `Insert` finds a place for the key, or sees that the last inserted node or the
-- one behind it has the key's rank.
pub position-Decided :
    (l : SkipList) (h : Heap) (key : List ℕ) (ik : IsKey l.key_size key) (ts us : List Tower)
    (fuel : ℕ) (enough : length (ts ++ us) < fuel) (w : IsSkipList l h ts us)
    → Decided l h key ik ts us fuel enough w (position l key h fuel)
unfolding position
position-Decided l h key ik ts us fuel enough w = elim (snoc_cases ts (All-left _ ts us w.tall)) [
  | inl none_yet ↦
      let cmp =
        subst (λ p. compare_key_and_node l key p h ≡ ok Ordering.gt)
          (sym (w.fingers 0 w.some_level ∙ ap (last 0 l.head) none_yet))
          (compare_key_and_node-head l h key ik l.k_max_height w.head_stored) in
      rw cmp (after (subst (Below l.key_size r) (sym none_yet) tt))
  | inr (front, t, e) ↦
      let (tall, at, holds, up) = finger_last l h ts us front t w e in
      let cmp =
        subst (λ p. compare_key_and_node l key p h ≡ ok (compare r (rank l.key_size t.key)))
          (sym at) (compare_key_and_node-rank l h key ik t holds) in
      elim (compare_cases r (rank l.key_size t.key)) [
        | inl (c, less) ↦
            let (prev, run, placed) = find_less_than-Placed l h key ik ts us fuel enough w in
            rw (cmp, c, run) (inl (prev, refl, placed))
        | inr (inl (c, same)) ↦ rw (cmp, c) (inr (refl, inl (front, t, e, sym same)))
        | inr (inr (c, more)) ↦
            rw (cmp, c) (after (Below-of_UpTo l.key_size (rank l.key_size t.key) r ts up more))
      ]
]
  where
    r : ℕ
    r = rank l.key_size key

    after :
        Below l.key_size r ts
        → Decided l h key ik ts us fuel enough w
            (next (l.prev 0) 0 h >>= λ n. position_after l key h fuel n)
    after below = position_after-Decided l h key ik ts us fuel enough w below (
        subst (λ p. Chain h 0 p us) (sym (w.fingers 0 w.some_level))
          (Chain-last ts us (w.chains 0 (omega (arith, w.some_level, w.levels)))))
