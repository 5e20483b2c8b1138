-- ===== src/MemorySkipList/Equal.antt =====
-- `Insert` of a key that the last inserted node, or the node behind it, already has; and the whole
-- of `Insert` from both halves.
use Prim.Native.Nat.{compare, Ordering}
use persist_tree_test.Base.{
  ℕ, ◌<◌, ◌≤◌, ◌≡◌, ◌≢◌, refl, ◌∙◌, sym, ap, ◌⊎◌, inl, inr, arith, some, none, List, [], ◌∷◌, ◌++◌,
  All, All-left, All-right, subst, update, length, compare_cases, ne→==_false,
}
use persist_tree_test.Base.Outcome.{ok, fault, ◌>>=◌}
use persist_tree_test.CString.Rank.{IsKey, rank}
use persist_tree_test.Node.{Ptr, null, Heap, next, load, raw}
use persist_tree_test.Towers.{Tower, last, Ascending}
use persist_tree_test.Towers.Chain.{Chain, through, past, Chain-last}
use persist_tree_test.MemorySkipList.{
  SkipList, State, insert, overwrite_node, position, position_after, compare_key_and_node,
}
use persist_tree_test.MemorySkipList.Search.{
  Holds, compare_key_and_node-rank, compare_key_and_node-head,
}
use persist_tree_test.MemorySkipList.WellFormed.{IsSkipList, IsLinked, AtFinger, snoc_cases}
use persist_tree_test.MemorySkipList.Position.{position-Decided, finger_last}
use persist_tree_test.MemorySkipList.Insert.{InsertedAt, insert_node-IsSkipList}

-- A key that is not at the finger gets a node of its own, between the towers before and behind it.
pub insert-InsertedAt :
    (s : State) (fuel : ℕ) (fresh : Ptr) (key : List ℕ) (ts us : List Tower)
    → IsSkipList s.list s.heap ts us
    → IsKey s.list.key_size key
    → length (ts ++ us) < fuel
    → fresh ≢ null
    → s.heap fresh ≡ none
    → ((s' : State) × (insert s fuel fresh key ≡ ok s') × InsertedAt s s' fresh key ts us)
      ⊎ ((insert s fuel fresh key ≡ overwrite_node s key)
          × AtFinger s.list.key_size (rank s.list.key_size key) ts us)
unfolding insert
insert-InsertedAt s fuel fresh key ts us w ik enough ne unused =
    elim (position-Decided s.list s.heap key ik ts us fuel enough w) [
      | inl (prev, run, p) ↦
          let (s', run', result, size, head, max, untouched) =
            insert_node-IsSkipList s fresh key ik ne unused p.before p.after
              (subst (IsLinked s.list s.heap) (sym p.same) w.linked) p.up_to p.from prev
              p.fingers in
          inl (
            s',
            rw (run, run') refl,
            record {
              before = p.before;
              after = p.after;
              height = _;
              same = p.same;
              same_size = size;
              same_head = head;
              same_max = max;
              untouched = untouched;
              result = result;
            },
          )
      | inr (run, at) ↦ inr (rw run refl, at)
    ]

Ascending-last-first :
    (n : ℕ) (front back : List Tower) (t u : Tower)
    → Ascending n ((front ++ (t ∷ [])) ++ (u ∷ back))
    → rank n t.key ≤ rank n u.key
Ascending-last-first n [] back t u a = a.0.0
Ascending-last-first n (v ∷ front) back t u a = Ascending-last-first n front back t u a.1

module _ (l : SkipList) (h : Heap) (key : List ℕ) (ik : IsKey l.key_size key) (fuel : ℕ) where
  abbrev r : ℕ
  r = rank l.key_size key

  -- The key meets the first node behind the finger.
  position_after-equal :
      (ts back : List Tower) (t : Tower)
      → Holds l.key_size h t
      → 0 < t.height
      → rank l.key_size t.key ≡ r
      → Chain h 0 (l.prev 0) (t ∷ back)
      → (next (l.prev 0) 0 h >>= λ n. position_after l key h fuel n) ≡ ok none
  unfolding position_after
  position_after-equal ts back t holds tall e (through lt reads c) =
      rw
        (
          reads,
          ne→==_false _ _ holds.stored.ne_null,
          compare_key_and_node-rank l h key ik t holds,
          e,
        )
        (ground arith)
  position_after-equal ts back t holds tall e (past le c) = absurd (omega arith)

  pub position-AtFinger :
      (ts us : List Tower)
      → IsSkipList l h ts us
      → AtFinger l.key_size r ts us
      → position l key h fuel ≡ ok none
  unfolding position
  position-AtFinger ts us w (inl (front, t, e, same)) =
      let (_, at, holds, _) = finger_last l h ts us front t w e in
      rw (at, compare_key_and_node-rank l h key ik t holds, same) (ground arith)
  position-AtFinger ts us w (inr (t, back, e, same)) =
      elim (snoc_cases ts (All-left _ ts us w.tall)) [
        | inl none_yet ↦
            let cmp =
              subst (λ p. compare_key_and_node l key p h ≡ ok Ordering.gt)
                (sym (w.fingers 0 w.some_level ∙ ap (last 0 l.head) none_yet))
                (compare_key_and_node-head l h key ik l.k_max_height w.head_stored) in
            rw cmp after
        | inr (front, u, e') ↦
            let (_, at, holds, _) = finger_last l h ts us front u w e' in
            let cmp =
              subst (λ p. compare_key_and_node l key p h ≡ ok (compare r (rank l.key_size u.key)))
                (sym at) (compare_key_and_node-rank l h key ik u holds) in
            let le : rank l.key_size u.key ≤ rank l.key_size t.key =
              Ascending-last-first l.key_size front back u t (
                subst (λ xs. Ascending l.key_size (xs ++ (t ∷ back))) e'
                  (subst (λ ys. Ascending l.key_size (ts ++ ys)) e w.ascending)) in
            elim (compare_cases r (rank l.key_size u.key)) [
              | inl (c, less) ↦ absurd (omega arith)
              | inr (inl (c, _)) ↦ rw (cmp, c) refl
              | inr (inr (c, more)) ↦ rw (cmp, c) after
            ]
      ]
    where
      in_us : (P : Tower → Type 0) → All P (ts ++ us) → All P (t ∷ back)
      in_us P a = subst (All P) e (All-right P ts us a)

      after : (next (l.prev 0) 0 h >>= λ n. position_after l key h fuel n) ≡ ok none
      after =
          position_after-equal ts back t (in_us (Holds l.key_size h) w.holds).0
            (in_us (λ u. 0 < u.height) w.tall).0 same
            (subst (Chain h 0 (l.prev 0)) e (
              subst (λ p. Chain h 0 p us) (sym (w.fingers 0 w.some_level))
                (Chain-last ts us (w.chains 0 (omega (arith, w.some_level, w.levels))))))

load-raw :
    (p : Ptr) (h : Heap) (bytes : List ℕ) (size : ℕ)
    → h p ≡ some (raw bytes size)
    → load p h ≡ fault
unfolding load
load-raw p h bytes size e = ground arith

insert_raw-fault :
    (s : State) (fuel : ℕ) (fresh : Ptr) (key bytes : List ℕ) (size : ℕ)
    → s.heap (s.list.prev 0) ≡ some (raw bytes size)
    → insert s fuel fresh key ≡ fault
unfolding insert position compare_key_and_node
insert_raw-fault s fuel fresh key bytes size e =
    rw (load-raw (s.list.prev 0) s.heap bytes size e) refl

-- The branch `is_same_node` destroys the node behind `prev_[0]`: if that call of `Insert` does not
-- already write past the end of the node, the next call reads the overwritten struct.
pub insert_equal-fault :
    (s : State) (fuel : ℕ) (fresh : Ptr) (key : List ℕ) (ts us : List Tower)
    → IsSkipList s.list s.heap ts us
    → IsKey s.list.key_size key
    → AtFinger s.list.key_size (rank s.list.key_size key) ts us
    → (fuel' : ℕ) (fresh' : Ptr) (key' : List ℕ)
    → (insert s fuel fresh key >>= λ s'. insert s' fuel' fresh' key') ≡ fault
unfolding insert overwrite_node load
insert_equal-fault s fuel fresh key ts us w ik at fuel' fresh' key' =
    rw (position-AtFinger s.list s.heap key ik fuel ts us w at) (
      ground (
        arith,
        insert_raw-fault
            (record s { heap = update s.heap (s.list.prev 0) (some (raw key (length key))) }) fuel'
            fresh' key' key (length key),
      ))
