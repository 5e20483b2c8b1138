-- ===== src/MemorySkipList/Search.antt =====
-- `FindLessThan` and `FindNextNode` on a well-formed list: where they stop at each level.
pub mod Descend
use Prim.Native.Nat.{compare, Ordering}
use persist_tree_test.Base.{
  ℕ, zero, suc, ◌+◌, ◌<◌, ◌≤◌, ◌≡◌, ◌≢◌, refl, ◌∙◌, sym, ap, ◌⊎◌, inl, inr, arith, Bool, true,
  false, List, [], ◌∷◌, ◌++◌, ltb, if◌then◌else◌, All, lt→ltb, le→ltb_false, ==-refl, ne→==_false,
  length, update, append_assoc,
}
use persist_tree_test.Base.Outcome.{ok}
use persist_tree_test.CString.Rank.{IsKey, rank, strncmp-rank, strncmp-rank_swap, strncmp-space}
use persist_tree_test.Node.{Ptr, null, Heap, next}
use persist_tree_test.Node.Laws.{Stored, load-ok}
use persist_tree_test.Towers.{
  Tower, last, last-append, last_low, split_last, From, Below, UpTo, AtMost,
}
use persist_tree_test.Towers.Chain.{Chain, stop, through, past, Chain-last}
use persist_tree_test.MemorySkipList.{
  SkipList, key_is_after_node, compare_key_and_node, walk, descend, set_prev,
}

-- The tower stands in the heap, with a key of `n` characters.
pub record Holds (n : ℕ) (h : Heap) (t : Tower) : Type 0 where
  pub stored : Stored h t.ptr t.key t.height
  pub is_key : IsKey n t.key

module _ (l : SkipList) (h : Heap) (key : List ℕ) (ik : IsKey l.key_size key) where
  abbrev r : ℕ
  r = rank l.key_size key

  -- The two comparisons of the class compare ranks.
  pub compare_key_and_node-rank :
      (t : Tower)
      → Holds l.key_size h t
      → compare_key_and_node l key t.ptr h ≡ ok (compare r (rank l.key_size t.key))
  unfolding compare_key_and_node
  compare_key_and_node-rank t s =
      rw (load-ok s.stored, s.stored.has_key) (strncmp-rank l.key_size key t.key ik s.is_key)

  pub key_is_after_node-rank :
      (t : Tower)
      → Holds l.key_size h t
      → key_is_after_node l key t.ptr h ≡ ok (ltb (rank l.key_size t.key) r)
  unfolding key_is_after_node
  key_is_after_node-rank t s =
      rw
        (
          ne→==_false _ _ s.stored.ne_null,
          load-ok s.stored,
          s.stored.has_key,
          strncmp-rank_swap l.key_size t.key key s.is_key ik,
        )
        (ground arith)

  -- Behind the last tower below the key, the inner loop stops.
  walk-stop :
      (fuel i : ℕ) {q : Ptr} {us : List Tower}
      → Chain h i q us
      → All (Holds l.key_size h) us
      → From l.key_size r us
      → walk l key h (suc fuel) i q ≡ ok q
  unfolding walk
  walk-stop fuel i (stop e) s from = rw e refl
  walk-stop fuel i (through {t} lt e c) s from =
      rw
        (
          e,
          ne→==_false _ _ s.0.stored.ne_null,
          key_is_after_node-rank t s.0,
          le→ltb_false _ _ from.0,
        )
        refl
  walk-stop fuel i (past le c) s from = walk-stop fuel i c s.1 from.1

  walk-last :
      (fuel i : ℕ) {q : Ptr} (ts us : List Tower)
      → length ts < fuel
      → Chain h i q (ts ++ us)
      → All (Holds l.key_size h) (ts ++ us)
      → Below l.key_size r ts
      → From l.key_size r us
      → walk l key h fuel i q ≡ ok (last i q ts)
  unfolding walk
  walk-last zero i ts us lt c s below from = absurd (omega arith)
  walk-last (suc fuel) i [] us lt c s below from = walk-stop fuel i c s from
  walk-last (suc fuel) i (t ∷ ts) us lt (through high e c) s below from =
      rw
        (
          e,
          ne→==_false _ _ s.0.stored.ne_null,
          key_is_after_node-rank t s.0,
          lt→ltb _ _ below.0,
          lt→ltb _ _ high,
        )
        (walk-last fuel i ts us (omega arith) c s.1 below.1 from)
  walk-last (suc fuel) i {q} (t ∷ ts) us lt (past le c) s below from =
      rw (le→ltb_false _ _ le)
        (walk-last (suc fuel) i {q = q} ts us (omega arith) c s.1 below.1 from)

  -- Every key comes after the head.
  pub compare_key_and_node-head :
      (height : ℕ) {p : Ptr}
      → Stored h p (b' ' ∷ []) height
      → compare_key_and_node l key p h ≡ ok Ordering.gt
  unfolding compare_key_and_node
  compare_key_and_node-head height s = rw (load-ok s, s.has_key) (strncmp-space l.key_size key ik)
