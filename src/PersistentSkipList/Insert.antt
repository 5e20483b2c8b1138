-- ===== src/PersistentSkipList/Insert.antt =====
-- `Persistent_SkipList::Insert`: every key gets a node, equal keys too.
use persist_tree_test.Base.{
  ℕ, ◌+◌, ◌%◌, ◌^◌, if◌then◌else◌, ◌<◌, ◌≤◌, ◌≡◌, ◌≢◌, refl, ◌∙◌, sym, ap, inl, inr, arith, some,
  none, Option, List, [], ◌∷◌, ◌++◌, All-right, All-append, append_assoc, subst, length, ltb,
  le→ltb_false,
}
use persist_tree_test.Base.Outcome.{ok}
use persist_tree_test.CString.Rank.{IsKey, rank}
use persist_tree_test.Node.{Ptr, null, Heap, allocate}
use persist_tree_test.Towers.{Tower, From, UpTo, Ascending, Ascending-UpTo}
use persist_tree_test.MemorySkipList
use persist_tree_test.MemorySkipList.{SkipList, State, random_height}
use persist_tree_test.MemorySkipList.WellFormed.{
  IsLinked, IsSkipList, Placed, AtFinger, Ascending-left, Ascending-right, From-mono,
}
use persist_tree_test.MemorySkipList.Position.{position-Decided}
use persist_tree_test.MemorySkipList.Height.{random_height_bounds}
use persist_tree_test.MemorySkipList.Steps.{tower, steps}
use persist_tree_test.PersistentAllocator.{Allocator, bump}
use persist_tree_test.PersistentSkipList.{NvmList, new_node, node_size, insert}
use persist_tree_test.PersistentSkipList.Erasure.{position-Finds, placed}

-- The list in NVM is well formed, all its nodes lie below the allocator's cursor, and the mapped file
-- lies in 64 bits.
pub record IsNvmList (s : NvmList) (ts us : List Tower) : Type 0 where
  pub list : IsSkipList s.list s.heap ts us
  pub unused : (r : Ptr) → s.allocator.cur_index ≤ r → s.heap r ≡ none
  pub mapped : 0 < s.allocator.cur_index
  pub in_space : s.allocator.pmemaddr + s.allocator.mapped_len < 2 ^ 64
  pub some_ops : 0 < s.counters.per_1g_num

UpTo-append :
    (n : ℕ) (ts back : List Tower) (t : Tower)
    → Ascending n (ts ++ (t ∷ back))
    → UpTo n (rank n t.key) ts
UpTo-append n [] back t a = tt
UpTo-append n (u ∷ ts) back t a = ((All-right _ ts (t ∷ back) a.0).0, UpTo-append n ts back t a.1)

-- An equal key may stay behind the finger.
AtFinger-Placed :
    (l : SkipList) (h : Heap) (r : ℕ) (ts us : List Tower)
    → IsSkipList l h ts us
    → AtFinger l.key_size r ts us
    → Placed l ts us r l.prev
AtFinger-Placed l h r ts us w at = record {
  before = ts;
  after = us;
  same = refl;
  up_to = up at;
  from = from at;
  fingers = w.fingers;
}
  where
    n : ℕ
    n = l.key_size

    up : AtFinger n r ts us → UpTo n r ts
    up (inl (front, t, e, same)) = subst (UpTo n r) (sym e) (
        All-append _ front (t ∷ [])
          (subst (λ q. UpTo n q front) same
            (Ascending-UpTo n front t (subst (Ascending n) e (Ascending-left n ts us w.ascending))))
          (omega arith, tt))
    up (inr (t, back, e, same)) =
        subst (λ q. UpTo n q ts) same
          (UpTo-append n ts back t (subst (λ ys. Ascending n (ts ++ ys)) e w.ascending))

    from : AtFinger n r ts us → From n r us
    from (inl (front, t, e, same)) =
        subst (λ q. From n q us) same
          (Ascending-right n front (t ∷ us) (
            subst (Ascending n) (ap (λ xs. xs ++ us) e ∙ append_assoc front (t ∷ []) us)
              w.ascending)).0
    from (inr (t, back, e, same)) =
        let a : Ascending n (t ∷ back) =
          subst (Ascending n) e (Ascending-right n ts us w.ascending) in
        subst (From n r) (sym e) (omega arith, From-mono n _ r back a.0 (omega arith))

-- With room for the node and for the key, both blocks are inside the mapped file.
pub new_node-ok :
    (a : Allocator) (key : List ℕ) (height : ℕ) (h : Heap) {h' : Heap}
    → a.cur_index + node_size height + length key ≤ a.pmemaddr + a.mapped_len
    → a.pmemaddr + a.mapped_len < 2 ^ 64
    → allocate a.cur_index key height h ≡ ok h'
    → new_node a key height h
      ≡ ok (a.cur_index, record a { cur_index = a.cur_index + node_size height + length key }, h')
unfolding new_node bump
new_node-ok a key height h room space e =
    let first : (a.cur_index + node_size height) % 2 ^ 64 ≡ a.cur_index + node_size height =
      omega (arith, room, space) in
    let second : (a.cur_index + node_size height + length key) % 2 ^ 64
        ≡ a.cur_index + node_size height + length key =
      omega (arith, room, space) in
    rw (first, second, le→ltb_false _ _ room, e) refl

-- The list after `Insert`: one new node, at the address where the allocator stood.
pub record InsertedIn (s s' : NvmList) (key : List ℕ) (ts us : List Tower) : Type 0 where
  pub before : List Tower
  pub after : List Tower
  pub height : ℕ
  pub same : before ++ after ≡ ts ++ us
  pub fits : height ≤ s.list.k_max_height
  pub moved : s'.allocator.cur_index ≡ s.allocator.cur_index + node_size height + length key
  pub same_file :
      s'.allocator.pmemaddr + s'.allocator.mapped_len
      ≡ s.allocator.pmemaddr + s.allocator.mapped_len
  pub same_size : s'.list.key_size ≡ s.list.key_size
  pub same_max : s'.list.k_max_height ≡ s.list.k_max_height
  pub result : IsNvmList s' (before ++ (tower s.allocator.cur_index key height ∷ [])) after

-- What a call of `Insert` may need of the mapped file.
abbrev pub need : SkipList → List ℕ → ℕ
need l key = node_size l.k_max_height + length key

module _ (s : NvmList) (fuel : ℕ) (key : List ℕ) (ik : IsKey s.list.key_size key)
    (ts us : List Tower) (w : IsNvmList s ts us) (enough : length (ts ++ us) < fuel)
    (room : s.allocator.cur_index + need s.list key
      ≤ s.allocator.pmemaddr + s.allocator.mapped_len) where
  abbrev dram : State
  dram = record { list = s.list; heap = s.heap; seed = s.seed }

  abbrev Result : Type 0
  Result = (s' : NvmList) × (insert s fuel key ≡ ok s') × InsertedIn s s' key ts us

  insert_at :
      (place : Option (ℕ → Ptr))
      → MemorySkipList.position s.list key s.heap fuel ≡ ok place
      → Placed s.list ts us (rank s.list.key_size key) (placed place s.list.prev)
      → Result
  unfolding insert
  insert_at place run p =
      let (c, run', per) = position-Finds s.list key s.heap fuel s.counters place w.some_ops run in
      let linked : IsLinked s.list s.heap (p.before ++ p.after) =
        subst (IsLinked s.list s.heap) (sym p.same) w.list.linked in
      let ne : s.allocator.cur_index ≢ null = omega (arith, w.mapped) in
      let st =
        steps dram s.allocator.cur_index key ik ne (w.unused s.allocator.cur_index (omega arith))
          p.before p.after linked p.up_to p.from (placed place s.list.prev) p.fingers in
      let height : ℕ = (random_height s.list s.seed).0 in
      let bounds : (1 ≤ height) × (height ≤ s.list.k_max_height) =
        random_height_bounds s.list s.seed (omega (arith, linked.some_level, linked.levels)) in
      let cursor : ℕ = s.allocator.cur_index + node_size height + length key in
      let fits : cursor ≤ s.allocator.pmemaddr + s.allocator.mapped_len =
        omega (arith, room, bounds) in
      let beyond : s.allocator.cur_index < cursor = omega arith in
      let s' : NvmList = record {
        list = record s.list {
          prev = st.linked;
          prev_height = height % 2 ^ 16;
          max_height = if ltb s.list.max_height height then height % 2 ^ 16 else s.list.max_height;
        };
        counters = c;
        allocator = record s.allocator { cur_index = cursor };
        heap = st.heap;
        seed = (random_height s.list s.seed).1;
      } in
      (
        s',
        rw
            (
              run',
              st.raises,
              new_node-ok s.allocator key height s.heap fits w.in_space st.allocates,
              st.links,
            )
            refl,
        record {
          before = p.before;
          after = p.after;
          height = height;
          same = p.same;
          fits = bounds.1;
          moved = refl;
          same_file = refl;
          same_size = refl;
          same_max = refl;
          result = record {
            list = st.result;
            unused =
                λ r le. st.untouched r (omega (arith, beyond)) (w.unused r (omega (arith, beyond)));
            mapped = omega (arith, w.mapped);
            in_space = w.in_space;
            some_ops = omega (arith, per, w.some_ops);
          };
        },
      )

  -- `Insert` of a valid key succeeds, whether or not the list holds an equal key.
  insert_any : Result
  insert_any = elim (position-Decided s.list s.heap key ik ts us fuel enough w.list) [
    | inl (prev, run, p) ↦ insert_at (some prev) run p
    | inr (run, at) ↦
        insert_at none run
          (AtFinger-Placed s.list s.heap (rank s.list.key_size key) ts us w.list at)
  ]

-- On a well-formed list, with enough fuel, room in the file for a node of the full height and for
-- the key, and a gigabyte of at least one operation, `Insert` of a valid key succeeds, whether or not
-- the list holds an equal key: one new node stands between the nodes that do not come after it and
-- those that do not come before it, and the list is well formed again.
pub insert-InsertedIn :
    (s : NvmList) (fuel : ℕ) (key : List ℕ) (ts us : List Tower)
    → IsNvmList s ts us
    → IsKey s.list.key_size key
    → length (ts ++ us) < fuel
    → s.allocator.cur_index + need s.list key ≤ s.allocator.pmemaddr + s.allocator.mapped_len
    → (s' : NvmList) × (insert s fuel key ≡ ok s') × InsertedIn s s' key ts us
insert-InsertedIn s fuel key ts us w ik enough room = insert_any s fuel key ik ts us w enough room
