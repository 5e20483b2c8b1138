-- ===== src/Tests/DramList.antt =====
-- The skip list in DRAM, with keys of two bytes.
use persist_tree_test.Base.{
  ℕ, zero, suc, ◌<◌, ◌≡◌, ◌≢◌, refl, ◌⊎◌, inl, arith, some, none, List, [], ◌∷◌, All, update, ◌==◌,
  if◌then◌else◌,
}
use persist_tree_test.Base.Outcome.{Outcome, ok, fault, out_of_fuel, ◌>>=◌}
use persist_tree_test.CString.{strncmp}
use persist_tree_test.CString.Rank.{IsKey, rank}
use persist_tree_test.Node.{Ptr, null, Node, node, Heap, next, load, set_next, allocate}
use persist_tree_test.Random
use persist_tree_test.Towers.{Tower}
use persist_tree_test.Towers.Chain.{Chain, stop, through, past}
use persist_tree_test.MemorySkipList.{
  SkipList, State, random_height, random_height_loop, new_node, key_is_after_node,
  compare_key_and_node, walk, set_prev, descend, find_less_than, find_next_node, position,
  overwrite_node, raise, link, insert_node, insert, init, init_loop, destroy,
}
use persist_tree_test.MemorySkipList.WellFormed.{IsSkipList, AtFinger}
use persist_tree_test.MemorySkipList.Steps.{tower}
use persist_tree_test.MemorySkipList.Insert.{InsertedAt}
use persist_tree_test.MemorySkipList.Equal.{insert-InsertedAt, insert_equal-fault}
use persist_tree_test.MemorySkipList.Fill.{Items, insert_all, insert_all-Filled, Filled}
use persist_tree_test.MemorySkipList.Lifetime.{init-IsSkipList, destroy-Freed}

-- The keys at level `i` from node `p` on.
keys_from : ℕ → ℕ → Ptr → Heap → Outcome (List (List ℕ))
keys_from i zero p h = out_of_fuel
keys_from i (suc fuel) p h = do
  q ← next p i h
  let rest = keys_from i fuel q h
  if q == null then ok [] else (do n ← load q h; ks ← rest; ok (n.key ∷ ks))

abbrev items : Items
items =
    (11, b'd' ∷ b'1' ∷ [])
    ∷ (12, b'b' ∷ b'2' ∷ [])
    ∷ (13, b'c' ∷ b'0' ∷ [])
    ∷ (14, b'b' ∷ b'1' ∷ [])
    ∷ []

run : Outcome State
unfolding init init_loop new_node insert_all insert random_height random_height_loop Random.next
    set_next next allocate
run = do
  (l, h) ← init 1 (λ _. 0) 4 2 2 (λ _. none)
  insert_all (record { list = l; heap = h; seed = 1 }) 10 items

level : ℕ → Outcome (List (List ℕ))
unfolding run keys_from position compare_key_and_node strncmp find_next_node find_less_than descend
    walk key_is_after_node insert_node raise set_prev link load
level i = do s ← run; keys_from i 10 s.list.head s.heap

level_0 :
    level 0
    ≡ ok ((b'b' ∷ b'1' ∷ []) ∷ (b'b' ∷ b'2' ∷ []) ∷ (b'c' ∷ b'0' ∷ []) ∷ (b'd' ∷ b'1' ∷ []) ∷ [])
unfolding level
level_0 = refl

-- A list with one tower, as it is after one insertion.
abbrev first : Node
first = record { key = b'b' ∷ b'1' ∷ []; height = 1; next = update (λ _. none) 0 (some null) }

abbrev head_node : Ptr → Node
head_node q = record { key = b' ' ∷ []; height = 4; next = update (λ _. some null) 0 (some q) }

abbrev heap_0 : Heap
heap_0 = update (λ _. none) 1 (some (node (head_node null)))

abbrev heap_1 : Heap
heap_1 = update (update (λ _. none) 1 (some (node (head_node 11)))) 11 (some (node first))

abbrev list : (ℕ → Ptr) → SkipList
list prev = record {
  head = 1;
  prev = prev;
  prev_height = 1;
  k_max_height = 4;
  k_branching = 2;
  k_scaled_inverse_branching = 1073741824;
  key_size = 2;
  max_height = 1;
}

abbrev state_0 : State
state_0 = record { list = list (λ _. 1); heap = heap_0; seed = 1 }

abbrev state_1 : State
state_1 = record { list = list (update (λ _. 1) 0 11); heap = heap_1; seed = 1 }

abbrev b1 : List ℕ
b1 = b'b' ∷ b'1' ∷ []

b1-IsKey : IsKey 2 b1
b1-IsKey = omega arith

item_IsKey : (x y : ℕ) → 32 < x → x < 256 → 0 < y → y < 256 → IsKey 2 (x ∷ y ∷ [])
item_IsKey x y a b c d = omega arith

empty-Chain : (i : ℕ) → i < 4 → Chain heap_0 i 1 []
unfolding next load
empty-Chain i lt = stop (ground arith)

empty-IsSkipList : IsSkipList state_0.list heap_0 [] []
empty-IsSkipList = record {
  linked = record {
    head_stored = record {
      ne_null = omega arith;
      found = head_node null;
      holds = refl;
      has_key = refl;
      has_height = refl;
    };
    holds = tt;
    tall = tt;
    low = tt;
    some_level = omega arith;
    levels = omega arith;
    small = omega arith;
    chains = empty-Chain;
    apart = tt;
    distinct = tt;
    ascending = tt;
  };
  fingers = λ i lt. refl;
}

one-Chain : (i : ℕ) → i < 4 → Chain heap_1 i 1 (tower 11 b1 1 ∷ [])
unfolding next load
one-Chain zero lt = through (omega arith) refl (stop refl)
one-Chain (suc i) lt = past (omega arith) (stop (ground arith))

one-IsSkipList : IsSkipList state_1.list heap_1 (tower 11 b1 1 ∷ []) []
one-IsSkipList = record {
  linked = record {
    head_stored = record {
      ne_null = omega arith;
      found = head_node 11;
      holds = refl;
      has_key = refl;
      has_height = refl;
    };
    holds = (
      record {
        stored = record {
          ne_null = omega arith;
          found = first;
          holds = refl;
          has_key = refl;
          has_height = refl;
        };
        is_key = b1-IsKey;
      },
      tt,
    );
    tall = omega arith;
    low = omega arith;
    some_level = omega arith;
    levels = omega arith;
    small = omega arith;
    chains = one-Chain;
    apart = omega arith;
    distinct = (tt, tt);
    ascending = (tt, tt);
  };
  fingers = λ i lt. ground arith;
}

abbrev b0 : List ℕ
b0 = b'b' ∷ b'0' ∷ []

insert-InsertedAt_example :
    ((s' : State) × (insert state_1 2 12 b0 ≡ ok s')
      × InsertedAt state_1 s' 12 b0 (tower 11 b1 1 ∷ []) [])
    ⊎ ((insert state_1 2 12 b0 ≡ overwrite_node state_1 b0)
        × AtFinger 2 (rank 2 b0) (tower 11 b1 1 ∷ []) [])
insert-InsertedAt_example =
    insert-InsertedAt state_1 2 12 b0 (tower 11 b1 1 ∷ []) [] one-IsSkipList
      (item_IsKey b'b' b'0' (omega arith) (omega arith) (omega arith) (omega arith)) (omega arith)
      (omega arith) refl

insert_equal-fault_example : (insert state_1 2 12 b1 >>= λ s'. insert s' 3 13 b0) ≡ fault
insert_equal-fault_example =
    insert_equal-fault state_1 2 12 b1 (tower 11 b1 1 ∷ []) [] one-IsSkipList b1-IsKey
      (inl ([], tower 11 b1 1, refl, refl)) 3 13 b0

insert_all-Filled_example :
    (s' : State) × (insert_all state_0 10 items ≡ ok s') × Filled state_0 s' [] items
unfolding rank
insert_all-Filled_example =
    insert_all-Filled 10 items state_0 [] [] empty-IsSkipList (omega arith) (omega arith)
      (ground arith) (omega arith)

init-IsSkipList_example :
    (l : SkipList) × (h' : Heap) × (init 1 (λ _. 0) 12 4 16 (λ _. none) ≡ ok (l, h'))
    × IsSkipList l h' [] []
    × (l.key_size ≡ 16)
    × (l.k_max_height ≡ 12)
    × (l.head ≡ 1)
    × ((r : Ptr) → r ≢ 1 → h' r ≡ none)
init-IsSkipList_example =
    init-IsSkipList 1 (λ _. 0) 12 4 16 (λ _. none) (omega arith) (omega arith) (omega arith)
      (omega arith)

destroy-Freed_example :
    (h' : Heap) × (destroy 2 state_1.list heap_1 ≡ ok h')
    × All {A = Tower} (λ t. h' t.ptr ≡ none) (tower 11 b1 1 ∷ [])
    × (h' 1 ≡ none)
    × ((r : Ptr) → r ≢ 1 → All {A = Tower} (λ t. r ≢ t.ptr) (tower 11 b1 1 ∷ []) → h' r ≡ heap_1 r)
destroy-Freed_example =
    destroy-Freed state_1.list heap_1 (tower 11 b1 1 ∷ []) 2 one-IsSkipList.linked (omega arith)
