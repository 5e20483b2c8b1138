-- ===== src/Tests/NvmList.antt =====
-- The skip list in NVM, with keys of two and of sixteen bytes.
use persist_tree_test.Base.{
  ℕ, zero, suc, ◌<◌, ◌^◌, ltb, ◌++◌, ◌≡◌, ◌≢◌, refl, arith, some, none, List, [], ◌∷◌, All, update,
  map,
}
use persist_tree_test.Base.Outcome.{ok}
use persist_tree_test.CString.Rank.{IsKey}
use persist_tree_test.Node.{Ptr, null, Node, node, Heap, next, load}
use persist_tree_test.Towers.{Tower}
use persist_tree_test.Towers.Chain.{Chain, stop, through, past}
use persist_tree_test.MemorySkipList.{SkipList}
use persist_tree_test.MemorySkipList.WellFormed.{IsSkipList}
use persist_tree_test.MemorySkipList.Steps.{tower}
use persist_tree_test.PersistentAllocator.{Allocator}
use persist_tree_test.PersistentAllocator.Blocks.{bump_all, Between, bump_all-Between}
use persist_tree_test.PersistentSkipList.{NvmList, Counters, insert, init, level_num}
use persist_tree_test.PersistentSkipList.Lifetime.{
  init-IsNvmList, insert_keys, Filled, insert_keys-Filled,
}
use persist_tree_test.PersistentSkipList.Levels.{level_num-counts}
use persist_tree_test.PersistentSkipList.Insert.{IsNvmList, InsertedIn, insert-InsertedIn}
use persist_tree_test.CString.Digits.{number}
use persist_tree_test.FlushNvm.Silent.{run-silent}
use persist_tree_test.PrintKey.{Last, print_buffer}
use persist_tree_test.PrintKey.Order.{value, print_buffer-number}
use persist_tree_test.Towers.Falls.{falls}
use persist_tree_test.PersistentSkipList.Printing.{print, print-falls}
use persist_tree_test.FlushNvm.{run}
use persist_tree_test.FlushNvm.Keys.{IsReadable, read_as}
use persist_tree_test.FlushNvm.Run.{Copied, run-Copied}

abbrev head_node : Ptr → Node
head_node q = record { key = b' ' ∷ []; height = 4; next = update (λ _. some null) 0 (some q) }

abbrev pub list : ℕ → (ℕ → Ptr) → SkipList
list n prev = record {
  head = 1;
  prev = prev;
  prev_height = 1;
  k_max_height = 4;
  k_branching = 2;
  k_scaled_inverse_branching = 1073741824;
  key_size = n;
  max_height = 1;
}

abbrev pub heap_0 : Heap
heap_0 = update (λ _. none) 1 (some (node (head_node null)))

abbrev first : List ℕ → Node
first k = record { key = k; height = 1; next = update (λ _. none) 0 (some null) }

abbrev heap_1 : List ℕ → Heap
heap_1 k = update (update (λ _. none) 1 (some (node (head_node 11)))) 11 (some (node (first k)))

abbrev zeros : Counters
zeros = record {
  cnt_time = 0;
  all_cnt = 0;
  head_cnt = 0;
  suit_cnt = 0;
  opt_num = 8;
  opt_1g_num = 0;
  per_1g_num = 4;
}

abbrev nvm : ℕ → (ℕ → Ptr) → Heap → NvmList
nvm n prev h = record {
  list = list n prev;
  counters = zeros;
  allocator = record {
    pmemaddr = 1;
    mapped_len = 1000;
    capacity = 1000;
    is_pmem = 0;
    cur_index = 100;
  };
  heap = h;
  seed = 1;
}

empty-Chain : (i : ℕ) → i < 4 → Chain heap_0 i 1 []
unfolding next load
empty-Chain i lt = stop (ground arith)

pub empty-IsSkipList : (n : ℕ) → IsSkipList (list n (λ _. 1)) heap_0 [] []
empty-IsSkipList n = record {
  linked = record {
    head_stored = record {
      ne_null = omega arith;
      found = head_node null;
      holds = refl;
      has_key = refl;
      has_height = refl;
    };
    holds = tt;
    tall = tt;
    low = tt;
    some_level = omega arith;
    levels = omega arith;
    small = omega arith;
    chains = empty-Chain;
    apart = tt;
    distinct = tt;
    ascending = tt;
  };
  fingers = λ i lt. refl;
}

one-Chain : (k : List ℕ) (i : ℕ) → i < 4 → Chain (heap_1 k) i 1 (tower 11 k 1 ∷ [])
unfolding next load
one-Chain k zero lt = through (omega arith) refl (stop refl)
one-Chain k (suc i) lt = past (omega arith) (stop (ground arith))

one-IsSkipList :
    (n : ℕ) (k : List ℕ)
    → IsKey n k
    → IsSkipList (list n (update (λ _. 1) 0 11)) (heap_1 k) (tower 11 k 1 ∷ []) []
one-IsSkipList n k ik = record {
  linked = record {
    head_stored = record {
      ne_null = omega arith;
      found = head_node 11;
      holds = refl;
      has_key = refl;
      has_height = refl;
    };
    holds = (
      record {
        stored = record {
          ne_null = omega arith;
          found = first k;
          holds = refl;
          has_key = refl;
          has_height = refl;
        };
        is_key = ik;
      },
      tt,
    );
    tall = omega arith;
    low = omega arith;
    some_level = omega arith;
    levels = omega arith;
    small = omega arith;
    chains = one-Chain k;
    apart = omega arith;
    distinct = (tt, tt);
    ascending = (tt, tt);
  };
  fingers = λ i lt. ground arith;
}

abbrev b1 : List ℕ
b1 = b'b' ∷ b'1' ∷ []

b1-IsKey : IsKey 2 b1
b1-IsKey = omega arith

one-IsNvmList :
    (n : ℕ) (k : List ℕ)
    → IsKey n k
    → IsNvmList (nvm n (update (λ _. 1) 0 11) (heap_1 k)) (tower 11 k 1 ∷ []) []
one-IsNvmList n k ik = record {
  list = one-IsSkipList n k ik;
  unused = λ r le. ground arith;
  mapped = omega arith;
  in_space = omega arith;
  some_ops = omega arith;
}

b1-IsNvmList : IsNvmList (nvm 2 (update (λ _. 1) 0 11) (heap_1 b1)) (tower 11 b1 1 ∷ []) []
b1-IsNvmList = one-IsNvmList 2 b1 b1-IsKey

-- An equal key gets a node of its own.
insert-InsertedIn_example :
    (s' : NvmList) × (insert (nvm 2 (update (λ _. 1) 0 11) (heap_1 b1)) 2 b1 ≡ ok s')
    × InsertedIn (nvm 2 (update (λ _. 1) 0 11) (heap_1 b1)) s' b1 (tower 11 b1 1 ∷ []) []
insert-InsertedIn_example =
    insert-InsertedIn (nvm 2 (update (λ _. 1) 0 11) (heap_1 b1)) 2 b1 (tower 11 b1 1 ∷ []) []
      b1-IsNvmList b1-IsKey (omega arith) (omega arith)

abbrev pub empty_nvm : NvmList
empty_nvm = nvm 16 (λ _. 1) heap_0

pub empty-IsNvmList : IsNvmList empty_nvm [] []
empty-IsNvmList = record {
  list = empty-IsSkipList 16;
  unused = λ r le. ground arith;
  mapped = omega arith;
  in_space = omega arith;
  some_ops = omega arith;
}

abbrev pub long_key : List ℕ
long_key =
    b'0' ∷ b'0' ∷ b'0' ∷ b'0' ∷ b'0' ∷ b'0' ∷ b'4' ∷ b'2' ∷ b'0' ∷ b'0' ∷ b'0' ∷ b'0' ∷ b'0' ∷ b'0'
    ∷ b'0' ∷ b'7' ∷ []

long_key-IsKey : IsKey 16 long_key
long_key-IsKey = omega arith

abbrev junk : Ptr → List ℕ
junk _ = b'x' ∷ b'y' ∷ []

abbrev behind : Ptr → List ℕ
behind _ = b'x' ∷ b'y' ∷ 0 ∷ b'z' ∷ []

abbrev full : List Tower
full = tower 11 long_key 1 ∷ []

full-IsReadable : All (IsReadable behind junk) full
full-IsReadable = (
  record {
    long = omega arith;
    no_nul = omega arith;
    junk_no_nul = omega arith;
    rest = b'z' ∷ [];
    ends = refl;
  },
  tt,
)

run-Copied_example :
    (h' : Heap) × (errors : ℕ) × (nvm' : NvmList) × (run behind 2 2
        (some (list 16 (update (λ _. 1) 0 11)))
        (heap_1 long_key)
        empty_nvm
      ≡ ok (h', errors, nvm'))
    × Copied empty_nvm nvm' (map (read_as junk) full) []
    × All {A = Tower} (λ t. h' t.ptr ≡ none) full
    × (h' 1 ≡ none)
    × ((r : Ptr) → r ≢ 1 → All {A = Tower} (λ t. r ≢ t.ptr) full → h' r ≡ heap_1 long_key r)
run-Copied_example =
    run-Copied behind junk 2 2 (list 16 (update (λ _. 1) 0 11)) (heap_1 long_key) empty_nvm full []
      [] (one-IsSkipList 16 long_key long_key-IsKey).linked (λ e. cc) full-IsReadable
      empty-IsNvmList refl (omega arith) (omega arith) (omega arith)

-- Three keys, two of them equal.
abbrev three : List (List ℕ)
three = b1 ∷ (b'a' ∷ b'1' ∷ []) ∷ b1 ∷ []

insert_keys-Filled_example :
    (s' : NvmList) × (insert_keys (nvm 2 (update (λ _. 1) 0 11) (heap_1 b1)) 5 three ≡ ok s')
    × Filled 2 s' (tower 11 b1 1 ∷ []) three
insert_keys-Filled_example =
    insert_keys-Filled 5 three (nvm 2 (update (λ _. 1) 0 11) (heap_1 b1)) (tower 11 b1 1 ∷ []) []
      b1-IsNvmList (omega arith) (omega arith) (omega arith)

abbrev opened : Allocator
opened = record {
  pmemaddr = 4096;
  mapped_len = 1000;
  capacity = 1000;
  is_pmem = 0;
  cur_index = 4096;
}

init-IsNvmList_example :
    (s : NvmList) × (init opened (λ _. 0) 12 4 16 8 4 1 ≡ ok s)
    × IsNvmList s [] []
    × (s.list.key_size ≡ 16)
    × (s.list.k_max_height ≡ 12)
    × (s.allocator ≡ record opened { cur_index = 4297 })
init-IsNvmList_example =
    init-IsNvmList opened (λ _. 0) 12 4 16 8 4 1 (omega arith) (omega arith) (omega arith)
      (omega arith) (omega arith) (omega arith) (omega arith)

level_num-counts_example : level_num (nvm 2 (update (λ _. 1) 0 11) (heap_1 b1)) 2 0 ≡ ok 1
level_num-counts_example =
    level_num-counts (nvm 2 (update (λ _. 1) 0 11) (heap_1 b1)) 2 0 (tower 11 b1 1 ∷ []) []
      b1-IsNvmList (omega arith) (omega arith) (omega arith)

abbrev after_two : Allocator
after_two = record opened { cur_index = 4136 }

bump_all-Between_example :
    Between 4096 (bump_all opened (16 ∷ 24 ∷ [])).0 4136
    × ((bump_all opened (16 ∷ 24 ∷ [])).1 ≡ after_two)
bump_all-Between_example = bump_all-Between opened (16 ∷ 24 ∷ []) (omega arith)

run-silent_example :
    (h' : Heap) × (nvm' : NvmList) × (run behind 2 2
        (some (list 16 (update (λ _. 1) 0 11)))
        (heap_1 long_key)
        empty_nvm
      ≡ ok (h', 0, nvm'))
unfolding number
run-silent_example =
    run-silent behind junk 2 2 (list 16 (update (λ _. 1) 0 11)) (heap_1 long_key) empty_nvm full []
      [] (one-IsSkipList 16 long_key long_key-IsKey).linked (λ e. cc) full-IsReadable (omega arith)
      (omega arith) (tt, tt) empty-IsNvmList refl refl (omega arith) (omega arith) (omega arith)

print-falls_example :
    print (nvm 16 (update (λ _. 1) 0 11) (heap_1 long_key)) 2
    ≡ ok (falls 0 (tower 11 long_key 1 ∷ []))
print-falls_example =
    print-falls (nvm 16 (update (λ _. 1) 0 11) (heap_1 long_key)) 2 (tower 11 long_key 1 ∷ []) []
      (one-IsNvmList 16 long_key long_key-IsKey) (omega arith) (omega arith)

print_buffer-number_example :
    (last' : Last) × (print_buffer (long_key ++ (0 ∷ [])) (42, 8)
      ≡ ok (ltb (value (42, 8)) (number 16 long_key), last'))
    × (value last' ≡ number 16 long_key)
    × (last'.1 < 10 ^ 8)
print_buffer-number_example =
    print_buffer-number long_key (0 ∷ []) (42, 8) (omega arith) (omega arith)
