-- ===== src/PersistentSkiplistWrapper.antt =====
-- persistent_skiplist_wrapper.h and .cc, class `PersistentSkiplistWrapper`, from `Init` on: the
-- allocator and the list, which every call is passed on to.
use persist_tree_test.Base.{ℕ, List}
use persist_tree_test.Base.Outcome.{Outcome, ◌>>=◌}
use persist_tree_test.Node.{Ptr}
use persist_tree_test.PersistentAllocator.{Mapping, open_allocator}
use persist_tree_test.PersistentSkipList
use persist_tree_test.PersistentSkipList.{NvmList}
use persist_tree_test.PersistentSkipList.Levels
use persist_tree_test.PersistentSkipList.Printing

-- `Init`; the mapping is what `pmem_map_file` returns for the path.
abbrev pub init :
    Mapping
    → (garbage : ℕ → Ptr) → (size max_height branching_factor key_size opt_num per_1g_num seed : ℕ)
    → Outcome NvmList
init mapping garbage size max_height branching_factor key_size opt_num per_1g_num seed = do
  a ← open_allocator mapping size
  PersistentSkipList.init a garbage max_height branching_factor key_size opt_num per_1g_num seed

-- `Insert`
abbrev pub insert : NvmList → ℕ → List ℕ → Outcome NvmList
insert s fuel key = PersistentSkipList.insert s fuel key

-- `Print`
abbrev pub print : NvmList → ℕ → Outcome ℕ
print s fuel = Printing.print s fuel

-- `PrintLevelNum`
abbrev pub print_level_num : NvmList → ℕ → Outcome (List ℕ)
print_level_num s fuel = Levels.print_level_num s fuel
