-- ===== src/Driver/Main.antt =====
-- `main` of motivation1_main.cc, on both routes, with `parse_input` before and the destructors after.
pub mod Ends
use persist_tree_test.Base.{ℕ, ◌==◌, Option, none, some, List, [], if◌then◌else◌}
use persist_tree_test.Base.Outcome.{Outcome, ok, ◌>>=◌}
use persist_tree_test.Node.{Ptr, Heap}
use persist_tree_test.Random.{get_tls_instance}
use persist_tree_test.MemorySkipList
use persist_tree_test.MemorySkipList.{destroy}
use persist_tree_test.PersistentAllocator.{Mapping}
use persist_tree_test.PersistentSkipList.{NvmList}
use persist_tree_test.PersistentSkiplistWrapper
use persist_tree_test.Driver.{Options, parse_input, key_size, nvm_size, per_1g_num, write_to_nvm}
use persist_tree_test.Driver.Dram.{Dram, write_to_dram}

-- What a run that has finished leaves: the file, the numbers printed by `PrintLevelNum`, the errors
-- printed, and the nodes in DRAM that are still allocated.
pub record Finished : Type 0 where
  pub nvm : NvmList
  pub levels : List ℕ
  pub errors : ℕ
  pub heap : Heap

-- `mapping` is what `pmem_map_file` returns, `behind` what is in memory behind a key, `fresh` the
-- addresses that are allocated in DRAM, `garbage` what the arrays `prev_` hold at first, and `hash` what
-- the library makes of the id of the thread that writes.
module _ (mapping : Mapping) (behind : Ptr → List ℕ) (fresh garbage : ℕ → Ptr) (hash fuel : ℕ) where
  -- `new SkiplistWriteNVM` and `Init`, with no node in DRAM before.
  pub init_dram : NvmList → Outcome Dram
  init_dram s = do
    (l, h) ← MemorySkipList.init (fresh 1) garbage 12 4 key_size (λ _. none)
    ok (record {
      buffer = record { list = l; heap = h; seed = s.seed };
      cur_size = 0;
      nvm = s;
      errors = 0;
    })

  -- `delete skiplist_dram`, which deletes its list.
  pub delete_dram : Dram → Outcome Finished
  delete_dram d = do
    h ← destroy fuel d.buffer.list d.buffer.heap
    ok (record { nvm = d.nvm; levels = []; errors = d.errors; heap = h })

  -- The branch for a `test_type` of 1.
  pub test_dram : Options → NvmList → Outcome Finished
  test_dram o s = do
    d ← init_dram s
    d' ← write_to_dram behind fresh garbage fuel o d
    delete_dram d'

  -- The other branch.
  pub test_nvm : Options → NvmList → Outcome Finished
  test_nvm o s = do
    (s', levels, errors) ← write_to_nvm fuel o s
    ok (record { nvm = s'; levels = levels; errors = errors; heap = λ _. none })

  -- `main` after `parse_input`. The first call of `GetTLSInstance` is in the thread that writes.
  pub test_main : Options → Outcome Finished
  test_main o = do
    per_1g ← per_1g_num o.value_size
    let seed = get_tls_instance hash none
    s ← PersistentSkiplistWrapper.init mapping garbage nvm_size 20 2 key_size o.ops_num per_1g seed
    if o.test_type == 1 then test_dram o s else test_nvm o s

  -- `main`: `none` when the arguments are refused.
  pub main : List ℕ → Outcome (Option Finished)
  main arguments = do
    parsed ← parse_input arguments
    elim parsed [ none ↦ ok none | some o ↦ (do r ← test_main o; ok (some r)) ]
