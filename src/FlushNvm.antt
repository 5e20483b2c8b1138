-- ===== src/FlushNvm.antt =====
-- flush_nvm.h and .cc, class `FlushNVM`, built with DRAM_CANCEL_LOG: a full skip list in DRAM is
-- copied into the skip list in NVM and deleted.
pub mod Keys
pub mod Run
pub mod Silent
use persist_tree_test.Base.{
  ℕ, zero, suc, ◌+◌, ◌-◌, ◌*◌, ◌%◌, ◌^◌, ◌==◌, ◌&&◌, ◌||◌, ◌++◌, Bool, Option, none, some, List, [],
  ◌∷◌, ltb, if◌then◌else◌,
}
use persist_tree_test.Base.Outcome.{Outcome, ok, fault, out_of_fuel, ◌>>=◌}
use persist_tree_test.CString.{c_str, from_c_str}
use persist_tree_test.Node.{Ptr, null, Heap, load, next}
use persist_tree_test.MemorySkipList.{SkipList, destroy}
use persist_tree_test.PersistentSkipList.{NvmList, insert}
use persist_tree_test.PrintKey.{Last, print_buffer}

-- `PrintKey` on a string.
pub print_key : List ℕ → Last → Outcome (Bool × Last)
print_key key last = print_buffer (c_str key) last

-- The loop of `Run` from node `start` on, with `errors` lines printed so far. The key of a node is
-- read as a C string: `behind p` is the memory behind the buffer of the key of node `p`.
pub run_loop :
    (behind : Ptr → List ℕ) → Heap → ℕ → ℕ → Ptr → Last → ℕ → NvmList → Outcome (ℕ × NvmList)
run_loop behind h nvm_fuel zero start last errors nvm = out_of_fuel
run_loop behind h nvm_fuel (suc fuel) start last errors nvm =
    if start == null then ok (errors, nvm) else do
      n ← load start h
      key ← from_c_str (n.key ++ behind start)
      (in_order, last') ← print_key key last
      nvm' ← insert nvm nvm_fuel key
      after ← next start 0 h
      run_loop behind h nvm_fuel fuel after last' (if in_order then errors else errors + 1) nvm'

-- `Run`; the assertions on the list and on its first node are faults. The results are the heap
-- without the list, the number of errors printed, and the list in NVM.
unfoldable pub run :
    (behind : Ptr → List ℕ)
    → ℕ
    → ℕ
    → Option SkipList
    → Heap
    → NvmList
    → Outcome (Heap × ℕ × NvmList)
run behind nvm_fuel fuel none h nvm = fault
run behind nvm_fuel fuel (some l) h nvm = do
  start ← next l.head 0 h
  let copied = run_loop behind h nvm_fuel fuel start (0, 0) 0 nvm
  (errors, nvm') ← (if start == null then fault else copied)
  h' ← destroy fuel l h
  ok (h', errors, nvm')
