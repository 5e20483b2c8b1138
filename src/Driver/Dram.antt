-- ===== src/Driver/Dram.antt =====
-- `write_to_dram` of motivation1_main.cc and what it calls of `SkiplistWriteNVM` (log_batch_wrapper.cc),
-- in the order in which a thread of the pool has written a full list before the thread that inserts
-- goes on. That one queues a list, and there is never more than one in the queue.
use persist_tree_test.Base.{
  ℕ, zero, suc, ◌+◌, ◌*◌, ◌/◌, ◌%◌, ◌^◌, ◌==◌, List, length, leb, some, if◌then◌else◌,
}
use persist_tree_test.Base.Outcome.{Outcome, ok, fault, ◌>>=◌}
use persist_tree_test.Node.{Ptr}
use persist_tree_test.Random
use persist_tree_test.MemorySkipList.{State, insert, init}
use persist_tree_test.PersistentSkipList.{NvmList}
use persist_tree_test.FlushNvm.{run}
use persist_tree_test.Driver.{Options, key_size, key_text}

-- The list in DRAM, `cur_mem_skiplist_size_`, the list in NVM, and the errors printed so far. The seed in
-- `buffer` is that of the one generator of all threads; the seed in `nvm` is set from it.
pub record Dram : Type 0 where
  pub buffer : State
  pub cur_size : ℕ
  pub nvm : NvmList
  pub errors : ℕ

-- The limit that `main` passes to `Init`.
abbrev pub max_size : Options → ℕ
max_size o = o.mem_skiplist_size * 1024 * 1024 % 2 ^ 64

-- In round `i` a node is allocated at `fresh (2 * i)` and a list at `fresh (2 * i + 1)`.
module _ (behind : Ptr → List ℕ) (fresh garbage : ℕ → Ptr) (fuel : ℕ) (o : Options) where
  -- `Flush`, with the `Run` of the list in the pool, and `Realloc`.
  unfoldable pub flush_list : ℕ → Dram → Outcome Dram
  flush_list i d = do
    let nvm = record d.nvm { seed = d.buffer.seed }
    (h, errors, nvm') ← run behind fuel fuel (some d.buffer.list) d.buffer.heap nvm
    (l, h') ← init (fresh (2 * i + 1)) garbage 12 4 key_size h
    ok (record {
      buffer = record { list = l; heap = h'; seed = nvm'.seed };
      cur_size = 0;
      nvm = nvm';
      errors = d.errors + errors;
    })

  -- `Insert`
  unfoldable pub insert_key : ℕ → List ℕ → Dram → Outcome Dram
  insert_key i key d = do
    buffer ← insert d.buffer fuel (fresh (2 * i)) key
    let size = (d.cur_size + length key) % 2 ^ 64
    let d' = record d { buffer = buffer; cur_size = size }
    if leb (max_size o) size then flush_list i d' else ok d'

  -- The loop of `write_to_dram`, with `rounds` rounds left from `i` on.
  unfoldable pub dram_loop : (per_1g rounds i : ℕ) → Dram → Outcome Dram
  dram_loop per_1g zero i d = ok d
  dram_loop per_1g (suc rounds) i d = do
    let (v, seed) = Random.next d.buffer.seed
    text ← key_text o.value_size (v % o.ops_num) i
    d' ← insert_key i text (record d { buffer = record d.buffer { seed = seed } })
    if per_1g == 0 then fault else dram_loop per_1g rounds (i + 1) d'

  -- `write_to_dram`; a division by 0 is a fault.
  unfoldable pub write_to_dram : Dram → Outcome Dram
  write_to_dram d = if o.value_size == 0 then fault else do
    d' ← dram_loop ((1024 * 1000) / o.value_size * 1000) o.ops_num 1 d
    flush_list (o.ops_num + 1) d'
