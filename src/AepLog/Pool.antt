-- ===== src/AepLog/Pool.antt =====
-- log_batch.h and log_batch.cc, class `AEP_LOG`, on the objects of the pool: entries that point to
-- their arrays and to the next entry. A transaction is a step, and none of them is interrupted.
pub mod Chain
pub mod Represents
pub mod Puts
pub mod Removal
pub mod Lifetime
pub mod Ended
use persist_tree_test.Base.{
  ℕ, zero, suc, ◌+◌, ◌-◌, ◌%◌, ◌^◌, ◌==◌, Option, none, some, List, length, ltb, if◌then◌else◌,
  update,
}
use persist_tree_test.Base.Outcome.{Outcome, ok, fault, out_of_fuel, ◌>>=◌}
use persist_tree_test.Node.{Ptr, null}
use persist_tree_test.AepLog.{copy}

-- `LOG_ENTRY`
pub record LogEntry : Type 0 where
  pub array : Ptr
  pub w_oft : ℕ
  pub size : ℕ
  pub next : Ptr

-- An array of `length` bytes.
pub record Array : Type 0 where
  pub length : ℕ
  pub bytes : ℕ → ℕ

-- What is allocated in the pool.
pub record Pool : Type 0 where
  pub entries : Ptr → Option LogEntry
  pub arrays : Ptr → Option Array

-- The members of `AEP_LOG`, and the pool.
pub record PoolLog : Type 0 where
  pub pool : Pool
  pub head : Ptr
  pub tail : Ptr
  pub entry_size : ℕ

found {ℓ} : {A : Type ℓ} → Option A → Outcome A
found none = fault
found (some x) = ok x

-- A null pointer and a deleted object cannot be read.
pub load_entry : Ptr → Pool → Outcome LogEntry
unfolding found
load_entry p pool = if p == null then fault else found (pool.entries p)

pub load_array : Ptr → Pool → Outcome Array
unfolding found
load_array p pool = found (pool.arrays p)

-- `NewEntry`; `make_persistent` returns `entry` and then `array`, an array of zeros.
unfoldable pub new_entry : (entry array : Ptr) → ℕ → Pool → Pool
new_entry entry array entry_size pool = record {
  entries =
      update pool.entries entry
        (some (record { array = array; w_oft = 0; size = entry_size; next = null }));
  arrays = update pool.arrays array (some (record { length = entry_size; bytes = λ _. 0 }));
}

-- The constructor.
unfoldable pub init : (entry array : Ptr) → ℕ → Pool → PoolLog
init entry array entry_size pool = record {
  pool = new_entry entry array entry_size pool;
  head = entry;
  tail = entry;
  entry_size = entry_size;
}

-- The writing of a key in the entry at `p`; a write behind its array is a fault.
pub write_at : List ℕ → Ptr → Pool → Outcome Pool
write_at key p pool = do
  e ← load_entry p pool
  a ← load_array e.array pool
  if ltb a.length (e.w_oft + length key)
      then fault
      else ok (record {
        entries =
            update pool.entries p (some (record e { w_oft = (e.w_oft + length key) % 2 ^ 64 }));
        arrays = update pool.arrays e.array (some (record a { bytes = copy key e.w_oft a.bytes }));
      })

-- `Put`; the difference of two uint64_t wraps around.
unfoldable pub put : List ℕ → (entry array : Ptr) → PoolLog → Outcome PoolLog
put key entry array s = do
  t ← load_entry s.tail s.pool
  if ltb (length key) ((t.size + 2 ^ 64 - t.w_oft) % 2 ^ 64)
      then (do pool ← write_at key s.tail s.pool; ok (record s { pool = pool }))
      else do
        let pool = new_entry entry array s.entry_size s.pool
        t' ← load_entry s.tail pool
        let entries = update pool.entries s.tail (some (record t' { next = entry }))
        pool' ← write_at key entry (record pool { entries = entries })
        ok (record s { pool = pool'; tail = entry })

-- The loop of `Get` from the entry `tmp` on.
pub get_loop : ℕ → Pool → (tmp num : ℕ) → Outcome ℕ
get_loop zero pool tmp num = out_of_fuel
get_loop (suc fuel) pool tmp num =
    if tmp == null
    then ok num
    else do e ← load_entry tmp pool; get_loop fuel pool e.next ((num + 1) % 2 ^ 64)

-- `Get`: the number that it counts, which it does not return.
pub get : ℕ → PoolLog → Outcome ℕ
get fuel s = get_loop fuel s.pool s.head 0

-- `delete_persistent` of an array, and of an entry.
pub delete_array : Ptr → Pool → Outcome Pool
delete_array p pool = do
  a ← load_array p pool
  ok (record pool { arrays = update pool.arrays p none })

pub delete_entry : Ptr → Pool → Outcome Pool
delete_entry p pool = do
  e ← load_entry p pool
  ok (record pool { entries = update pool.entries p none })

-- The loop of `Delete`.
pub delete_loop : ℕ → Ptr → PoolLog → Outcome PoolLog
delete_loop zero tmp s = out_of_fuel
delete_loop (suc fuel) tmp s = if tmp == null then ok s else do
  e ← load_entry s.head s.pool
  pool ← delete_array e.array s.pool
  pool' ← delete_entry s.head pool
  delete_loop fuel e.next (record s { pool = pool'; head = e.next })

-- `Delete`; the tail stays as it is.
pub delete : ℕ → PoolLog → Outcome PoolLog
delete fuel s = delete_loop fuel s.head s
