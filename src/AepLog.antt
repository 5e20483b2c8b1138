-- ===== src/AepLog.antt =====
-- log_batch.h and log_batch.cc, class `AEP_LOG`: a chain of log entries. The chain from `head` to `tail`
-- is the list of the entries before the tail, and the tail; a transaction is a step. `Put` is declared
-- to return a number and returns none, and no call looks at it.
pub mod Contents
pub mod Pool
use persist_tree_test.Base.{
  ℕ, zero, suc, ◌+◌, ◌-◌, ◌%◌, ◌^◌, List, [], ◌∷◌, ◌++◌, length, ltb, if◌then◌else◌, update,
}
use persist_tree_test.Base.Outcome.{Outcome, ok, fault, ◌>>=◌}

-- `LOG_ENTRY`; `bytes` is the content of the array `data` of `size` bytes.
pub record Entry : Type 0 where
  pub bytes : ℕ → ℕ
  pub w_oft : ℕ
  pub size : ℕ

-- `before_tail` are the entries from `head` on.
pub record Log : Type 0 where
  pub before_tail : List Entry
  pub tail : Entry
  pub entry_size : ℕ

-- `NewEntry`; `make_persistent` for an array fills it with zeros.
pub new_entry : ℕ → Entry
new_entry entry_size = record { bytes = λ _. 0; w_oft = 0; size = entry_size }

-- The constructor.
unfoldable pub init : ℕ → Log
unfolding new_entry
init entry_size = record { before_tail = []; tail = new_entry entry_size; entry_size = entry_size }

-- `memcpy` into the array, from `oft` on.
pub copy : List ℕ → ℕ → (ℕ → ℕ) → ℕ → ℕ
copy [] oft bytes = bytes
copy (x ∷ key) oft bytes = copy key (oft + 1) (update bytes oft x)

-- The writing of a key at the end of an entry; a write behind the array is a fault.
pub write : List ℕ → Entry → Outcome Entry
write key e =
    if ltb e.size (e.w_oft + length key)
    then fault
    else ok (record e { bytes = copy key e.w_oft e.bytes; w_oft = (e.w_oft + length key) % 2 ^ 64 })

-- `Put`; the difference of two uint64_t wraps around.
pub put : List ℕ → Log → Outcome Log
put key l =
    if ltb (length key) ((l.tail.size + 2 ^ 64 - l.tail.w_oft) % 2 ^ 64)
    then (do tail ← write key l.tail; ok (record l { tail = tail }))
    else do
      tail ← write key (new_entry l.entry_size)
      ok (record l { before_tail = l.before_tail ++ (l.tail ∷ []); tail = tail })
