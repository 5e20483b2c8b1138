-- ===== src/AepLog/Pool/Represents.antt =====
-- The objects in the pool against the log as a list of entries.
use persist_tree_test.Base.{
  ℕ, ◌≤◌, ◌+◌, ◌%◌, ◌^◌, ◌≡◌, ◌≢◌, refl, arith, ◌⊎◌, inl, inr, List, [], ◌∷◌, some, none, All, map,
  length, ltb, Bool-cases, update, ne→==_false,
}
use persist_tree_test.Base.Outcome.{Outcome, ok, fault}
use persist_tree_test.Node.{Ptr, null}
use persist_tree_test.AepLog
use persist_tree_test.AepLog.{Entry, Log, copy, write}
use persist_tree_test.AepLog.Pool.{
  LogEntry, Array, Pool, PoolLog, load_entry, load_array, new_entry, write_at, put,
}
use persist_tree_test.AepLog.Pool.Chain.{Slot, Holds, Chain, Away, Distinct}

-- The log that the entries make.
abbrev pub shown : List Slot → Slot → ℕ → Log
shown before last entry_size = record {
  before_tail = map (λ x. x.entry) before;
  tail = last.entry;
  entry_size = entry_size;
}

-- The chain from the head ends at the tail, the entries and the arrays are all different, and nothing
-- else is in the pool.
pub record Represents (s : PoolLog) (before : List Slot) (last : Slot) : Type 0 where
  pub chain : Chain s.pool s.head before last
  pub at_tail : s.tail ≡ last.at
  pub distinct : Distinct before
  pub apart : Away last before
  pub owned_entries : (r : Ptr) → r ≢ last.at → All (λ x. r ≢ x.at) before → s.pool.entries r ≡ none
  pub owned_arrays :
      (r : Ptr) → r ≢ last.array → All (λ x. r ≢ x.array) before → s.pool.arrays r ≡ none

-- A `Put` that succeeds on the objects and on the list; `old` are the entries before the tail so far.
pub record Agreed (entry array : Ptr) (old : List Slot) (s s' : PoolLog) (o : Outcome Log)
    : Type 0 where
  pub before : List Slot
  pub last : Slot
  pub shows : o ≡ ok (shown before last s'.entry_size)
  pub result : Represents s' before last
  pub same_size : s'.entry_size ≡ s.entry_size
  pub grows : length before ≤ length old + 1
  pub other_entries : (r : Ptr) → r ≢ entry → s.pool.entries r ≡ none → s'.pool.entries r ≡ none
  pub other_arrays : (r : Ptr) → r ≢ array → s.pool.arrays r ≡ none → s'.pool.arrays r ≡ none

-- The last entry of a chain.
pub Chain-last :
    (pool : Pool) (p : Ptr) (xs : List Slot) (last : Slot)
    → Chain pool p xs last
    → Holds pool last null
Chain-last pool p [] last c = c.1
Chain-last pool p (x ∷ xs) last (_, next, _, c) = Chain-last pool next xs last c

pub load_entry-Holds :
    (pool : Pool) (x : Slot) (next : Ptr)
    → Holds pool x next
    → load_entry x.at pool
      ≡ ok (record { array = x.array; w_oft = x.entry.w_oft; size = x.entry.size; next = next })
unfolding load_entry persist_tree_test.AepLog.Pool.found
load_entry-Holds pool x next h = rw (ne→==_false x.at null h.some_address, h.found) refl

pub load_array-Holds :
    (pool : Pool) (x : Slot) (next : Ptr)
    → Holds pool x next
    → load_array x.array pool ≡ ok (record { length = x.entry.size; bytes = x.entry.bytes })
unfolding load_array persist_tree_test.AepLog.Pool.found
load_array-Holds pool x next h = rw h.bytes refl

-- The slot after a key has been written at the end of its entry.
abbrev pub filled : List ℕ → Slot → Slot
filled key x = record x {
  entry = record x.entry {
    bytes = copy key x.entry.w_oft x.entry.bytes;
    w_oft = (x.entry.w_oft + length key) % 2 ^ 64;
  };
}

-- Writing in an entry of the pool is writing in the entry.
pub write_at-Holds :
    (key : List ℕ) (pool : Pool) (x : Slot) (next : Ptr)
    → Holds pool x next
    → ((write_at key x.at pool ≡ fault) × (write key x.entry ≡ fault))
      ⊎ ((pool' : Pool) × (write_at key x.at pool ≡ ok pool')
          × (write key x.entry ≡ ok (filled key x).entry)
          × Holds pool' (filled key x) next
          × ((r : Ptr) → r ≢ x.at → pool'.entries r ≡ pool.entries r)
          × ((r : Ptr) → r ≢ x.array → pool'.arrays r ≡ pool.arrays r))
unfolding write_at write
write_at-Holds key pool x next h =
    elim (Bool-cases (ltb x.entry.size (x.entry.w_oft + length key))) [
      | inl behind ↦ inl (
        rw (load_entry-Holds pool x next h, load_array-Holds pool x next h, behind) refl,
        rw behind refl,
      )
      | inr fits ↦ inr (
        record {
          entries = update pool.entries x.at (
              some (record {
                array = x.array;
                w_oft = (x.entry.w_oft + length key) % 2 ^ 64;
                size = x.entry.size;
                next = next;
              }));
          arrays = update pool.arrays x.array (
              some
                (record { length = x.entry.size; bytes = copy key x.entry.w_oft x.entry.bytes }));
        },
        rw (load_entry-Holds pool x next h, load_array-Holds pool x next h, fits) refl,
        rw fits refl,
        record { some_address = h.some_address; found = ground arith; bytes = ground arith },
        (λ r ne. ground (arith, ne)),
        (λ r ne. ground (arith, ne)),
      )
    ]
