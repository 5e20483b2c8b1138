-- ===== src/AepLog/Pool/Lifetime.antt =====
-- The constructor of a log in the pool and runs of `Put`.
use persist_tree_test.Base.{
  ℕ, ◌+◌, ◌≤◌, ◌≡◌, ◌≢◌, refl, sym, ◌∙◌, ap, arith, ◌⊎◌, inl, inr, List, [], ◌∷◌, none, length,
  subst,
}
use persist_tree_test.Base.Outcome.{Outcome, ok, fault, ◌>>=◌}
use persist_tree_test.Node.{Ptr, null}
use persist_tree_test.AepLog
use persist_tree_test.AepLog.{Log}
use persist_tree_test.AepLog.Contents.{put_all}
use persist_tree_test.AepLog.Pool.{Pool, PoolLog, new_entry, init, put}
use persist_tree_test.AepLog.Pool.Chain.{Slot}
use persist_tree_test.AepLog.Pool.Represents.{shown, Represents}
use persist_tree_test.AepLog.Pool.Puts.{put-Agree}

-- A run of `Put` calls; what call `i` allocates is at `entry i` and `array i`.
pub puts : (entry array : ℕ → Ptr) → ℕ → List (List ℕ) → PoolLog → Outcome PoolLog
puts entry array i [] s = ok s
puts entry array i (key ∷ keys) s = do
  s' ← put key (entry i) (array i) s
  puts entry array (i + 1) keys s'

-- What is allocated from call `i` on is not in the pool.
pub record Unused (entry array : ℕ → Ptr) (i : ℕ) (pool : Pool) : Type 0 where
  pub entries : (j : ℕ) → i ≤ j → pool.entries (entry j) ≡ none
  pub arrays : (j : ℕ) → i ≤ j → pool.arrays (array j) ≡ none

-- Two outcomes that fail, or the same log, with at most `most` entries before the tail, as objects in
-- the pool and as a list of entries.
abbrev pub Same : ℕ → Outcome PoolLog → Outcome Log → Type 0
Same most o o' =
    ((o ≡ fault) × (o' ≡ fault))
    ⊎ ((s : PoolLog) × (before : List Slot) × (last : Slot) × (o ≡ ok s)
        × (o' ≡ ok (shown before last s.entry_size))
        × Represents s before last
        × (length before ≤ most))

module _ (entry array : ℕ → Ptr) (some_entry : (j : ℕ) → entry j ≢ null)
    (different_entries : (j k : ℕ) → j ≢ k → entry j ≢ entry k)
    (different_arrays : (j k : ℕ) → j ≢ k → array j ≢ array k) where
  puts-Same :
      (keys : List (List ℕ)) (i : ℕ) (s : PoolLog) (before : List Slot) (last : Slot)
      → Represents s before last
      → Unused entry array i s.pool
      → (most : ℕ) → length before + length keys ≤ most
      → Same most (puts entry array i keys s) (put_all keys (shown before last s.entry_size))
  unfolding puts put_all
  puts-Same [] i s before last w unused most le =
      inr (s, before, last, refl, refl, w, omega (arith, le))
  puts-Same (key ∷ keys) i s before last w unused most le =
      elim (put-Agree key (entry i) (array i) s before last w (some_entry i)
        (unused.entries i (omega arith)) (unused.arrays i (omega arith))) [
          | inl (fails, fails') ↦ inl (rw fails refl, rw fails' refl)
          | inr (s', runs, a) ↦
              rw (runs, a.shows)
                (puts-Same keys (i + 1) s' a.before a.last a.result
                  (record {
                    entries = λ j from.
                        a.other_entries (entry j) (different_entries j i (omega arith))
                          (unused.entries j (omega arith));
                    arrays = λ j from.
                        a.other_arrays (array j) (different_arrays j i (omega arith))
                          (unused.arrays j (omega arith));
                  })
                  most (omega (arith, a.grows, le)))
        ]

  -- The constructor, in a pool with nothing in it.
  init-Represents :
      (entry_size : ℕ) (pool : Pool)
      → ((r : Ptr) → pool.entries r ≡ none)
      → ((r : Ptr) → pool.arrays r ≡ none)
      → (last : Slot) × Represents (init (entry 0) (array 0) entry_size pool) [] last
        × (AepLog.init entry_size ≡ shown [] last entry_size)
        × ((init (entry 0) (array 0) entry_size pool).entry_size ≡ entry_size)
        × Unused entry array 1 (init (entry 0) (array 0) entry_size pool).pool
  unfolding init new_entry AepLog.init AepLog.new_entry
  init-Represents entry_size pool no_entries no_arrays = (
    record { at = entry 0; array = array 0; entry = AepLog.new_entry entry_size },
    record {
      chain = (
        refl,
        record { some_address = some_entry 0; found = ground arith; bytes = ground arith },
      );
      at_tail = refl;
      distinct = tt;
      apart = tt;
      owned_entries = λ r ne _. ground (arith, ne) ∙ no_entries r;
      owned_arrays = λ r ne _. ground (arith, ne) ∙ no_arrays r;
    },
    refl,
    refl,
    record {
      entries = λ j le. ground (arith, different_entries j 0 (omega arith)) ∙ no_entries (entry j);
      arrays = λ j le. ground (arith, different_arrays j 0 (omega arith)) ∙ no_arrays (array j);
    },
  )

-- In a pool with nothing in it, with addresses that are not null and different, the constructor and a
-- run of `Put` calls on the objects in the pool fail when they fail on the list of the entries, and
-- otherwise lead to the chain of the entries of that list, of at most one entry for each key behind the
-- first, with nothing else in the pool.
pub puts-Represents :
    (entry array : ℕ → Ptr) (entry_size : ℕ) (pool : Pool) (keys : List (List ℕ))
    → ((j : ℕ) → entry j ≢ null)
    → ((j k : ℕ) → j ≢ k → entry j ≢ entry k)
    → ((j k : ℕ) → j ≢ k → array j ≢ array k)
    → ((r : Ptr) → pool.entries r ≡ none)
    → ((r : Ptr) → pool.arrays r ≡ none)
    → Same
        (length keys)
        (puts entry array 1 keys (init (entry 0) (array 0) entry_size pool))
        (put_all keys (AepLog.init entry_size))
puts-Represents entry array entry_size pool keys some_entry different_entries different_arrays
      no_entries no_arrays =
    let s : PoolLog = init (entry 0) (array 0) entry_size pool in
    let (last, w, shows, same_size, unused) =
      init-Represents entry array some_entry different_entries different_arrays entry_size pool
        no_entries no_arrays in
    subst (λ l. Same (length keys) (puts entry array 1 keys s) (put_all keys l))
      (ap (shown [] last) same_size ∙ sym shows)
      (puts-Same entry array some_entry different_entries different_arrays keys 1 s [] last w unused
        (length keys) (omega arith))
