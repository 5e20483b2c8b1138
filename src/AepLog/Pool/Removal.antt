-- ===== src/AepLog/Pool/Removal.antt =====
-- `AEP_LOG::Get` and `AEP_LOG::Delete` on a log in the pool.
use persist_tree_test.Base.{
  ℕ, zero, suc, ◌+◌, ◌%◌, ◌^◌, ◌<◌, ◌≡◌, ◌≢◌, refl, ◌∙◌, ap, arith, List, [], ◌∷◌, none, Option,
  length, update, ne→==_false, ℕ_discrete,
}
use persist_tree_test.Base.Outcome.{ok, fault}
use persist_tree_test.Node.{Ptr, null}
use persist_tree_test.AepLog.Pool.{
  Pool, PoolLog, load_entry, load_array, put, get_loop, get, delete_array, delete_entry,
  delete_loop, delete,
}
use persist_tree_test.AepLog.Pool.Chain.{
  Slot, Holds, Chain, Away, Unchanged, Chain-change, Holds-unchanged,
}
use persist_tree_test.AepLog.Pool.Represents.{
  Represents, Chain-last, load_entry-Holds, load_array-Holds,
}

get_loop-counts :
    (fuel : ℕ) (pool : Pool) (p : Ptr) (xs : List Slot) (last : Slot) (num : ℕ)
    → Chain pool p xs last
    → length xs + 1 < fuel
    → get_loop fuel pool p num ≡ ok ((num + length xs + 1) % 2 ^ 64)
unfolding get_loop
get_loop-counts zero pool p xs last num c lt = absurd (omega arith)
get_loop-counts (suc zero) pool p xs last num c lt = absurd (omega arith)
get_loop-counts (suc (suc fuel)) pool p [] last num (at, h) lt =
    rw (at, ne→==_false last.at null h.some_address, load_entry-Holds pool last null h)
      (ap ok (omega arith))
get_loop-counts (suc (suc fuel)) pool p (x ∷ xs) last num (at, next, h, c) lt =
    rw (at, ne→==_false x.at null h.some_address, load_entry-Holds pool x next h)
      (get_loop-counts (suc fuel) pool next xs last ((num + 1) % 2 ^ 64) c (omega arith)
        ∙ ap ok (omega arith))

-- `Get` counts the entries.
pub get-counts :
    (fuel : ℕ) (s : PoolLog) (before : List Slot) (last : Slot)
    → Represents s before last
    → length before + 1 < fuel
    → get fuel s ≡ ok ((length before + 1) % 2 ^ 64)
unfolding get
get-counts fuel s before last w lt =
    get_loop-counts fuel s.pool s.head before last 0 w.chain lt ∙ ap ok (omega arith)

-- The pool without the slot.
abbrev without : Slot → Pool → Pool
without x pool = record {
  entries = update pool.entries x.at none;
  arrays = update pool.arrays x.array none;
}

delete_array-Holds :
    (pool : Pool) (x : Slot) (next : Ptr)
    → Holds pool x next
    → delete_array x.array pool ≡ ok (record pool { arrays = update pool.arrays x.array none })
unfolding delete_array
delete_array-Holds pool x next h = rw (load_array-Holds pool x next h) refl

delete_entry-Holds :
    (pool : Pool) (x : Slot) (next : Ptr)
    → Holds pool x next
    → delete_entry x.at (record pool { arrays = update pool.arrays x.array none })
      ≡ ok (without x pool)
unfolding delete_entry load_entry persist_tree_test.AepLog.Pool.found
delete_entry-Holds pool x next h = rw (ne→==_false x.at null h.some_address, h.found) refl

Away-Unchanged :
    (pool : Pool) (x : Slot) (xs : List Slot) → Away x xs → Unchanged pool (without x pool) xs
Away-Unchanged pool x [] a = tt
Away-Unchanged pool x (y ∷ ys) a =
    ((ground (arith, a.0.0), ground (arith, a.0.1)), Away-Unchanged pool x ys a.1)

without_none :
    {A : Type 0} (f : Ptr → Option A) (p r : Ptr) → (r ≢ p → f r ≡ none) → update f p none r ≡ none
without_none f p r owned = elim (ℕ_discrete r p) [
  | yes e ↦ ground (arith, e)
  | no ne ↦ ground (arith, ne) ∙ owned ne
]

-- One round of the loop of `Delete`.
delete_round :
    (fuel : ℕ) (s : PoolLog) (x : Slot) (next : Ptr)
    → s.head ≡ x.at
    → Holds s.pool x next
    → delete_loop (suc fuel) s.head s
      ≡ delete_loop fuel next (record s { pool = without x s.pool; head = next })
unfolding delete_loop
delete_round fuel s x next at h =
    rw
      (
        at,
        ne→==_false x.at null h.some_address,
        load_entry-Holds s.pool x next h,
        delete_array-Holds s.pool x next h,
        delete_entry-Holds s.pool x next h,
      )
      refl

delete_loop_end : (fuel : ℕ) (s : PoolLog) → delete_loop (suc fuel) null s ≡ ok s
unfolding delete_loop
delete_loop_end fuel s = refl

-- The log is gone, and its tail points where it did.
pub record Deleted (s s' : PoolLog) : Type 0 where
  pub no_head : s'.head ≡ null
  pub dangling : s'.tail ≡ s.tail
  pub no_entries : (r : Ptr) → s'.pool.entries r ≡ none
  pub no_arrays : (r : Ptr) → s'.pool.arrays r ≡ none

delete_loop-Deleted :
    (fuel : ℕ) (s : PoolLog) (xs : List Slot) (last : Slot)
    → Represents s xs last
    → length xs + 1 < fuel
    → (s' : PoolLog) × (delete_loop fuel s.head s ≡ ok s') × Deleted s s'
delete_loop-Deleted zero s xs last w lt = absurd (omega arith)
delete_loop-Deleted (suc zero) s xs last w lt = absurd (omega arith)
delete_loop-Deleted (suc (suc fuel)) s [] last w lt =
    let (at, h) = w.chain in
    (
      record s { pool = without last s.pool; head = null },
      delete_round (suc fuel) s last null at h ∙ delete_loop_end fuel _,
      record {
        no_head = refl;
        dangling = refl;
        no_entries = λ r. without_none s.pool.entries last.at r (λ ne. w.owned_entries r ne tt);
        no_arrays = λ r. without_none s.pool.arrays last.array r (λ ne. w.owned_arrays r ne tt);
      },
    )
delete_loop-Deleted (suc (suc fuel)) s (x ∷ xs) last w lt =
    let (at, next, h, c) = w.chain in
    let s1 : PoolLog = record s { pool = without x s.pool; head = next } in
    let held : Holds s.pool last null = Chain-last s.pool next xs last c in
    let w1 : Represents s1 xs last = record {
      chain =
          Chain-change s.pool (without x s.pool) next xs last last refl c
            (Away-Unchanged s.pool x xs w.distinct.0)
            (Holds-unchanged last null (ground (arith, w.apart.0.0)) (ground (arith, w.apart.0.1))
              held);
      at_tail = w.at_tail;
      distinct = w.distinct.1;
      apart = w.apart.1;
      owned_entries =
          λ r ne a. without_none s.pool.entries x.at r (λ ne'. w.owned_entries r ne (ne', a));
      owned_arrays =
          λ r ne a. without_none s.pool.arrays x.array r (λ ne'. w.owned_arrays r ne (ne', a));
    } in
    let (s', runs, gone) = delete_loop-Deleted (suc fuel) s1 xs last w1 (omega (arith, lt)) in
    (
      s',
      delete_round (suc fuel) s x next at h ∙ runs,
      record {
        no_head = gone.no_head;
        dangling = gone.dangling;
        no_entries = gone.no_entries;
        no_arrays = gone.no_arrays;
      },
    )

-- `Delete` frees every entry and every array, and leaves the tail dangling.
pub delete-Deleted :
    (fuel : ℕ) (s : PoolLog) (before : List Slot) (last : Slot)
    → Represents s before last
    → length before + 1 < fuel
    → (s' : PoolLog) × (delete fuel s ≡ ok s') × Deleted s s'
unfolding delete
delete-Deleted fuel s before last w lt = delete_loop-Deleted fuel s before last w lt

-- `Put` on a log whose tail is not in the pool fails.
pub put-dangling :
    (key : List ℕ) (entry array : Ptr) (s : PoolLog)
    → s.pool.entries s.tail ≡ none
    → put key entry array s ≡ fault
unfolding put load_entry persist_tree_test.AepLog.Pool.found
put-dangling key entry array s e = elim (ℕ_discrete s.tail null) [
  | yes at ↦ rw at refl
  | no ne ↦ rw (ne→==_false s.tail null ne, e) refl
]
