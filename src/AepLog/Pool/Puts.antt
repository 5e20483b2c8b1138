-- ===== src/AepLog/Pool/Puts.antt =====
-- `AEP_LOG::Put` on the objects in the pool, against `Put` on the list of the entries.
use mathlib.Core.List.{map-append}
use persist_tree_test.Base.{
  ℕ, ◌+◌, ◌-◌, ◌%◌, ◌^◌, ◌≡◌, ◌≢◌, refl, sym, ◌∙◌, ap, arith, ◌⊎◌, inl, inr, List, [], ◌∷◌, ◌++◌,
  some, none, All-left, All-right, length, length-append, ltb, true, false, Bool-cases, update,
}
use persist_tree_test.Base.Outcome.{Outcome, ok, fault}
use persist_tree_test.Node.{Ptr, null}
use persist_tree_test.AepLog
use persist_tree_test.AepLog.{Entry, Log, copy, write}
use persist_tree_test.AepLog.Pool.{Pool, PoolLog, new_entry, put}
use persist_tree_test.AepLog.Pool.Chain.{
  Slot, Holds, Away, Unchanged, Chain-change, Chain-extend, Chain-Away, Distinct-append,
  unused_elsewhere, Holds-unchanged,
}
use persist_tree_test.AepLog.Pool.Represents.{
  shown, Represents, Agreed, Chain-last, load_entry-Holds, write_at-Holds, filled,
}

-- Both fail, or both succeed with the same entries.
abbrev pub Agree :
    (entry array : Ptr) → List Slot → PoolLog → Outcome PoolLog → Outcome Log → Type 0
Agree entry array old s o o' =
    ((o ≡ fault) × (o' ≡ fault)) ⊎ ((s' : PoolLog) × (o ≡ ok s') × Agreed entry array old s s' o')

-- Changes at two entries leave others as they are.
Away-Unchanged :
    (pool pool' : Pool) (a b : Slot) (xs : List Slot)
    → Away a xs
    → Away b xs
    → ((r : Ptr) → r ≢ a.at → r ≢ b.at → pool'.entries r ≡ pool.entries r)
    → ((r : Ptr) → r ≢ a.array → r ≢ b.array → pool'.arrays r ≡ pool.arrays r)
    → Unchanged pool pool' xs
Away-Unchanged pool pool' a b [] away away' e f = tt
Away-Unchanged pool pool' a b (x ∷ xs) away away' e f = (
  (e x.at away.0.0 away'.0.0, f x.array away.0.1 away'.0.1),
  Away-Unchanged pool pool' a b xs away.1 away'.1 e f,
)

module _ (key : List ℕ) (entry array : Ptr) (s : PoolLog) (before : List Slot) (last : Slot)
    (w : Represents s before last) (some_entry : entry ≢ null)
    (no_entry : s.pool.entries entry ≡ none) (no_array : s.pool.arrays array ≡ none) where
  abbrev holds : Holds s.pool last null
  holds = Chain-last s.pool s.head before last w.chain

  -- There is room in the tail.
  put_in_tail :
      ltb (length key) ((last.entry.size + 2 ^ 64 - last.entry.w_oft) % 2 ^ 64) ≡ true
      → Agree entry array before s
          (put key entry array s)
          (AepLog.put key (shown before last s.entry_size))
  unfolding put AepLog.put
  put_in_tail room = elim (write_at-Holds key s.pool last null holds) [
    | inl (fails, fails') ↦ inl (
      rw (w.at_tail, load_entry-Holds s.pool last null holds, room, fails) refl,
      rw (room, fails') refl,
    )
    | inr (pool, runs, runs', held, entries, arrays) ↦ inr (
      record s { pool = pool },
      rw (w.at_tail, load_entry-Holds s.pool last null holds, room, runs) refl,
      record {
        before = before;
        last = filled key last;
        shows = rw (room, runs') refl;
        result = record {
          chain =
              Chain-change s.pool pool s.head before last (filled key last) refl w.chain
                (Away-Unchanged s.pool pool last last before w.apart w.apart
                  (λ r ne _. entries r ne) (λ r ne _. arrays r ne))
                held;
          at_tail = w.at_tail;
          distinct = w.distinct;
          apart = w.apart;
          owned_entries = λ r ne a. entries r ne ∙ w.owned_entries r ne a;
          owned_arrays = λ r ne a. arrays r ne ∙ w.owned_arrays r ne a;
        };
        same_size = refl;
        grows = omega arith;
        other_entries = λ r _ e. entries r (unused_elsewhere s.pool.entries e holds.found) ∙ e;
        other_arrays = λ r _ e. arrays r (unused_elsewhere s.pool.arrays e holds.bytes) ∙ e;
      },
    )
  ]

  abbrev new : Slot
  new = record { at = entry; array = array; entry = AepLog.new_entry s.entry_size }

  abbrev made : Pool
  made = new_entry entry array s.entry_size s.pool

  -- The pool with the new entry behind the tail.
  abbrev linked : Pool
  linked = record {
    entries = update made.entries last.at (
        some (record {
          array = last.array;
          w_oft = last.entry.w_oft;
          size = last.entry.size;
          next = entry;
        }));
    arrays = made.arrays;
  }

  at_other : last.at ≢ entry
  at_other e = unused_elsewhere s.pool.entries no_entry holds.found (sym e)

  array_other : last.array ≢ array
  array_other e = unused_elsewhere s.pool.arrays no_array holds.bytes (sym e)

  made-Holds : Holds made last null
  unfolding new_entry
  made-Holds =
      Holds-unchanged last null (ground (arith, at_other)) (ground (arith, array_other)) holds

  linked-Holds : Holds linked last entry × Holds linked new null
  unfolding new_entry AepLog.new_entry
  linked-Holds = (
    record {
      some_address = holds.some_address;
      found = ground arith;
      bytes = ground (arith, array_other) ∙ holds.bytes;
    },
    record { some_address = some_entry; found = ground (arith, at_other); bytes = ground arith },
  )

  others : (r : Ptr) → r ≢ last.at → r ≢ entry → linked.entries r ≡ s.pool.entries r
  unfolding new_entry
  others r ne ne' = ground (arith, ne, ne')

  other_arrays : (r : Ptr) → r ≢ array → linked.arrays r ≡ s.pool.arrays r
  unfolding new_entry
  other_arrays r ne = ground (arith, ne)

  -- The log with the new entry, in which the key has been written.
  new-Represents :
      (pool : Pool)
      → Holds pool (filled key new) null
      → ((r : Ptr) → r ≢ entry → pool.entries r ≡ linked.entries r)
      → ((r : Ptr) → r ≢ array → pool.arrays r ≡ linked.arrays r)
      → Represents (record s { pool = pool; tail = entry }) (before ++ (last ∷ [])) (filled key new)
  new-Represents pool held entries arrays =
      let away : Away new (before ++ (last ∷ [])) =
        Chain-Away s.pool s.head before last new no_entry no_array w.chain in
      record {
        chain =
            Chain-extend s.pool pool s.head before last (filled key new) w.chain
              (Away-Unchanged s.pool pool last new before w.apart
                (All-left _ before (last ∷ []) away) (λ r ne ne'. entries r ne' ∙ others r ne ne')
                (λ r ne ne'. arrays r ne' ∙ other_arrays r ne'))
              (Holds-unchanged last entry (entries last.at at_other) (arrays last.array array_other)
                linked-Holds.0)
              held;
        at_tail = refl;
        distinct = Distinct-append before last w.distinct w.apart;
        apart = away;
        owned_entries = λ r ne a.
            let (ne', _) = All-right _ before (last ∷ []) a in
            entries r ne
            ∙ others r ne' ne
            ∙ w.owned_entries r ne' (All-left _ before (last ∷ []) a);
        owned_arrays = λ r ne a.
            arrays r ne
            ∙ other_arrays r ne
            ∙ w.owned_arrays r (All-right _ before (last ∷ []) a).0
                (All-left _ before (last ∷ []) a);
      }

  -- There is no room in the tail, and a new entry is made.
  put_in_new :
      ltb (length key) ((last.entry.size + 2 ^ 64 - last.entry.w_oft) % 2 ^ 64) ≡ false
      → Agree entry array before s
          (put key entry array s)
          (AepLog.put key (shown before last s.entry_size))
  unfolding put AepLog.put AepLog.new_entry
  put_in_new full = elim (write_at-Holds key linked new null linked-Holds.1) [
    | inl (fails, fails') ↦ inl (
      rw
          (
            w.at_tail,
            load_entry-Holds s.pool last null holds,
            full,
            load_entry-Holds made last null made-Holds,
            fails,
          )
          refl,
      rw (full, fails') refl,
    )
    | inr (pool, runs, runs', held, entries, arrays) ↦ inr (
      record s { pool = pool; tail = entry },
      rw
          (
            w.at_tail,
            load_entry-Holds s.pool last null holds,
            full,
            load_entry-Holds made last null made-Holds,
            runs,
          )
          refl,
      record {
        before = before ++ (last ∷ []);
        last = filled key new;
        shows =
            rw (full, runs')
              (ap
                (λ es. ok (record {
                  before_tail = es;
                  tail = (filled key new).entry;
                  entry_size = s.entry_size;
                }))
                (sym (map-append (λ x. x.entry) before (last ∷ []))));
        result = new-Represents pool held entries arrays;
        same_size = refl;
        grows = omega (arith, length-append before (last ∷ []));
        other_entries = λ r ne e.
            entries r ne ∙ others r (unused_elsewhere s.pool.entries e holds.found) ne ∙ e;
        other_arrays = λ r ne e. arrays r ne ∙ other_arrays r ne ∙ e;
      },
    )
  ]

  pub put-Agree :
      Agree entry array before s
        (put key entry array s)
        (AepLog.put key (shown before last s.entry_size))
  put-Agree =
      elim (Bool-cases
        (ltb (length key) ((last.entry.size + 2 ^ 64 - last.entry.w_oft) % 2 ^ 64))) [
          | inl room ↦ put_in_tail room
          | inr full ↦ put_in_new full
        ]
