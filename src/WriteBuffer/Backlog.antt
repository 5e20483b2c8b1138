-- ===== src/WriteBuffer/Backlog.antt =====
-- The queue of full lists is bounded, and its counter is right.
use persist_tree_test.Base.{
  ℕ, zero, suc, ◌+◌, ◌^◌, ◌<◌, ◌≤◌, ◌≡◌, refl, ◌%◌, subst, ap, arith, Option, none, some, List, [],
  ◌∷◌, ◌++◌, length, length-append, if◌then◌else◌, Bool, true, false, Bool-cases, inl, inr, ltb,
  leb,
}
use persist_tree_test.WriteBuffer.{
  Key, Batch, State, Config, Place, outside, pushing, testing, choosing, waiting, sleeping,
  reallocating, Worker, unused, entering, testing_first, ending, looping, popping, notifying,
  running, stale, held, init, insert, insert_at, overwrites, call_flush, push, realloc, flush_step,
  take_task, pop, run_flush, work, wake,
}
use persist_tree_test.WriteBuffer.Runs.{
  Step, inserts, calls, flushes, works, Run, start, more, Ensures, Ensures-moves,
}

-- The greatest length of the queue when the thread that inserts stands there.
abbrev pub limit : Place → ℕ → ℕ
limit outside max = max
limit pushing max = max
limit testing max = max + 1
limit choosing max = max
limit waiting max = max + 1
limit sleeping max = max + 1
limit reallocating max = max

-- There is a list in DRAM just outside `Flush` and before its first critical section.
abbrev pub HasList : Place → Option Batch → Type 0
HasList outside (some b) = Unit
HasList pushing (some b) = Unit
HasList outside none = ⊥
HasList pushing none = ⊥
HasList testing l = l ≡ none
HasList choosing l = l ≡ none
HasList waiting l = l ≡ none
HasList sleeping l = l ≡ none
HasList reallocating l = l ≡ none

pub record IsBounded (c : Config) (s : State) : Type 0 where
  pub counts : s.block_skiplist_num ≡ length s.queue
  pub within : length s.queue ≤ limit s.place c.max_num
  pub has_list : HasList s.place s.skiplist

module _ (c : Config) (small : c.max_num + 1 < 2 ^ 64) where
  insert-IsBounded :
      (key : Key) (s : State) → IsBounded c s → Ensures (IsBounded c) (insert c key s)
  unfolding insert insert_at
  insert-IsBounded key s b = at s.place s.skiplist refl
    where
      at :
          (p : Place) (l : Option Batch)
          → s.place ≡ p
          → Ensures (IsBounded c) (insert_at c key p l s)
      at outside (some l) e = elim (Bool-cases (overwrites c.key_size key [] l)) [
        | inl t ↦ rw t tt
        | inr t ↦ rw t (added (ltb ((s.cur_size + length key) % 2 ^ 64) c.max_size))
      ]
        where
          added :
              (t : Bool)
              → IsBounded c (record s {
                skiplist = some (l ++ (key ∷ []));
                cur_size = (s.cur_size + length key) % 2 ^ 64;
                place = if t then outside else pushing;
              })
          added true = record {
            counts = b.counts;
            within = subst (λ p. length s.queue ≤ limit p c.max_num) e b.within;
            has_list = tt;
          }
          added false = record {
            counts = b.counts;
            within = subst (λ p. length s.queue ≤ limit p c.max_num) e b.within;
            has_list = tt;
          }
      at outside none e = tt
      at pushing l e = tt
      at testing l e = tt
      at choosing l e = tt
      at waiting l e = tt
      at sleeping l e = tt
      at reallocating l e = tt

  call_flush-IsBounded :
      (p : Place) (s : State) → s.place ≡ p → IsBounded c s → Ensures (IsBounded c) (call_flush p s)
  unfolding call_flush
  call_flush-IsBounded outside s e b = record {
    counts = b.counts;
    within = subst (λ p. length s.queue ≤ limit p c.max_num) e b.within;
    has_list = still s.skiplist (subst (λ p. HasList p s.skiplist) e b.has_list);
  }
    where
      still : (l : Option Batch) → HasList outside l → HasList pushing l
      still (some l) h = tt
      still none h = h
  call_flush-IsBounded pushing s e b = tt
  call_flush-IsBounded testing s e b = tt
  call_flush-IsBounded choosing s e b = tt
  call_flush-IsBounded waiting s e b = tt
  call_flush-IsBounded sleeping s e b = tt
  call_flush-IsBounded reallocating s e b = tt

  flush_step-IsBounded :
      (p : Place) (s : State)
      → s.block_skiplist_num ≡ length s.queue
      → length s.queue ≤ limit p c.max_num
      → HasList p s.skiplist
      → Ensures (IsBounded c) (flush_step c p s)
  unfolding flush_step push realloc
  flush_step-IsBounded outside s num le h = tt
  flush_step-IsBounded pushing s num le h = pushed s.skiplist h
    where
      pushed : (l : Option Batch) → HasList pushing l → Ensures (IsBounded c) (push l s)
      pushed none h' = tt
      pushed (some l) h' = record {
        counts = omega (arith, length-append s.queue (l ∷ []));
        within = omega (arith, length-append s.queue (l ∷ []));
        has_list = refl;
      }
  flush_step-IsBounded testing s num le h = elim (Bool-cases (ltb c.max_num s.block_skiplist_num)) [
    | inl t ↦ rw t (record { counts = num; within = le; has_list = h })
    | inr t ↦ rw t (record { counts = num; within = ground arith; has_list = h })
  ]
  flush_step-IsBounded choosing s num le h = record { counts = num; within = le; has_list = h }
  flush_step-IsBounded waiting s num le h = elim (Bool-cases (leb (length s.queue) c.max_num)) [
    | inl t ↦ rw t (record { counts = num; within = ground arith; has_list = h })
    | inr t ↦ rw t (record { counts = num; within = le; has_list = h })
  ]
  flush_step-IsBounded sleeping s num le h = tt
  flush_step-IsBounded reallocating s num le h = renewed s.skiplist
    where
      renewed : (l : Option Batch) → Ensures (IsBounded c) (realloc l s)
      renewed (some l) = tt
      renewed none = record { counts = num; within = le; has_list = tt }

  work-IsBounded :
      (w : Worker) (s : State) → IsBounded c s → Ensures (λ (w', s'). IsBounded c s') (work c w s)
  unfolding work take_task pop run_flush
  work-IsBounded unused s b = takes s.tasks
    where
      takes : (tasks : ℕ) → Ensures (λ (w', s'). IsBounded c s') (take_task tasks s)
      takes zero = tt
      takes (suc tasks) = record { counts = b.counts; within = b.within; has_list = b.has_list }
  work-IsBounded entering s b = record {
    counts = b.counts;
    within = b.within;
    has_list = b.has_list;
  }
  work-IsBounded testing_first s b = b
  work-IsBounded (looping f) s b = b
  work-IsBounded (popping f) s b = pops s.queue refl
    where
      bounded : (p : Place) → limit p c.max_num ≤ c.max_num + 1
      bounded outside = omega arith
      bounded pushing = omega arith
      bounded testing = omega arith
      bounded choosing = omega arith
      bounded waiting = omega arith
      bounded sleeping = omega arith
      bounded reallocating = omega arith

      pops : (queue : List Batch) → s.queue ≡ queue → IsBounded c (pop f queue s).1
      pops [] e = b
      pops (l ∷ queue) e = record {
        counts = omega (arith, b.counts, ap length e, b.within, bounded s.place);
        within = omega (arith, b.within, ap length e);
        has_list = b.has_list;
      }
  work-IsBounded (notifying f) s b = elim (Bool-cases (leb (length s.queue) c.max_num)) [
    | inl t ↦ rw t (woken s.place b.within b.has_list)
    | inr t ↦ rw t (record { counts = b.counts; within = b.within; has_list = b.has_list })
  ]
    where
      woken :
          (p : Place)
          → length s.queue ≤ limit p c.max_num
          → HasList p s.skiplist
          → IsBounded c (record s { place = wake p })
      woken outside le h = record { counts = b.counts; within = le; has_list = h }
      woken pushing le h = record { counts = b.counts; within = le; has_list = h }
      woken testing le h = record { counts = b.counts; within = le; has_list = h }
      woken choosing le h = record { counts = b.counts; within = le; has_list = h }
      woken waiting le h = record { counts = b.counts; within = le; has_list = h }
      woken sleeping le h = record { counts = b.counts; within = le; has_list = h }
      woken reallocating le h = record { counts = b.counts; within = le; has_list = h }
  work-IsBounded (running (stale f)) s b = tt
  work-IsBounded (running (held [])) s b = tt
  work-IsBounded (running (held (k ∷ ks))) s b = elim (Bool-cases (c.returns (k ∷ ks) s.nvm)) [
    | inl e ↦ rw e (record { counts = b.counts; within = b.within; has_list = b.has_list })
    | inr e ↦ rw e tt
  ]
  work-IsBounded ending s b = record { counts = b.counts; within = b.within; has_list = b.has_list }

  Step-IsBounded :
      {s s' : State} {ws ws' : List Worker} {new : List Key}
      → Step c s ws new s' ws'
      → IsBounded c s
      → IsBounded c s'
  Step-IsBounded {s} (inserts key e) b = Ensures-moves _ (insert-IsBounded key s b) e
  Step-IsBounded {s} (calls e) b = Ensures-moves _ (call_flush-IsBounded s.place s refl b) e
  Step-IsBounded {s} (flushes e) b =
      Ensures-moves _ (flush_step-IsBounded s.place s b.counts b.within b.has_list) e
  Step-IsBounded {s} (works front back w w' e) b =
      Ensures-moves (λ (w', s'). IsBounded c s') (work-IsBounded w s b) e

-- In every interleaving, with a `skiplist_max_num_` below 2^64 - 1: `block_skiplist_num_` is the length
-- of the queue, which is at most `skiplist_max_num_`, and one more between the push of a list and the
-- end of the wait; and there is a list in DRAM whenever a key is inserted or a list is queued.
pub Run-IsBounded :
    (c : Config) (old : List Key) (n : ℕ) {keys : List Key} {s : State} {ws : List Worker}
    → c.max_num + 1 < 2 ^ 64
    → Run c old n keys s ws
    → IsBounded c s
unfolding init
Run-IsBounded c old n small start = record { counts = refl; within = omega arith; has_list = tt }
Run-IsBounded c old n small (more r step) =
    Step-IsBounded c small step (Run-IsBounded c old n small r)
