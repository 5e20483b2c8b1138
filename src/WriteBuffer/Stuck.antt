-- ===== src/WriteBuffer/Stuck.antt =====
-- Why a stalled write buffer stays as it is.
use persist_tree_test.Base.{
  leb, ◌<◌, ◌≡◌, refl, sym, ap, subst, ◌∙◌, arith, if◌then◌else◌, Option, false, List, [], ◌∷◌,
  ◌++◌, All, All-right, length,
}
use persist_tree_test.WriteBuffer.{
  Key, State, Config, Batch, Place, outside, pushing, testing, choosing, waiting, sleeping,
  reallocating, wake, Worker, unused, Move, moves, blocked, insert, insert_at, call_flush,
  flush_step, take_task, work,
}
use persist_tree_test.WriteBuffer.Runs.{
  Step, inserts, calls, flushes, works, Ensures, Ensures-moves,
}
use persist_tree_test.WriteBuffer.Deadlock.{IsStalled}

blocked-moves {ℓ} : {A : Type ℓ} {a : A} → ◌≡◌ {A = Move A} blocked (moves a) → ⊥
blocked-moves e = cc

-- A step, or the end of the call of `wait` without a notification, to a state in which the condition is
-- tested again.
pub data Goes (c : Config) : State → List Worker → List Key → State → List Worker → Type 0 where
  steps :
      {s s' : State} {ws ws' : List Worker} {new : List Key}
      → Step c s ws new s' ws'
      → Goes c s ws new s' ws'
  wakes_up : {s : State} {ws : List Worker} → Goes c s ws [] (record s { place = wake s.place }) ws

-- Any number of these, with the keys inserted.
pub data Later (c : Config) (s0 : State) (ws0 : List Worker)
    : List Key → State → List Worker → Type 0 where
  now : Later c s0 ws0 [] s0 ws0
  and_then :
      {keys new : List Key} {s s' : State} {ws ws' : List Worker}
      → Later c s0 ws0 keys s ws
      → Goes c s ws new s' ws'
      → Later c s0 ws0 (keys ++ new) s' ws'

-- In the call of `wait`, awake or asleep.
abbrev pub InWait : Place → Type 0
InWait waiting = Unit
InWait sleeping = Unit
InWait outside = ⊥
InWait pushing = ⊥
InWait testing = ⊥
InWait choosing = ⊥
InWait reallocating = ⊥

-- The queue and NVM of `s` are unchanged, and nobody can change them.
pub record IsStuck (s : State) (s' : State) (ws' : List Worker) : Type 0 where
  pub in_wait : InWait s'.place
  pub no_tasks : s'.tasks ≡ 0
  pub unused_all : All (λ w. w ≡ unused) ws'
  pub same_queue : s'.queue ≡ s.queue
  pub same_nvm : s'.nvm ≡ s.nvm

module _ (c : Config) (s : State) (too_long : c.max_num < length s.queue) where
  flush_step-IsStuck :
      (p : Place) (t : State) (ws : List Worker)
      → InWait p
      → IsStuck s t ws
      → Ensures (λ t'. IsStuck s t' ws) (flush_step c p t)
  unfolding flush_step
  flush_step-IsStuck outside t ws h k = absurd h
  flush_step-IsStuck pushing t ws h k = absurd h
  flush_step-IsStuck testing t ws h k = absurd h
  flush_step-IsStuck choosing t ws h k = absurd h
  flush_step-IsStuck reallocating t ws h k = absurd h
  flush_step-IsStuck sleeping t ws h k = tt
  flush_step-IsStuck waiting t ws h k = record {
    in_wait =
        let over : leb (length t.queue) c.max_num ≡ false =
          ground (arith, too_long, ap length k.same_queue) in
        subst (λ b. InWait (if b then reallocating else sleeping)) (sym over) tt;
    no_tasks = k.no_tasks;
    unused_all = k.unused_all;
    same_queue = k.same_queue;
    same_nvm = k.same_nvm;
  }

  insert-blocked :
      (key : Key) (p : Place) (l : Option Batch) (t : State)
      → InWait p
      → insert_at c key p l t ≡ blocked
  unfolding insert_at
  insert-blocked key outside l t h = absurd h
  insert-blocked key pushing l t h = absurd h
  insert-blocked key testing l t h = absurd h
  insert-blocked key choosing l t h = absurd h
  insert-blocked key reallocating l t h = absurd h
  insert-blocked key waiting l t h = refl
  insert-blocked key sleeping l t h = refl

  call_flush-blocked : (p : Place) (t : State) → InWait p → call_flush p t ≡ blocked
  unfolding call_flush
  call_flush-blocked outside t h = absurd h
  call_flush-blocked pushing t h = absurd h
  call_flush-blocked testing t h = absurd h
  call_flush-blocked choosing t h = absurd h
  call_flush-blocked reallocating t h = absurd h
  call_flush-blocked waiting t h = refl
  call_flush-blocked sleeping t h = refl

  wake-InWait : (p : Place) → InWait p → InWait (wake p)
  wake-InWait outside h = h
  wake-InWait pushing h = h
  wake-InWait testing h = h
  wake-InWait choosing h = h
  wake-InWait reallocating h = h
  wake-InWait waiting h = tt
  wake-InWait sleeping h = tt

  Goes-IsStuck :
      {t t' : State} {ws ws' : List Worker} {new : List Key}
      → IsStuck s t ws
      → Goes c t ws new t' ws'
      → (new ≡ []) × IsStuck s t' ws'
  unfolding insert work take_task
  Goes-IsStuck {t} k wakes_up = (
    refl,
    record {
      in_wait = wake-InWait t.place k.in_wait;
      no_tasks = k.no_tasks;
      unused_all = k.unused_all;
      same_queue = k.same_queue;
      same_nvm = k.same_nvm;
    },
  )
  Goes-IsStuck {t} k (steps (inserts key e)) =
      absurd (blocked-moves (sym (insert-blocked key t.place t.skiplist t k.in_wait) ∙ e))
  Goes-IsStuck {t} k (steps (calls e)) =
      absurd (blocked-moves (sym (call_flush-blocked t.place t k.in_wait) ∙ e))
  Goes-IsStuck {t} {ws} k (steps (flushes e)) =
      (refl, Ensures-moves (λ t'. IsStuck s t' ws) (flush_step-IsStuck t.place t ws k.in_wait k) e)
  Goes-IsStuck {t} k (steps (works front back w w' e)) =
      let free : w ≡ unused = (All-right _ front (w ∷ back) k.unused_all).0 in
      absurd (blocked-moves (rw (free, k.no_tasks) at e))

  -- In a stalled state with more lists in the queue than `skiplist_max_num_`, everything stays as it is for
  -- ever: after any number of steps, and of ends of the call of `wait` without a notification, no key
  -- has been inserted, the queue and NVM are the same, no task waits, no thread of the pool has one, and
  -- the thread that inserts is still in the call of `wait`.
  pub IsStalled-lasts :
      {ws : List Worker} {s' : State} {ws' : List Worker} {keys : List Key}
      → IsStalled s ws
      → Later c s ws keys s' ws'
      → (keys ≡ []) × IsStuck s s' ws'
  IsStalled-lasts st now = (
    refl,
    record {
      in_wait = subst InWait (sym st.asleep) tt;
      no_tasks = st.no_tasks;
      unused_all = st.unused_all;
      same_queue = refl;
      same_nvm = refl;
    },
  )
  IsStalled-lasts st (and_then {keys} {new} l g) =
      let (no_keys, k) = IsStalled-lasts st l in
      let (none_new, k') = Goes-IsStuck k g in (rw (no_keys, none_new) refl, k')
