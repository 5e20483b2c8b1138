-- ===== src/WriteBuffer/Episodes.antt =====
-- Parts of interleavings in which one thread makes several steps.
use persist_tree_test.Base.{
  ℕ, suc, ◌+◌, ◌%◌, ◌^◌, ◌<◌, ◌≤◌, ◌≡◌, refl, arith, subst, Bool, true, false, Option, none, some,
  List, [], ◌∷◌, ◌++◌, append-nil, length, le→ltb_false, leb, if◌then◌else◌,
}
use persist_tree_test.WriteBuffer.{
  Key, Batch, State, Config, Place, outside, pushing, testing, choosing, Worker, unused, entering,
  testing_first, looping, popping, notifying, running, Stale, no_list, deleted, held, init, insert,
  insert_at, overwrites, push, realloc, flush_step, take_task, pop, run_flush, work, wake,
}
use persist_tree_test.WriteBuffer.Runs.{Step, inserts, flushes, works, idle, From, Run, start, more}

-- A state, with what the thread that inserts has at its place.
abbrev pub state : Place → Option Batch → ℕ → List Batch → ℕ → Bool → ℕ → List Key → State
state place skiplist size queue num seen tasks nvm = record {
  queue = queue;
  block_skiplist_num = num;
  is_running = seen;
  tasks = tasks;
  place = place;
  skiplist = skiplist;
  cur_size = size;
  nvm = nvm;
}

-- The thread is outside the class, with an empty list in DRAM.
abbrev pub waits : List Batch → ℕ → Bool → ℕ → List Key → State
waits = state outside (some []) 0

-- The thread has queued its list, and is before a test of `Flush`.
abbrev pub flushing : Place → ℕ → List Batch → ℕ → Bool → ℕ → List Key → State
flushing place size = state place none size

module _ (c : Config) (s0 : State) (ws0 : List Worker) where
  -- A step that inserts no key.
  pub silently :
      {keys : List Key} {s s' : State} {ws ws' : List Worker}
      → From c s0 ws0 keys s ws
      → Step c s ws [] s' ws'
      → From c s0 ws0 keys s' ws'
  silently {keys} {s'} {ws'} r step =
      subst (λ ks. From c s0 ws0 ks s' ws') (append-nil keys) (more r step)

  -- `Insert` of a key that fills the list in DRAM, up to the test of `block_skiplist_num_`.
  pub queue_list :
      {keys : List Key} {ws : List Worker} (key : Key) (q : List Batch) (num : ℕ) (b : Bool)
      (tasks : ℕ) (nvm : List Key)
      → c.max_size ≤ length key
      → length key < 2 ^ 64
      → From c s0 ws0 keys (waits q num b tasks nvm) ws
      → From c s0 ws0
          (keys ++ (key ∷ []))
          (flushing testing (length key) (q ++ ((key ∷ []) ∷ [])) ((num + 1) % 2 ^ 64) b tasks nvm)
          ws
  unfolding insert insert_at overwrites flush_step push
  queue_list key q num b tasks nvm full small r =
      let size : (0 + length key) % 2 ^ 64 ≡ length key = omega arith in
      silently
        (more r (
          inserts {s' = state pushing (some (key ∷ [])) (length key) q num b tasks nvm} key
            (rw (size, le→ltb_false (length key) c.max_size full) refl)))
        (flushes refl)

  -- A list is queued without waiting: a task is enqueued if none is seen to run.
  pub choose :
      {keys : List Key} {ws : List Worker} (q : List Batch) (num : ℕ) (b : Bool) (tasks size : ℕ)
      (nvm : List Key)
      → From c s0 ws0 keys (flushing choosing size q num b tasks nvm) ws
      → From c s0 ws0 keys (waits q num b (if b then tasks else tasks + 1) nvm) ws
  unfolding flush_step realloc
  choose q num b tasks size nvm r = silently (silently r (flushes refl)) (flushes refl)

  -- A thread of the pool takes a task and comes to the critical section.
  pub take_list :
      {keys : List Key} (front back : List Worker) (k : Batch) (q : List Batch) (num : ℕ) (b : Bool)
      (tasks : ℕ) (nvm : List Key)
      → From c s0 ws0 keys (waits (k ∷ q) num b (suc tasks) nvm) (front ++ (unused ∷ back))
      → From c s0 ws0 keys (waits (k ∷ q) num true tasks nvm) (front ++ (popping no_list ∷ back))
  unfolding work take_task
  take_list front back k q num b tasks nvm r =
      let r1 = silently r (works front back unused entering refl) in
      let r2 = silently r1 (works front back entering testing_first refl) in
      let r3 = silently r2 (works front back testing_first (looping no_list) refl) in
      silently r3 (works front back (looping no_list) (popping no_list) refl)

  -- From the critical section to the end of `Run`, for the only list in the queue.
  pub write_batch :
      {keys : List Key} (front back : List Worker) (f : Stale) (key : Key) (rest : Batch)
      (p : Place) (l : Option Batch) (size : ℕ) (b : Bool) (tasks : ℕ) (nvm : List Key)
      → wake p ≡ p
      → c.returns (key ∷ rest) nvm ≡ true
      → From c s0 ws0 keys
          (state p l size ((key ∷ rest) ∷ []) 1 b tasks nvm)
          (front ++ (popping f ∷ back))
      → From c s0 ws0 keys
          (state p l size [] 0 b tasks (nvm ++ (key ∷ rest)))
          (front ++ (looping deleted ∷ back))
  unfolding work pop run_flush
  write_batch {keys} front back f key rest p l size b tasks nvm awake ok_run r =
      let h : Worker = notifying (held (key ∷ rest)) in
      let v : Worker = running (held (key ∷ rest)) in
      let r1 = silently r (works front back (popping f) h refl) in
      let r2 = silently r1 (works front back h v refl) in
      let r2' : From c s0 ws0 keys (state p l size [] 0 b tasks nvm) (front ++ (v ∷ back)) =
        subst (λ q. From c s0 ws0 keys (state q l size [] 0 b tasks nvm) (front ++ (v ∷ back)))
          (stays (leb 0 c.max_num)) r2 in
      silently r2' (works front back v (looping deleted) (rw ok_run refl))
    where
      stays : (t : Bool) → (if t then wake p else p) ≡ p
      stays true = awake
      stays false = refl

  -- The same for a list of one key.
  pub write_list :
      {keys : List Key} (front back : List Worker) (f : Stale) (key : Key) (p : Place)
      (l : Option Batch) (size : ℕ) (b : Bool) (tasks : ℕ) (nvm : List Key)
      → wake p ≡ p
      → c.returns (key ∷ []) nvm ≡ true
      → From c s0 ws0 keys
          (state p l size ((key ∷ []) ∷ []) 1 b tasks nvm)
          (front ++ (popping f ∷ back))
      → From c s0 ws0 keys
          (state p l size [] 0 b tasks (nvm ++ (key ∷ [])))
          (front ++ (looping deleted ∷ back))
  write_list front back f key p l size b tasks nvm awake ok_run r =
      write_batch front back f key [] p l size b tasks nvm awake ok_run r

-- With a pool of two threads, the first list of one key is queued and written, and the thread that
-- wrote it is before its next look at the queue.
pub first_written :
    (key_size max_size max_num : ℕ) (old : List Key) (key : Key)
    → leb 1 max_num ≡ true
    → max_size ≤ length key
    → length key < 2 ^ 64
    → Run
        (record {
          returns = λ _ _. true;
          key_size = key_size;
          max_size = max_size;
          max_num = max_num;
        })
        old
        2
        (key ∷ [])
        (waits [] 0 true 0 (old ++ (key ∷ [])))
        (looping deleted ∷ unused ∷ [])
unfolding init flush_step
first_written key_size max_size max_num old key some_num full small =
    let c : Config = record {
      returns = λ _ _. true;
      key_size = key_size;
      max_size = max_size;
      max_num = max_num;
    } in
    let r0 : Run c old 2 [] (waits [] 0 false 0 old) (idle 2) = start in
    let r1 = queue_list c (init old) (idle 2) key [] 0 false 0 old full small r0 in
    let r2 : Run c old 2 (key ∷ []) (flushing choosing (length key) ((key ∷ []) ∷ []) 1 false 0 old)
        (idle 2) =
      silently c (init old) (idle 2) r1 (flushes (ground (arith, some_num))) in
    let r3 = choose c (init old) (idle 2) ((key ∷ []) ∷ []) 1 false 0 (length key) old r2 in
    let r4 = take_list c (init old) (idle 2) [] (unused ∷ []) (key ∷ []) [] 1 false 0 old r3 in
    write_list c (init old) (idle 2) [] (unused ∷ []) no_list key outside (some []) 0 true 0 old
      refl refl r4
