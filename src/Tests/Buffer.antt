-- ===== src/Tests/Buffer.antt =====
-- Interleavings of the threads of `SkiplistWriteNVM`.
use persist_tree_test.Base.{◌≡◌, refl, arith, Bool, true, false, some, none, List, [], ◌∷◌, ltb}
use persist_tree_test.CString.Rank.{rank}
use persist_tree_test.WriteBuffer.{
  Key, State, Config, outside, sleeping, Worker, unused, entering, testing_first, looping, popping,
  notifying, running, no_list, deleted, stale, held, crashed, init, insert, insert_at, has_equal,
  next_to, overwrites, call_flush, flush_step, push, realloc, work, take_task, pop, run_flush,
}
use persist_tree_test.WriteBuffer.Runs.{inserts, calls, flushes, works, Run, start, more, idle}
use persist_tree_test.WriteBuffer.Conservation.{queued}
use persist_tree_test.WriteBuffer.Backlog.{IsBounded, Run-IsBounded}
use persist_tree_test.WriteBuffer.Deadlock.{IsStalled, stalls, crashes}
use persist_tree_test.WriteBuffer.Stuck.{
  Later, now, and_then, steps, wakes_up, IsStuck, IsStalled-lasts,
}
use persist_tree_test.WriteBuffer.Crash.{crashes_at_one}
use persist_tree_test.WriteBuffer.Emptied.{crashes_at_end}
use persist_tree_test.WriteBuffer.LateTask.{stalls_late}
use persist_tree_test.WriteBuffer.OneThread.{FailsInRun, one_thread-safe}

abbrev config : Config
config = record { returns = λ _ _. true; key_size = 2; max_size = 3; max_num = 1 }

abbrev k1 : Key
k1 = b'1' ∷ b'1' ∷ []

abbrev k2 : Key
k2 = b'2' ∷ b'2' ∷ b'2' ∷ []

abbrev k3 : Key
k3 = b'3' ∷ b'3' ∷ b'3' ∷ []

abbrev after_one : State
after_one = record {
  queue = [];
  block_skiplist_num = 0;
  is_running = false;
  tasks = 0;
  place = outside;
  skiplist = some (k1 ∷ []);
  cur_size = 2;
  nvm = k2 ∷ [];
}

one_key : Run config (k2 ∷ []) 2 (k1 ∷ []) after_one (idle 2)
unfolding init insert insert_at overwrites
one_key = more start (inserts k1 refl)

again_k1 : insert config k1 after_one ≡ crashed
unfolding insert insert_at overwrites rank
again_k1 = refl

-- An equal key in front of the last one, and one behind it with another between, are not found.
equal_elsewhere :
    (overwrites 1 (b'2' ∷ []) [] ((b'2' ∷ []) ∷ (b'3' ∷ []) ∷ []) ≡ false)
    × (overwrites 1 (b'3' ∷ []) [] ((b'3' ∷ []) ∷ (b'2' ∷ []) ∷ (b'1' ∷ []) ∷ []) ≡ false)
    × (overwrites 1 (b'3' ∷ []) [] ((b'3' ∷ []) ∷ (b'1' ∷ []) ∷ []) ≡ true)
unfolding overwrites has_equal next_to rank
equal_elsewhere = (refl, refl, refl)

abbrev begins_with_1 : Key → Bool
begins_with_1 [] = false
begins_with_1 (x ∷ key) = ltb x b'2'

Run-IsBounded_example : IsBounded config after_one
Run-IsBounded_example = Run-IsBounded config (k2 ∷ []) 2 (omega arith) one_key

abbrev stalled : State
stalled = record {
  queue = (k2 ∷ []) ∷ (k3 ∷ []) ∷ [];
  block_skiplist_num = 2;
  is_running = false;
  tasks = 0;
  place = sleeping;
  skiplist = none;
  cur_size = 3;
  nvm = k1 ∷ [];
}

stalled-IsStalled : IsStalled stalled (idle 2)
stalled-IsStalled = record { asleep = refl; no_tasks = refl; unused_all = (refl, (refl, tt)) }

-- The thread that inserts wakes up for no reason, tests the condition, and sleeps again.
woken_once : Later config stalled (idle 2) [] stalled (idle 2)
unfolding flush_step
woken_once = and_then (and_then now wakes_up) (steps (flushes refl))

abbrev no_keys : List Key
no_keys = []

IsStalled-lasts_example : (no_keys ≡ no_keys) × IsStuck stalled stalled (idle 2)
IsStalled-lasts_example = IsStalled-lasts config stalled (omega arith) stalled-IsStalled woken_once

stalls_example :
    (s : State) × (ws : List Worker) × Run config [] 2 (k2 ∷ k2 ∷ k3 ∷ []) s ws
    × IsStalled s ws
    × (s.queue ≡ (k2 ∷ []) ∷ (k3 ∷ []) ∷ [])
    × (s.nvm ≡ k2 ∷ [])
stalls_example =
    stalls 2 3 [] k2 k2 k3 (omega arith) (omega arith) (omega arith) (omega arith) (omega arith)
      (omega arith)

crashes_example :
    (s : State) × (w v : Worker) × Run
      (record { returns = λ _ _. true; key_size = 2; max_size = 3; max_num = 2 })
      []
      2
      (k2 ∷ k3 ∷ [])
      s
      (w ∷ v ∷ [])
    × (work (record { returns = λ _ _. true; key_size = 2; max_size = 3; max_num = 2 }) v s
        ≡ crashed)
crashes_example = crashes 2 3 [] k2 k3 (omega arith) (omega arith) (omega arith) (omega arith)

crashes_at_one_example :
    (s : State) × Run
      (record { returns = λ _ _. true; key_size = 2; max_size = 2; max_num = 1 })
      []
      2
      (k1 ∷ k2 ∷ k3 ∷ [])
      s
      (looping deleted ∷ running (stale no_list) ∷ [])
    × (s.queue ≡ [])
    × (s.nvm ≡ k1 ∷ k2 ∷ k3 ∷ [])
    × (work
          (record { returns = λ _ _. true; key_size = 2; max_size = 2; max_num = 1 })
          (running (stale no_list))
          s
        ≡ crashed)
crashes_at_one_example =
    crashes_at_one 2 2 [] k1 k2 k3 (omega arith) (omega arith) (omega arith) (omega arith)
      (omega arith) (omega arith)

-- `Flush` is called before any key is inserted.
abbrev before_run : State
before_run = record {
  queue = [];
  block_skiplist_num = 0;
  is_running = true;
  tasks = 0;
  place = outside;
  skiplist = some [];
  cur_size = 0;
  nvm = [];
}

empty_list_held : Run config [] 1 [] before_run (running (held []) ∷ [])
unfolding init call_flush flush_step push realloc work take_task pop
empty_list_held =
    let queued =
      more
        (more (more (more (more start (calls refl)) (flushes refl)) (flushes refl)) (flushes refl))
        (flushes refl) in
    let taken =
      more (more queued (works [] [] unused entering refl))
        (works [] [] entering testing_first refl) in
    let looked =
      more (more taken (works [] [] testing_first (looping no_list) refl))
        (works [] [] (looping no_list) (popping no_list) refl) in
    more (more looked (works [] [] (popping no_list) (notifying (held [])) refl))
      (works [] [] (notifying (held [])) (running (held [])) refl)

one_thread-safe_example : FailsInRun config (running (held [])) before_run
unfolding work run_flush
one_thread-safe_example = one_thread-safe config [] empty_list_held refl

crashes_at_end_example :
    (s : State) × Run
      (record { returns = λ _ _. true; key_size = 2; max_size = 2; max_num = 3 })
      []
      2
      (k1 ∷ [])
      s
      (running (held []) ∷ unused ∷ [])
    × (s.queue ≡ [])
    × (s.nvm ≡ k1 ∷ [])
    × (work
          (record { returns = λ _ _. true; key_size = 2; max_size = 2; max_num = 3 })
          (running (held []))
          s
        ≡ crashed)
crashes_at_end_example = crashes_at_end 2 2 3 [] k1 refl (omega arith) (omega arith)

stalls_late_example :
    (s : State) × (ws : List Worker) × Run
      (record { returns = λ _ _. true; key_size = 2; max_size = 2; max_num = 1 })
      []
      2
      (k1 ∷ k2 ∷ k3 ∷ k1 ∷ [])
      s
      ws
    × IsStalled s ws
    × (s.is_running ≡ true)
    × (s.queue ≡ (k3 ∷ []) ∷ (k1 ∷ []) ∷ [])
    × (s.nvm ≡ k1 ∷ k2 ∷ [])
stalls_late_example =
    stalls_late 2 2 [] k1 k2 k3 k1 (omega arith) (omega arith) (omega arith) (omega arith)
      (omega arith) (omega arith) (omega arith) (omega arith)
