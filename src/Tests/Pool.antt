-- ===== src/Tests/Pool.antt =====
-- Interleavings of a pool of one thread, with numbers for tasks.
use persist_tree_test.Base.{
  ℕ, ◌+◌, ◌*◌, ◌≤◌, ◌≡◌, refl, arith, Bool, true, false, ◌⊎◌, none, List, [], ◌∷◌, ◌++◌, All,
  length, count, ltb,
}
use persist_tree_test.ThreadPool.{
  Pool, Worker, waiting, asleep, busy, ended, init, enqueue, stop_all, notify_all, wake, step,
  take_task,
}
use persist_tree_test.ThreadPool.Runs.{enqueues, stops, works, Run, start, more}
use persist_tree_test.ThreadPool.Order.{Run-fifo}
use persist_tree_test.ThreadPool.Finished.{HasEnded, Run-finished}
use persist_tree_test.ThreadPool.Drain.{Joining, none_yet, one_more, stopped-ends}

abbrev first : List ℕ
first = 3 ∷ []

abbrev second : List ℕ
second = 4 ∷ []

abbrev both : List ℕ
both = 3 ∷ 4 ∷ []

abbrev pool : List ℕ → Pool ℕ
pool tasks = record { tasks = tasks; stop = false }

abbrev stopped_pool : List ℕ → Pool ℕ
stopped_pool tasks = record { tasks = tasks; stop = true }

enqueue_stopped : enqueue 5 (stopped_pool (3 ∷ [])) ≡ none
unfolding enqueue
enqueue_stopped = refl

two_enqueued : Run 1 (3 ∷ 4 ∷ []) [] [] (pool (3 ∷ 4 ∷ [])) (waiting ∷ [])
unfolding init enqueue
two_enqueued = more (more start (enqueues 3 refl)) (enqueues 4 refl)

one_taken : Run 1 (3 ∷ 4 ∷ []) (3 ∷ []) [] (pool (4 ∷ [])) (busy 3 ∷ [])
unfolding step take_task
one_taken = more two_enqueued (works [] [] waiting (busy 3) refl)

Run-fifo_example : first ++ second ≡ both
Run-fifo_example = Run-fifo one_taken

stopped_early : Run 1 (3 ∷ 4 ∷ []) (3 ∷ []) [] (stopped_pool (4 ∷ [])) (busy 3 ∷ [])
unfolding stop_all
stopped_early = more one_taken stops

all_ended : Run 1 (3 ∷ 4 ∷ []) (3 ∷ 4 ∷ []) (3 ∷ 4 ∷ []) (stopped_pool []) (ended ∷ [])
unfolding step take_task
all_ended =
    more
      (more
        (more (more stopped_early (works [] [] (busy 3) waiting refl))
          (works [] [] waiting (busy 4) refl))
        (works [] [] (busy 4) waiting refl))
      (works [] [] waiting ended refl)

abbrev is_small : ℕ → Bool
is_small t = ltb t 4

Run-finished_example : (true ≡ true) × (both ≡ both) × (count is_small both ≡ count is_small both)
Run-finished_example = Run-finished is_small 1 (omega arith) all_ended (tt, tt)

abbrev sleeping_one : List (Worker ℕ)
sleeping_one = asleep ∷ []

abbrev busy_one : List (Worker ℕ)
busy_one = busy 4 ∷ []

-- A thread that sleeps, and does not see a task before it is notified.
asleep_while_enqueued : Run 1 (4 ∷ []) [] [] (pool (4 ∷ [])) (asleep ∷ [])
unfolding init enqueue step take_task
asleep_while_enqueued = more (more start (works [] [] waiting asleep refl)) (enqueues 4 refl)

asleep-stays : step asleep (pool (4 ∷ [])) ≡ none
unfolding step
asleep-stays = refl

joins_once :
    Joining 1 (stopped_pool (4 ∷ [])) (notify_all sleeping_one) (stopped_pool []) (busy 4 ∷ [])
unfolding step take_task notify_all wake
joins_once = one_more [] [] waiting (busy 4) none_yet refl

stopped-ends_example :
    (1 ≤ 2 * length second + 2 * length sleeping_one)
    × (All HasEnded busy_one
        ⊎ ((p : Pool ℕ) × (ws : List (Worker ℕ)) × Joining 2
              (stopped_pool (4 ∷ []))
              (notify_all sleeping_one)
              p
              ws))
stopped-ends_example = stopped-ends sleeping_one refl joins_once
