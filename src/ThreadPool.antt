-- ===== src/ThreadPool.antt =====
-- thread_pool.h, class `ThreadPool`: threads that take tasks from a queue. A step is a critical section
-- of `queue_mutex`, the end of a task, or a notification of `condition`. A thread that finds nothing
-- to do sleeps until it is woken.
pub mod Runs
pub mod Order
pub mod Finished
pub mod Drain
use persist_tree_test.Base.{
  ℕ, zero, suc, Bool, true, false, ◌&&◌, ◌||◌, Option, none, some, List, [], ◌∷◌, ◌++◌,
  if◌then◌else◌,
}

-- A thread is before the test of the condition, sleeps in `wait`, runs a task, or has returned.
pub data Worker {ℓ} (T : Type ℓ) : Type ℓ where
  waiting asleep ended : Worker T
  busy : T → Worker T

-- `tasks` and `stop`
pub record Pool {ℓ} (T : Type ℓ) : Type ℓ where
  pub tasks : List T
  pub stop : Bool

-- The constructor: the queue, and `n` threads.
unfoldable pub init {ℓ} : {T : Type ℓ} → Pool T
init = record { tasks = []; stop = false }

abbrev pub launch {ℓ} : {T : Type ℓ} → ℕ → List (Worker T)
launch zero = []
launch (suc n) = waiting ∷ launch n

-- `enqueue`: `none` is the exception of a stopped pool.
unfoldable pub enqueue {ℓ} : {T : Type ℓ} → T → Pool T → Option (Pool T)
enqueue t p = if p.stop then none else some (record p { tasks = p.tasks ++ (t ∷ []) })

-- The first half of the destructor, which then joins the threads.
unfoldable pub stop_all {ℓ} : {T : Type ℓ} → Pool T → Pool T
stop_all p = record p { stop = true }

-- A notification, for a thread: it matters to one that sleeps.
unfoldable pub wake {ℓ} : {T : Type ℓ} → Worker T → Worker T
wake waiting = waiting
wake asleep = waiting
wake (busy t) = busy t
wake ended = ended

-- `notify_all`, in the destructor before the joins
unfoldable pub notify_all {ℓ} : {T : Type ℓ} → List (Worker T) → List (Worker T)
unfolding wake
notify_all [] = []
notify_all (w ∷ ws) = wake w ∷ notify_all ws

-- The critical section of a thread, which sleeps if the condition does not hold.
unfoldable pub take_task {ℓ} : {T : Type ℓ} → Pool T → List T → Worker T × Pool T
take_task p [] = (if p.stop then ended else asleep, p)
take_task p (t ∷ tasks) = (busy t, record p { tasks = tasks })

-- The next step of a thread; `none` is a thread that sleeps or has returned.
unfoldable pub step {ℓ} : {T : Type ℓ} → Worker T → Pool T → Option (Worker T × Pool T)
unfolding take_task
step waiting p = some (take_task p p.tasks)
step asleep p = none
step (busy t) p = some (waiting, p)
step ended p = none
