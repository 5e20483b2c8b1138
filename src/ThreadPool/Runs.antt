-- ===== src/ThreadPool/Runs.antt =====
-- The interleavings of the threads of a pool and of those that use it.
use persist_tree_test.Base.{ℕ, ◌≡◌, some, List, [], ◌∷◌, ◌++◌}
use persist_tree_test.ThreadPool.{
  Pool, Worker, waiting, asleep, busy, ended, init, launch, enqueue, stop_all, notify_all, wake,
  step,
}

-- The task that a thread runs.
abbrev pub in_hand {ℓ} : {T : Type ℓ} → Worker T → List T
in_hand waiting = []
in_hand asleep = []
in_hand ended = []
in_hand (busy t) = t ∷ []

-- A step, with the tasks that it enqueues, takes from the queue and finishes. `notify_one` wakes any
-- thread, and so does `wait` without a notification.
pub data Step {ℓ} {T : Type ℓ}
    : Pool T
      → List (Worker T)
      → (enqueued taken finished : List T) → Pool T
      → List (Worker T)
      → Type ℓ where
  enqueues :
      {p p' : Pool T} {ws : List (Worker T)} (t : T)
      → enqueue t p ≡ some p'
      → Step p ws (t ∷ []) [] [] p' ws
  notifies_one :
      {p : Pool T} (front back : List (Worker T)) (w : Worker T)
      → Step p (front ++ (w ∷ back)) [] [] [] p (front ++ (wake w ∷ back))
  stops : {p : Pool T} {ws : List (Worker T)} → Step p ws [] [] [] (stop_all p) ws
  notifies_all : {p : Pool T} {ws : List (Worker T)} → Step p ws [] [] [] p (notify_all ws)
  works :
      {p p' : Pool T} (front back : List (Worker T)) (w w' : Worker T)
      → step w p ≡ some (w', p')
      → Step p (front ++ (w ∷ back)) [] (in_hand w') (in_hand w) p' (front ++ (w' ∷ back))

-- A run of a new pool of `n` threads, with the tasks enqueued, taken and finished so far.
pub data Run {ℓ} {T : Type ℓ} (n : ℕ)
    : (enqueued taken finished : List T) → Pool T → List (Worker T) → Type ℓ where
  start : Run n [] [] [] init (launch n)
  more :
      {es ts fs es' ts' fs' : List T} {p p' : Pool T} {ws ws' : List (Worker T)}
      → Run n es ts fs p ws
      → Step p ws es' ts' fs' p' ws'
      → Run n (es ++ es') (ts ++ ts') (fs ++ fs') p' ws'
