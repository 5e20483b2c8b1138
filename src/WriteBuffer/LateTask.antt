-- ===== src/WriteBuffer/LateTask.antt =====
-- A task that finds the queue empty at its first look returns and leaves `is_running_` true.
use persist_tree_test.Base.{ℕ, ◌^◌, ◌<◌, ◌≤◌, ◌≡◌, refl, true, List, [], ◌∷◌, ◌++◌, length}
use persist_tree_test.WriteBuffer.{
  Key, State, Config, Worker, unused, entering, testing_first, flush_step, take_task, work, init,
}
use persist_tree_test.WriteBuffer.Runs.{flushes, works, Run, idle}
use persist_tree_test.WriteBuffer.Episodes.{silently, queue_list, choose}
use persist_tree_test.WriteBuffer.Crash.{late_task}
use persist_tree_test.WriteBuffer.Deadlock.{IsStalled}

-- With a `skiplist_max_num_` of 1 and a pool of two threads, when `Run` returns for lists with keys, four keys that each fill a list can leave
-- the threads stuck for ever, though every task that was enqueued has returned: the first two keys are
-- in NVM, the third and the fourth stay in the queue.
pub stalls_late :
    (key_size max_size : ℕ) (old : List Key) (k1 k2 k3 k4 : Key)
    → max_size ≤ length k1
    → max_size ≤ length k2
    → max_size ≤ length k3
    → max_size ≤ length k4
    → length k1 < 2 ^ 64
    → length k2 < 2 ^ 64
    → length k3 < 2 ^ 64
    → length k4 < 2 ^ 64
    → (s : State) × (ws : List Worker) × Run
        (record { returns = λ _ _. true; key_size = key_size; max_size = max_size; max_num = 1 })
        old
        2
        (k1 ∷ k2 ∷ k3 ∷ k4 ∷ [])
        s
        ws
      × IsStalled s ws
      × (s.is_running ≡ true)
      × (s.queue ≡ (k3 ∷ []) ∷ (k4 ∷ []) ∷ [])
      × (s.nvm ≡ (old ++ (k1 ∷ [])) ++ (k2 ∷ []))
unfolding flush_step take_task work
stalls_late key_size max_size old k1 k2 k3 k4 f1 f2 f3 f4 s1 s2 s3 s4 =
    let c : Config = record {
      returns = λ _ _. true;
      key_size = key_size;
      max_size = max_size;
      max_num = 1;
    } in
    let nvm : List Key = (old ++ (k1 ∷ [])) ++ (k2 ∷ []) in
    let one : List Worker = unused ∷ [] in
    let r = late_task key_size max_size old k1 k2 f1 f2 s1 s2 in
    let w1 = silently c (init old) (idle 2) r (works [] one unused entering refl) in
    let w2 = silently c (init old) (idle 2) w1 (works [] one entering testing_first refl) in
    let w3 = silently c (init old) (idle 2) w2 (works [] one testing_first unused refl) in
    let q1 =
      silently c (init old) (idle 2) (queue_list c (init old) (idle 2) k3 [] 0 true 0 nvm f3 s3 w3)
        (flushes refl) in
    let q2 = choose c (init old) (idle 2) ((k3 ∷ []) ∷ []) 1 true 0 (length k3) nvm q1 in
    let p1 = queue_list c (init old) (idle 2) k4 ((k3 ∷ []) ∷ []) 1 true 0 nvm f4 s4 q2 in
    let p2 =
      silently c (init old) (idle 2) (silently c (init old) (idle 2) p1 (flushes refl))
        (flushes refl) in
    (
      _,
      _,
      p2,
      record { asleep = refl; no_tasks = refl; unused_all = (refl, (refl, tt)) },
      refl,
      refl,
      refl,
    )
