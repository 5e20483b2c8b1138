-- ===== src/WriteBuffer/Crash.antt =====
-- A task that is enqueued late finds the queue empty, or one thread more than there are lists.
use persist_tree_test.Base.{
  ℕ, ◌^◌, ◌<◌, ◌≤◌, ◌≡◌, refl, true, false, some, none, List, [], ◌∷◌, ◌++◌, length,
}
use persist_tree_test.WriteBuffer.{
  Key, State, Config, outside, choosing, Worker, unused, ending, looping, popping, notifying,
  running, no_list, deleted, stale, crashed, flush_step, pop, work, init,
}
use persist_tree_test.WriteBuffer.Runs.{flushes, works, Run, idle}
use persist_tree_test.WriteBuffer.Episodes.{
  waits, silently, queue_list, choose, take_list, write_list, first_written,
}

-- A thread of the pool writes the second list before `Flush` tests `is_running_`: a task is enqueued
-- with nothing to do.
pub late_task :
    (key_size max_size : ℕ) (old : List Key) (k1 k2 : Key)
    → max_size ≤ length k1
    → max_size ≤ length k2
    → length k1 < 2 ^ 64
    → length k2 < 2 ^ 64
    → Run
        (record { returns = λ _ _. true; key_size = key_size; max_size = max_size; max_num = 1 })
        old
        2
        (k1 ∷ k2 ∷ [])
        (waits [] 0 false 1 ((old ++ (k1 ∷ [])) ++ (k2 ∷ [])))
        (unused ∷ unused ∷ [])
unfolding flush_step work
late_task key_size max_size old k1 k2 f1 f2 s1 s2 =
    let c : Config = record {
      returns = λ _ _. true;
      key_size = key_size;
      max_size = max_size;
      max_num = 1;
    } in
    let one : List Worker = unused ∷ [] in
    let nvm : List Key = old ++ (k1 ∷ []) in
    let r1 = first_written key_size max_size 1 old k1 refl f1 s1 in
    let q1 = queue_list c (init old) (idle 2) k2 [] 0 true 0 nvm f2 s2 r1 in
    let q2 = silently c (init old) (idle 2) q1 (flushes refl) in
    let w1 =
      silently c (init old) (idle 2) q2 (works [] one (looping deleted) (popping deleted) refl) in
    let w2 =
      write_list c (init old) (idle 2) [] one deleted k2 choosing none (length k2) true 0 nvm refl
        refl w1 in
    let w3 = silently c (init old) (idle 2) w2 (works [] one (looping deleted) ending refl) in
    let w4 = silently c (init old) (idle 2) w3 (works [] one ending unused refl) in
    choose c (init old) (idle 2) [] 0 false 0 (length k2) (nvm ++ (k2 ∷ [])) w4

-- With a `skiplist_max_num_` of 1, the least that the driver takes, and a pool of two threads, when
-- `Run` returns for lists with keys, three keys that each fill a list can lead to a state in which all
-- keys are in NVM and the queue is empty, one thread has written the last list and is back at the loop of `CallThread`, and the other, which
-- found the queue empty in its critical section, is about to call `Run` on no list, which fails.
pub crashes_at_one :
    (key_size max_size : ℕ) (old : List Key) (k1 k2 k3 : Key)
    → max_size ≤ length k1
    → max_size ≤ length k2
    → max_size ≤ length k3
    → length k1 < 2 ^ 64
    → length k2 < 2 ^ 64
    → length k3 < 2 ^ 64
    → (s : State) × Run
        (record { returns = λ _ _. true; key_size = key_size; max_size = max_size; max_num = 1 })
        old
        2
        (k1 ∷ k2 ∷ k3 ∷ [])
        s
        (looping deleted ∷ running (stale no_list) ∷ [])
      × (s.queue ≡ [])
      × (s.nvm ≡ ((old ++ (k1 ∷ [])) ++ (k2 ∷ [])) ++ (k3 ∷ []))
      × (work
            (record {
              returns = λ _ _. true;
              key_size = key_size;
              max_size = max_size;
              max_num = 1;
            })
            (running (stale no_list))
            s
          ≡ crashed)
unfolding flush_step work pop
crashes_at_one key_size max_size old k1 k2 k3 f1 f2 f3 s1 s2 s3 =
    let c : Config = record {
      returns = λ _ _. true;
      key_size = key_size;
      max_size = max_size;
      max_num = 1;
    } in
    let nvm : List Key = (old ++ (k1 ∷ [])) ++ (k2 ∷ []) in
    let r = late_task key_size max_size old k1 k2 f1 f2 s1 s2 in
    let q1 =
      silently c (init old) (idle 2) (queue_list c (init old) (idle 2) k3 [] 0 false 1 nvm f3 s3 r)
        (flushes refl) in
    let q2 = choose c (init old) (idle 2) ((k3 ∷ []) ∷ []) 1 false 1 (length k3) nvm q1 in
    let a1 = take_list c (init old) (idle 2) [] (unused ∷ []) (k3 ∷ []) [] 1 false 1 nvm q2 in
    let b1 =
      take_list c (init old) (idle 2) (popping no_list ∷ []) [] (k3 ∷ []) [] 1 true 0 nvm a1 in
    let a2 =
      write_list c (init old) (idle 2) [] (popping no_list ∷ []) no_list k3 outside (some []) 0 true
        0 nvm refl refl b1 in
    let front : List Worker = looping deleted ∷ [] in
    let b2 =
      silently c (init old) (idle 2) a2
        (works front [] (popping no_list) (notifying (stale no_list)) refl) in
    let b3 =
      silently c (init old) (idle 2) b2
        (works front [] (notifying (stale no_list)) (running (stale no_list)) refl) in
    (_, b3, refl, refl, refl)
