-- ===== src/WriteBuffer/Deadlock.antt =====
-- The store of false at the end of `CallThread` comes after its last look at the queue.
use persist_tree_test.Base.{
  ℕ, ◌^◌, ◌<◌, ◌≤◌, ◌≡◌, refl, true, false, some, List, [], ◌∷◌, ◌++◌, All, length,
}
use persist_tree_test.WriteBuffer.{
  Key, State, Config, outside, sleeping, Worker, unused, ending, looping, popping, notifying,
  running, no_list, deleted, stale, held, crashed, init, flush_step, pop, run_flush, work,
}
use persist_tree_test.WriteBuffer.Runs.{flushes, works, idle, Run, start}
use persist_tree_test.WriteBuffer.Episodes.{
  waits, silently, queue_list, choose, take_list, write_list, first_written,
}

-- The thread that inserts sleeps, and the pool has nothing to do.
pub record IsStalled (s : State) (ws : List Worker) : Type 0 where
  pub asleep : s.place ≡ sleeping
  pub no_tasks : s.tasks ≡ 0
  pub unused_all : All (λ w. w ≡ unused) ws

-- With a `skiplist_max_num_` of 1 and a pool of two threads, when `Run` returns for lists with keys,
-- three keys that each fill a list can leave the threads stuck for ever: the first is in NVM, the second and the third stay in the queue.
pub stalls :
    (key_size max_size : ℕ) (old : List Key) (k1 k2 k3 : Key)
    → max_size ≤ length k1
    → max_size ≤ length k2
    → max_size ≤ length k3
    → length k1 < 2 ^ 64
    → length k2 < 2 ^ 64
    → length k3 < 2 ^ 64
    → (s : State) × (ws : List Worker) × Run
        (record { returns = λ _ _. true; key_size = key_size; max_size = max_size; max_num = 1 })
        old
        2
        (k1 ∷ k2 ∷ k3 ∷ [])
        s
        ws
      × IsStalled s ws
      × (s.queue ≡ (k2 ∷ []) ∷ (k3 ∷ []) ∷ [])
      × (s.nvm ≡ old ++ (k1 ∷ []))
unfolding init flush_step work pop run_flush
stalls key_size max_size old k1 k2 k3 f1 f2 f3 s1 s2 s3 =
    let c : Config = record {
      returns = λ _ _. true;
      key_size = key_size;
      max_size = max_size;
      max_num = 1;
    } in
    let nvm : List Key = old ++ (k1 ∷ []) in
    let one : List Worker = unused ∷ [] in
    let r1 = first_written key_size max_size 1 old k1 refl f1 s1 in
    let w1 = silently c (init old) (idle 2) r1 (works [] one (looping deleted) ending refl) in
    let q1 = queue_list c (init old) (idle 2) k2 [] 0 true 0 nvm f2 s2 w1 in
    let q2 = silently c (init old) (idle 2) q1 (flushes refl) in
    let q3 = choose c (init old) (idle 2) ((k2 ∷ []) ∷ []) 1 true 0 (length k2) nvm q2 in
    let w2 = silently c (init old) (idle 2) q3 (works [] one ending unused refl) in
    let p1 = queue_list c (init old) (idle 2) k3 ((k2 ∷ []) ∷ []) 1 false 0 nvm f3 s3 w2 in
    let p2 = silently c (init old) (idle 2) p1 (flushes refl) in
    let p3 = silently c (init old) (idle 2) p2 (flushes refl) in
    (
      _,
      _,
      p3,
      record { asleep = refl; no_tasks = refl; unused_all = (refl, (refl, tt)) },
      refl,
      refl,
    )

-- With a `skiplist_max_num_` of 2 and a pool of two threads, two keys that each fill a list can lead
-- to a state in which a thread of the pool calls `Run` on no list.
pub crashes :
    (key_size max_size : ℕ) (old : List Key) (k1 k2 : Key)
    → max_size ≤ length k1
    → max_size ≤ length k2
    → length k1 < 2 ^ 64
    → length k2 < 2 ^ 64
    → (s : State) × (w v : Worker) × Run
        (record { returns = λ _ _. true; key_size = key_size; max_size = max_size; max_num = 2 })
        old
        2
        (k1 ∷ k2 ∷ [])
        s
        (w ∷ v ∷ [])
      × (work
            (record {
              returns = λ _ _. true;
              key_size = key_size;
              max_size = max_size;
              max_num = 2;
            })
            v
            s
          ≡ crashed)
unfolding init flush_step work pop run_flush
crashes key_size max_size old k1 k2 f1 f2 s1 s2 =
    let c : Config = record {
      returns = λ _ _. true;
      key_size = key_size;
      max_size = max_size;
      max_num = 2;
    } in
    let r0 : Run c old 2 [] (waits [] 0 false 0 old) (idle 2) = start in
    let r1 =
      silently c (init old) (idle 2) (queue_list c (init old) (idle 2) k1 [] 0 false 0 old f1 s1 r0)
        (flushes refl) in
    let r2 = choose c (init old) (idle 2) ((k1 ∷ []) ∷ []) 1 false 0 (length k1) old r1 in
    let q1 =
      silently c (init old) (idle 2)
        (queue_list c (init old) (idle 2) k2 ((k1 ∷ []) ∷ []) 1 false 1 old f2 s2 r2)
        (flushes refl) in
    let q2 =
      choose c (init old) (idle 2) ((k1 ∷ []) ∷ (k2 ∷ []) ∷ []) 2 false 1 (length k2) old q1 in
    let back : List Worker = unused ∷ [] in
    let h1 : Worker = notifying (held (k1 ∷ [])) in
    let v1 : Worker = running (held (k1 ∷ [])) in
    let w1 = take_list c (init old) (idle 2) [] back (k1 ∷ []) ((k2 ∷ []) ∷ []) 2 false 1 old q2 in
    let w2 = silently c (init old) (idle 2) w1 (works [] back (popping no_list) h1 refl) in
    let w3 = silently c (init old) (idle 2) w2 (works [] back h1 v1 refl) in
    let w4 = silently c (init old) (idle 2) w3 (works [] back v1 (looping deleted) refl) in
    let w5 =
      silently c (init old) (idle 2) w4 (works [] back (looping deleted) (popping deleted) refl) in
    let nvm : List Key = old ++ (k1 ∷ []) in
    let b1 =
      take_list c (init old) (idle 2) (popping deleted ∷ []) [] (k2 ∷ []) [] 1 true 0 nvm w5 in
    let w6 =
      write_list c (init old) (idle 2) [] (popping no_list ∷ []) deleted k2 outside (some []) 0 true
        0 nvm refl refl b1 in
    let front : List Worker = looping deleted ∷ [] in
    let b2 =
      silently c (init old) (idle 2) w6
        (works front [] (popping no_list) (notifying (stale no_list)) refl) in
    let b3 =
      silently c (init old) (idle 2) b2
        (works front [] (notifying (stale no_list)) (running (stale no_list)) refl) in
    (_, _, _, b3, refl)
