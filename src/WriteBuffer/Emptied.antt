-- ===== src/WriteBuffer/Emptied.antt =====
-- The last `Flush` of the driver, when the list in DRAM has been queued already.
use persist_tree_test.Base.{
  ℕ, ◌^◌, ◌<◌, ◌≤◌, ◌≡◌, refl, arith, true, false, List, [], ◌∷◌, ◌++◌, length, leb,
}
use persist_tree_test.WriteBuffer.{
  Key, State, Config, choosing, Worker, unused, ending, looping, popping, notifying, running,
  no_list, deleted, held, crashed, call_flush, flush_step, push, pop, work, init,
}
use persist_tree_test.WriteBuffer.Runs.{calls, flushes, works, Run, idle}
use persist_tree_test.WriteBuffer.Episodes.{flushing, silently, choose, take_list, first_written}

-- With a pool of two threads and any `skiplist_max_num_` above 0, when `Run`
-- returns for lists with keys, a call of `Flush` after a key that
-- has filled a list can lead, without any other key, to a state in which the key is in NVM, the queue
-- is empty, and a thread of the pool is about to call `Run` on a list with no key in it, which fails.
pub crashes_at_end :
    (key_size max_size max_num : ℕ) (old : List Key) (key : Key)
    → leb 1 max_num ≡ true
    → max_size ≤ length key
    → length key < 2 ^ 64
    → (s : State) × Run
        (record {
          returns = λ _ _. true;
          key_size = key_size;
          max_size = max_size;
          max_num = max_num;
        })
        old
        2
        (key ∷ [])
        s
        (running (held []) ∷ unused ∷ [])
      × (s.queue ≡ [])
      × (s.nvm ≡ old ++ (key ∷ []))
      × (work
            (record {
              returns = λ _ _. true;
              key_size = key_size;
              max_size = max_size;
              max_num = max_num;
            })
            (running (held []))
            s
          ≡ crashed)
unfolding call_flush flush_step push work pop
crashes_at_end key_size max_size max_num old key some_num full small =
    let c : Config = record {
      returns = λ _ _. true;
      key_size = key_size;
      max_size = max_size;
      max_num = max_num;
    } in
    let one : List Worker = unused ∷ [] in
    let nvm : List Key = old ++ (key ∷ []) in
    let r1 = first_written key_size max_size max_num old key some_num full small in
    let r2 = silently c (init old) (idle 2) r1 (works [] one (looping deleted) ending refl) in
    let r3 = silently c (init old) (idle 2) r2 (works [] one ending unused refl) in
    let q1 =
      silently c (init old) (idle 2) (silently c (init old) (idle 2) r3 (calls refl))
        (flushes refl) in
    let q2 : Run c old 2 (key ∷ []) (flushing choosing 0 ([] ∷ []) 1 false 0 nvm) (unused ∷ one) =
      silently c (init old) (idle 2) q1 (flushes (ground (arith, some_num))) in
    let q3 = choose c (init old) (idle 2) ([] ∷ []) 1 false 0 0 nvm q2 in
    let t1 = take_list c (init old) (idle 2) [] one [] [] 1 false 0 nvm q3 in
    let t2 =
      silently c (init old) (idle 2) t1
        (works [] one (popping no_list) (notifying (held [])) refl) in
    let t3 =
      silently c (init old) (idle 2) t2
        (works [] one (notifying (held [])) (running (held [])) refl) in
    (_, t3, refl, refl, refl)
