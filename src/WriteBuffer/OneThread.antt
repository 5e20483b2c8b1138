-- ===== src/WriteBuffer/OneThread.antt =====
-- A pool of one thread.
use persist_tree_test.Base.{
  ℕ, zero, suc, ◌≡◌, ◌≢◌, refl, sym, subst, arith, ◌⊎◌, false, Bool-cases, inl, inr, append-nil,
  if◌then◌else◌, Option, none, some, List, [], ◌∷◌, ◌++◌, All, length, length-append,
}
use persist_tree_test.WriteBuffer.{
  Key, Batch, State, Config, Place, outside, pushing, testing, choosing, waiting, sleeping,
  reallocating, Worker, unused, entering, testing_first, ending, looping, popping, notifying,
  running, stale, held, crashed, insert, insert_at, overwrites, call_flush, push, realloc,
  flush_step, take_task, pop, run_flush, work, is_empty,
}
use persist_tree_test.WriteBuffer.Runs.{
  Step, inserts, calls, flushes, works, Run, start, more, Ensures, Ensures-moves,
}

-- The thread finds a list where it looks for one, and holds one where it runs it.
abbrev pub IsReady : List Batch → Worker → Type 0
IsReady queue unused = Unit
IsReady queue entering = Unit
IsReady queue testing_first = Unit
IsReady queue ending = Unit
IsReady queue (looping f) = Unit
IsReady queue (popping f) = queue ≢ []
IsReady queue (notifying (stale f)) = ⊥
IsReady queue (notifying (held b)) = Unit
IsReady queue (running (stale f)) = ⊥
IsReady queue (running (held b)) = Unit

IsReady-longer :
    (queue added : List Batch) (w : Worker) → IsReady queue w → IsReady (queue ++ added) w
IsReady-longer queue added unused h = tt
IsReady-longer queue added entering h = tt
IsReady-longer queue added testing_first h = tt
IsReady-longer queue added ending h = tt
IsReady-longer queue added (looping f) h = tt
IsReady-longer [] added (popping f) h = absurd (h refl)
IsReady-longer (b ∷ queue) added (popping f) h = λ e. cc
IsReady-longer queue added (notifying (stale f)) h = h
IsReady-longer queue added (notifying (held b)) h = tt
IsReady-longer queue added (running (stale f)) h = h
IsReady-longer queue added (running (held b)) h = tt

-- The thread that inserts only adds to the queue.
abbrev Grows : State → State → Type 0
Grows s s' = (added : List Batch) × (s'.queue ≡ s.queue ++ added)

longer :
    (s s' : State) (ws : List Worker)
    → Grows s s'
    → All (IsReady s.queue) ws
    → All (IsReady s'.queue) ws
longer s s' [] g h = tt
longer s s' (w ∷ ws) (added, e) h = (
  subst (λ q. IsReady q w) (sym e) (IsReady-longer s.queue added w h.0),
  longer s s' ws (added, e) h.1,
)

module _ (c : Config) where
  insert-Grows : (key : Key) (s : State) → Ensures (Grows s) (insert c key s)
  unfolding insert insert_at
  insert-Grows key s = at s.place s.skiplist
    where
      at : (p : Place) (l : Option Batch) → Ensures (Grows s) (insert_at c key p l s)
      at outside (some b) = elim (Bool-cases (overwrites c.key_size key [] b)) [
        | inl e ↦ rw e tt
        | inr e ↦ rw e ([], sym (append-nil s.queue))
      ]
      at outside none = tt
      at pushing l = tt
      at testing l = tt
      at choosing l = tt
      at waiting l = tt
      at sleeping l = tt
      at reallocating l = tt

  call_flush-Grows : (p : Place) (s : State) → Ensures (Grows s) (call_flush p s)
  unfolding call_flush
  call_flush-Grows outside s = ([], sym (append-nil s.queue))
  call_flush-Grows pushing s = tt
  call_flush-Grows testing s = tt
  call_flush-Grows choosing s = tt
  call_flush-Grows waiting s = tt
  call_flush-Grows sleeping s = tt
  call_flush-Grows reallocating s = tt

  flush_step-Grows : (p : Place) (s : State) → Ensures (Grows s) (flush_step c p s)
  unfolding flush_step push realloc
  flush_step-Grows outside s = tt
  flush_step-Grows pushing s = pushed s.skiplist
    where
      pushed : (l : Option Batch) → Ensures (Grows s) (push l s)
      pushed none = tt
      pushed (some b) = (b ∷ [], refl)
  flush_step-Grows testing s = ([], sym (append-nil s.queue))
  flush_step-Grows choosing s = ([], sym (append-nil s.queue))
  flush_step-Grows waiting s = ([], sym (append-nil s.queue))
  flush_step-Grows sleeping s = tt
  flush_step-Grows reallocating s = renewed s.skiplist
    where
      renewed : (l : Option Batch) → Ensures (Grows s) (realloc l s)
      renewed none = ([], sym (append-nil s.queue))
      renewed (some b) = tt

  work-IsReady :
      (w : Worker) (s : State)
      → IsReady s.queue w
      → Ensures (λ (w', s'). IsReady s'.queue w') (work c w s)
  unfolding work take_task pop run_flush
  work-IsReady unused s h = takes s.tasks
    where
      takes : (tasks : ℕ) → Ensures (λ (w', s'). IsReady s'.queue w') (take_task tasks s)
      takes zero = tt
      takes (suc tasks) = tt
  work-IsReady entering s h = tt
  work-IsReady testing_first s h = elim (Bool-cases (is_empty s.queue)) [
    | inl e ↦ rw e tt
    | inr e ↦ rw e tt
  ]
  work-IsReady (looping f) s h = looks s.queue refl
    where
      looks :
          (queue : List Batch)
          → s.queue ≡ queue
          → IsReady s.queue (if is_empty queue then ending else popping f)
      looks [] e = tt
      looks (b ∷ queue) e = λ e'. cc
  work-IsReady (popping f) s h = pops s.queue refl
    where
      pops :
          (queue : List Batch) → s.queue ≡ queue → IsReady (pop f queue s).1.queue (pop f queue s).0
      pops [] e = absurd (h e)
      pops (b ∷ queue) e = tt
  work-IsReady (notifying (stale f)) s h = absurd h
  work-IsReady (notifying (held b)) s h = tt
  work-IsReady (running (stale f)) s h = absurd h
  work-IsReady (running (held [])) s h = tt
  work-IsReady (running (held (k ∷ ks))) s h = elim (Bool-cases (c.returns (k ∷ ks) s.nvm)) [
    | inl e ↦ rw e tt
    | inr e ↦ rw e tt
  ]
  work-IsReady ending s h = tt

  Step-IsReady :
      {s s' : State} {ws ws' : List Worker} {new : List Key}
      → Step c s ws new s' ws'
      → length ws ≡ 1
      → All (IsReady s.queue) ws
      → (length ws' ≡ 1) × All (IsReady s'.queue) ws'
  Step-IsReady {s} {s'} {ws} (inserts key e) len h =
      (len, longer s s' ws (Ensures-moves (Grows s) (insert-Grows key s) e) h)
  Step-IsReady {s} {s'} {ws} (calls e) len h =
      (len, longer s s' ws (Ensures-moves (Grows s) (call_flush-Grows s.place s) e) h)
  Step-IsReady {s} {s'} {ws} (flushes e) len h =
      (len, longer s s' ws (Ensures-moves (Grows s) (flush_step-Grows s.place s) e) h)
  Step-IsReady {s} {s'} (works [] [] w w' e) len h =
      (refl, (Ensures-moves (λ (v, t). IsReady t.queue v) (work-IsReady w s h.0) e, tt))
  Step-IsReady (works [] (v ∷ back) w w' e) len h = absurd (omega arith)
  Step-IsReady (works (v ∷ front) back w w' e) len h =
      absurd (omega (arith, length-append front (w ∷ back)))

Run-IsReady :
    (c : Config) (old : List Key) {keys : List Key} {s : State} {ws : List Worker}
    → Run c old 1 keys s ws
    → (length ws ≡ 1) × All (IsReady s.queue) ws
Run-IsReady c old start = (refl, (tt, tt))
Run-IsReady c old (more r step) =
    let (len, ready) = Run-IsReady c old r in Step-IsReady c step len ready

-- What a thread is at work on when it fails: a call of `Run` on a list that was queued with no key in
-- it, or on a list with keys for which `Run` does not return.
pub FailsInRun : Config → Worker → State → Type 0
FailsInRun c w s = (b : Batch) × (w ≡ running (held b)) × ((b ≡ []) ⊎ (c.returns b s.nvm ≡ false))

-- With one thread in the pool, in every interleaving, the thread fails only in a call of `Run` on a
-- list that it has taken from the queue, and which has no key in it, or has keys for which `Run` does
-- not return: never on a null pointer or on a deleted list.
pub one_thread-safe :
    (c : Config) (old : List Key) {keys : List Key} {s : State} {w : Worker}
    → Run c old 1 keys s (w ∷ [])
    → work c w s ≡ crashed
    → FailsInRun c w s
unfolding work take_task run_flush FailsInRun
one_thread-safe c old {s} {w} r e = fails w s (Run-IsReady c old r).1.0 e
  where
    fails : (v : Worker) (t : State) → IsReady t.queue v → work c v t ≡ crashed → FailsInRun c v t
    fails unused t h e' = absurd (takes t.tasks e')
      where
        takes : (tasks : ℕ) → take_task tasks t ≡ crashed → ⊥
        takes zero e'' = cc
        takes (suc tasks) e'' = cc
    fails entering t h e' = cc
    fails testing_first t h e' = cc
    fails ending t h e' = cc
    fails (looping f) t h e' = cc
    fails (popping f) t h e' = cc
    fails (notifying f) t h e' = cc
    fails (running (stale f)) t h e' = absurd h
    fails (running (held [])) t h e' = ([], refl, inl refl)
    fails (running (held (k ∷ ks))) t h e' = elim (Bool-cases (c.returns (k ∷ ks) t.nvm)) [
      | inl yes_run ↦ cc (rw yes_run at e')
      | inr no_run ↦ (k ∷ ks, refl, inr no_run)
    ]
