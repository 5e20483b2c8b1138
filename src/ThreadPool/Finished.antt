-- ===== src/ThreadPool/Finished.antt =====
-- What the threads of a pool have done when they have all returned.
use persist_tree_test.Base.{
  ℕ, zero, suc, ◌+◌, ◌<◌, ◌≡◌, refl, ◌∙◌, ap, sym, arith, Bool, true, false, List, [], ◌∷◌, ◌++◌,
  append-nil, append_assoc, some, All, All-append, All-map, All-left, All-right, length,
  length-append, count, count-append,
}
use persist_tree_test.ThreadPool.{
  Pool, Worker, waiting, asleep, busy, ended, init, launch, enqueue, stop_all, wake, notify_all,
}
use persist_tree_test.ThreadPool.Runs.{
  Step, enqueues, notifies_one, stops, notifies_all, works, Run, start, more, in_hand,
}
use persist_tree_test.ThreadPool.Order.{
  IfSome-some, Moved, step-Moved, enqueue-tasks, IsDone, Run-fifo,
}

-- The thread has returned.
abbrev pub HasEnded {ℓ} : {T : Type ℓ} → Worker T → Type 0
HasEnded waiting = ⊥
HasEnded asleep = ⊥
HasEnded (busy t) = ⊥
HasEnded ended = Unit

length-launch {ℓ} : (T : Type ℓ) (n : ℕ) → length (launch {T = T} n) ≡ n
length-launch T zero = refl
length-launch T (suc n) = omega (arith, length-launch T n)

module _ {ℓ} {T : Type ℓ} where
  -- The tasks in hand.
  abbrev pub all_in_hand : List (Worker T) → List T
  all_in_hand [] = []
  all_in_hand (w ∷ ws) = in_hand w ++ all_in_hand ws

  all_in_hand-append :
      (ws vs : List (Worker T)) → all_in_hand (ws ++ vs) ≡ all_in_hand ws ++ all_in_hand vs
  all_in_hand-append [] vs = refl
  all_in_hand-append (w ∷ ws) vs =
      ap (λ ts. in_hand w ++ ts) (all_in_hand-append ws vs)
      ∙ sym (append_assoc (in_hand w) (all_in_hand ws) (all_in_hand vs))

  all_in_hand-ended : (ws : List (Worker T)) → All HasEnded ws → all_in_hand ws ≡ []
  all_in_hand-ended [] h = refl
  all_in_hand-ended (waiting ∷ ws) h = absurd h.0
  all_in_hand-ended (asleep ∷ ws) h = absurd h.0
  all_in_hand-ended (busy t ∷ ws) h = absurd h.0
  all_in_hand-ended (ended ∷ ws) h = all_in_hand-ended ws h.1

  all_in_hand-launch : (n : ℕ) → all_in_hand (launch {T = T} n) ≡ []
  all_in_hand-launch zero = refl
  all_in_hand-launch (suc n) = all_in_hand-launch n

  launch-IsDone : (p : Pool T) (n : ℕ) → All (IsDone p) (launch n)
  launch-IsDone p zero = tt
  launch-IsDone p (suc n) = (tt, launch-IsDone p n)

  -- Nothing is added to the queue of a pool in which a thread has returned.
  IsDone-enqueue :
      (t : T) (p p' : Pool T) (w : Worker T) → enqueue t p ≡ some p' → IsDone p w → IsDone p' w
  IsDone-enqueue t p p' waiting e d = tt
  IsDone-enqueue t p p' asleep e d = tt
  IsDone-enqueue t p p' (busy u) e d = tt
  IsDone-enqueue t p p' ended e d =
      let running : p.stop ≡ false = (IfSome-some _ (enqueue-tasks t p) e).1 in absurd cc

  IsDone-stop : (p : Pool T) (w : Worker T) → IsDone p w → IsDone (stop_all p) w
  unfolding stop_all
  IsDone-stop p waiting d = tt
  IsDone-stop p asleep d = tt
  IsDone-stop p (busy t) d = tt
  IsDone-stop p ended d = (refl, d.1)

  nothing_left : (xs ys : List T) → xs ++ ys ≡ [] → ys ≡ []
  nothing_left [] ys e = e
  nothing_left (x ∷ xs) ys e = cc

  IsDone-works : (p p' : Pool T) (v w w' : Worker T) → Moved p w w' p' → IsDone p v → IsDone p' v
  IsDone-works p p' waiting w w' m d = tt
  IsDone-works p p' asleep w w' m d = tt
  IsDone-works p p' (busy t) w w' m d = tt
  IsDone-works p p' ended w w' m d =
      (m.same_stop ∙ d.0, nothing_left (in_hand w') p'.tasks (m.queue ∙ d.1))

  wake-same :
      (p : Pool T) (w : Worker T)
      → (IsDone p w → IsDone p (wake w)) × (in_hand (wake w) ≡ in_hand w)
  unfolding wake
  wake-same p waiting = (λ d. d, refl)
  wake-same p asleep = (λ d. d, refl)
  wake-same p (busy t) = (λ d. d, refl)
  wake-same p ended = (λ d. d, refl)

  notify_all-IsDone :
      (p : Pool T) (ws : List (Worker T))
      → All (IsDone p) ws
      → All (IsDone p) (notify_all ws) × (length (notify_all ws) ≡ length ws)
  unfolding notify_all
  notify_all-IsDone p [] d = (tt, refl)
  notify_all-IsDone p (w ∷ ws) d =
      let (rest, len) = notify_all-IsDone p ws d.1 in
      (((wake-same p w).0 d.0, rest), omega (arith, len))

  all_in_hand-notify_all :
      (p : Pool T) (ws : List (Worker T)) → all_in_hand (notify_all ws) ≡ all_in_hand ws
  unfolding notify_all
  all_in_hand-notify_all p [] = refl
  all_in_hand-notify_all p (w ∷ ws) = rw ((wake-same p w).1, all_in_hand-notify_all p ws) refl

  Step-IsDone :
      {p p' : Pool T} {ws ws' : List (Worker T)} {es ts fs : List T}
      → Step p ws es ts fs p' ws'
      → All (IsDone p) ws
      → All (IsDone p') ws' × (length ws' ≡ length ws)
  Step-IsDone {p} {p'} {ws} (enqueues t e) d =
      (All-map (IsDone p) (IsDone p') (λ w. IsDone-enqueue t p p' w e) ws d, refl)
  Step-IsDone {p} (notifies_one front back w) d =
      let (done, all_back) = All-right (IsDone p) front (w ∷ back) d in
      (
        All-append (IsDone p) front (wake w ∷ back) (All-left (IsDone p) front (w ∷ back) d)
            ((wake-same p w).0 done, all_back),
        omega (arith, length-append front (w ∷ back), length-append front (wake w ∷ back)),
      )
  Step-IsDone {p} {ws} notifies_all d = notify_all-IsDone p ws d
  Step-IsDone {p} {ws} stops d =
      (All-map (IsDone p) (IsDone (stop_all p)) (IsDone-stop p) ws d, refl)
  Step-IsDone {p} {p'} (works front back w w' e) d =
      let m = IfSome-some (λ (v, q). Moved p w v q) (step-Moved w p) e in
      let (_, all_back) = All-right (IsDone p) front (w ∷ back) d in
      let each = All-map (IsDone p) (IsDone p') (λ v. IsDone-works p p' v w w' m) in
      (
        All-append (IsDone p') front (w' ∷ back)
            (each front (All-left (IsDone p) front (w ∷ back) d)) (m.done, each back all_back),
        omega (arith, length-append front (w ∷ back), length-append front (w' ∷ back)),
      )

  Run-IsDone :
      {n : ℕ} {es ts fs : List T} {p : Pool T} {ws : List (Worker T)}
      → Run n es ts fs p ws
      → All (IsDone p) ws × (length ws ≡ n)
  Run-IsDone {n} start = (launch-IsDone init n, length-launch T n)
  Run-IsDone (more r s) =
      let (done, len) = Run-IsDone r in
      let (done', len') = Step-IsDone s done in (done', len' ∙ len)

module _ {ℓ} {T : Type ℓ} (test : T → Bool) where
  count_split :
      (front back : List (Worker T)) (v : Worker T)
      → count test (all_in_hand (front ++ (v ∷ back)))
        ≡ count test (all_in_hand front) + (count test (in_hand v) + count test (all_in_hand back))
  count_split front back v =
      ap (count test) (all_in_hand-append front (v ∷ back))
      ∙ count-append test (all_in_hand front) (in_hand v ++ all_in_hand back)
      ∙ ap (λ k. count test (all_in_hand front) + k)
          (count-append test (in_hand v) (all_in_hand back))

  Step-counts :
      {p p' : Pool T} {ws ws' : List (Worker T)} {es ts fs : List T}
      → Step p ws es ts fs p' ws'
      → count test (all_in_hand ws) + count test ts ≡ count test fs + count test (all_in_hand ws')
  Step-counts (enqueues t e) = omega arith
  Step-counts stops = omega arith
  Step-counts {p} (notifies_one front back w) = omega (
    arith,
    count_split front back w,
    count_split front back (wake w),
    ap (count test) (wake-same p w).1,
  )
  Step-counts {p} {ws} notifies_all = omega (arith, ap (count test) (all_in_hand-notify_all p ws))
  Step-counts (works front back w w' e) =
      omega (arith, count_split front back w, count_split front back w')

  Run-counts :
      {n : ℕ} {es ts fs : List T} {p : Pool T} {ws : List (Worker T)}
      → Run n es ts fs p ws
      → count test ts ≡ count test fs + count test (all_in_hand ws)
  Run-counts {n} start = omega (arith, ap (count test) (all_in_hand-launch {T = T} n))
  Run-counts (more {es} {ts} {fs} {es'} {ts'} {fs'} r s) =
      omega (arith, Run-counts r, Step-counts s, count-append test ts ts', count-append test fs fs')

-- When all threads of a pool of at least one thread have returned, in every interleaving, the pool is
-- stopped, every task enqueued has been taken, in order, and has been finished, as often as it was
-- enqueued: of each kind of task, as many are finished as were enqueued.
pub Run-finished {ℓ} :
    {T : Type ℓ} (test : T → Bool) (n : ℕ) {es ts fs : List T} {p : Pool T} {ws : List (Worker T)}
    → 0 < n
    → Run n es ts fs p ws
    → All HasEnded ws
    → (p.stop ≡ true) × (ts ≡ es) × (count test fs ≡ count test es)
Run-finished {T} test n {es} {ts} {fs} {p} {ws} some_thread r all_ended =
    let (stop, tasks) = first ws (Run-IsDone r) all_ended in
    let taken = sym (append-nil ts) ∙ ap (λ q. ts ++ q) (sym tasks) ∙ Run-fifo r in
    let none_in_hand = ap (count test) (all_in_hand-ended ws all_ended) in
    (stop, taken, omega (arith, Run-counts test r, none_in_hand, ap (count test) taken))
  where
    first :
        (vs : List (Worker T))
        → All (IsDone p) vs × (length vs ≡ n)
        → All HasEnded vs
        → (p.stop ≡ true) × (p.tasks ≡ [])
    first [] h e = absurd (omega (arith, h.1, some_thread))
    first (waiting ∷ vs) h e = absurd e.0
    first (asleep ∷ vs) h e = absurd e.0
    first (busy t ∷ vs) h e = absurd e.0
    first (ended ∷ vs) h e = h.0.0
