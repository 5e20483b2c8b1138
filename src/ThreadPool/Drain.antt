-- ===== src/ThreadPool/Drain.antt =====
-- The end of the destructor: the threads of a stopped pool return.
use persist_tree_test.Base.{
  ℕ, suc, ◌+◌, ◌*◌, ◌≤◌, ◌≡◌, refl, sym, ◌∙◌, ap, subst, arith, Bool, true, false, ◌⊎◌, inl, inr,
  some, if◌then◌else◌, List, [], ◌∷◌, ◌++◌, All, All-append, All-left, All-right, length,
}
use persist_tree_test.ThreadPool.{
  Pool, Worker, waiting, asleep, busy, ended, wake, notify_all, step, take_task,
}
use persist_tree_test.ThreadPool.Order.{IfSome, IfSome-some, Moved, step-Moved}
use persist_tree_test.ThreadPool.Finished.{HasEnded}

module _ {ℓ} {T : Type ℓ} where
  -- A number of steps of the threads, with no call from outside.
  pub data Joining : ℕ → Pool T → List (Worker T) → Pool T → List (Worker T) → Type ℓ where
    none_yet : {p : Pool T} {ws : List (Worker T)} → Joining 0 p ws p ws
    one_more :
        {k : ℕ} {p p' p'' : Pool T} {ws : List (Worker T)} (front back : List (Worker T))
        (w w' : Worker T)
        → Joining k p ws p' (front ++ (w ∷ back))
        → step w p' ≡ some (w', p'')
        → Joining (suc k) p ws p'' (front ++ (w' ∷ back))

  -- A thread of a list that can make a step, and where it stands.
  record CanStep (p : Pool T) (ws : List (Worker T)) : Type ℓ where
    front : List (Worker T)
    back : List (Worker T)
    before : Worker T
    after : Worker T
    left : Pool T
    stands : ws ≡ front ++ (before ∷ back)
    makes : step before p ≡ some (after, left)

  abbrev effort : Worker T → ℕ
  effort waiting = 1
  effort asleep = 0
  effort (busy t) = 2
  effort ended = 0

  abbrev efforts : List (Worker T) → ℕ
  efforts [] = 0
  efforts (w ∷ ws) = effort w + efforts ws

  -- The steps that the threads of a stopped pool can still make, at most.
  abbrev steps_left : Pool T → List (Worker T) → ℕ
  steps_left p ws = 2 * length p.tasks + efforts ws

  efforts-append : (ws vs : List (Worker T)) → efforts (ws ++ vs) ≡ efforts ws + efforts vs
  efforts-append [] vs = omega arith
  efforts-append (w ∷ ws) vs = omega (arith, efforts-append ws vs)

  efforts-bound : (ws : List (Worker T)) → efforts ws ≤ 2 * length ws
  efforts-bound [] = omega arith
  efforts-bound (waiting ∷ ws) = omega (arith, efforts-bound ws)
  efforts-bound (asleep ∷ ws) = omega (arith, efforts-bound ws)
  efforts-bound (busy t ∷ ws) = omega (arith, efforts-bound ws)
  efforts-bound (ended ∷ ws) = omega (arith, efforts-bound ws)

  -- A step takes some of the effort.
  step-effort :
      (w : Worker T) (p : Pool T)
      → IfSome {A = Worker T × Pool T}
          (λ (w', p'). suc (2 * length p'.tasks + effort w') ≤ 2 * length p.tasks + effort w)
          (step w p)
  unfolding step take_task
  step-effort waiting p = takes p.tasks refl
    where
      ends :
          (b : Bool)
          → suc (2 * length p.tasks + effort (if b then ended else asleep)) ≤ 2 * length p.tasks + 1
      ends true = omega arith
      ends false = omega arith

      takes :
          (tasks : List T)
          → p.tasks ≡ tasks
          → suc (2 * length (take_task p tasks).1.tasks + effort (take_task p tasks).0)
            ≤ 2 * length p.tasks + 1
      takes [] e = ends p.stop
      takes (t ∷ tasks) e = omega (arith, ap length e)
  step-effort asleep p = tt
  step-effort (busy t) p = omega arith
  step-effort ended p = tt

  abbrev IsAwake : Worker T → Type 0
  IsAwake asleep = ⊥
  IsAwake waiting = Unit
  IsAwake (busy t) = Unit
  IsAwake ended = Unit

  wake-IsAwake : (w : Worker T) → IsAwake (wake w)
  unfolding wake
  wake-IsAwake waiting = tt
  wake-IsAwake asleep = tt
  wake-IsAwake (busy t) = tt
  wake-IsAwake ended = tt

  notify_all-IsAwake :
      (ws : List (Worker T)) → All IsAwake (notify_all ws) × (length (notify_all ws) ≡ length ws)
  unfolding notify_all
  notify_all-IsAwake [] = (tt, refl)
  notify_all-IsAwake (w ∷ ws) =
      let (rest, len) = notify_all-IsAwake ws in ((wake-IsAwake w, rest), omega (arith, len))

  -- A thread of a stopped pool that is awake and has not returned can make a step.
  step-stopped :
      (w : Worker T) (p : Pool T)
      → p.stop ≡ true
      → IsAwake w
      → HasEnded w ⊎ ((w' : Worker T) × (p' : Pool T) × (step w p ≡ some (w', p')))
  unfolding step
  step-stopped waiting p stop awake = inr (_, _, refl)
  step-stopped asleep p stop awake = absurd awake
  step-stopped (busy t) p stop awake = inr (waiting, p, refl)
  step-stopped ended p stop awake = inl tt

  -- No thread of a stopped pool goes to sleep.
  step-IsAwake :
      (w : Worker T) (p : Pool T)
      → p.stop ≡ true
      → IfSome {A = Worker T × Pool T} (λ (w', p'). IsAwake w') (step w p)
  unfolding step take_task
  step-IsAwake waiting p stop = takes p.tasks
    where
      takes : (tasks : List T) → IsAwake (take_task p tasks).0
      takes [] = subst (λ b. IsAwake (if b then ended else asleep)) (sym stop) tt
      takes (t ∷ tasks) = tt
  step-IsAwake asleep p stop = tt
  step-IsAwake (busy t) p stop = tt
  step-IsAwake ended p stop = tt

  CanStep-stopped :
      (ws : List (Worker T)) (p : Pool T)
      → p.stop ≡ true
      → All IsAwake ws
      → All HasEnded ws ⊎ CanStep p ws
  CanStep-stopped [] p stop awake = inl tt
  CanStep-stopped (w ∷ ws) p stop awake = elim (step-stopped w p stop awake.0) [
    | inr (w', p', e) ↦ inr (record {
      front = [];
      back = ws;
      before = w;
      after = w';
      left = p';
      stands = refl;
      makes = e;
    })
    | inl e ↦ elim (CanStep-stopped ws p stop awake.1) [
      | inl es ↦ inl (e, es)
      | inr can ↦ inr (record {
        front = w ∷ can.front;
        back = can.back;
        before = can.before;
        after = can.after;
        left = can.left;
        stands = ap (◌∷◌ w) can.stands;
        makes = can.makes;
      })
    ]
  ]

  goes_on :
      {k : ℕ} {p p' : Pool T} {ws ws' : List (Worker T)}
      → Joining k p ws p' ws'
      → CanStep p' ws'
      → (p'' : Pool T) × (ws'' : List (Worker T)) × Joining (suc k) p ws p'' ws''
  goes_on {k} {p} {p'} {ws} j can = (
    can.left,
    can.front ++ (can.after ∷ can.back),
    one_more can.front can.back can.before can.after (subst (Joining k p ws p') can.stands j)
        can.makes,
  )

  Joining-left :
      {k : ℕ} {p p' : Pool T} {ws ws' : List (Worker T)}
      → Joining k p ws p' ws'
      → (k + steps_left p' ws' ≤ steps_left p ws) × (p'.stop ≡ p.stop)
  Joining-left none_yet = (omega arith, refl)
  Joining-left {p} (one_more {p'} {p''} front back w w' j e) =
      let (left, stop) = Joining-left j in
      let less =
        IfSome-some (λ (v, q). suc (2 * length q.tasks + effort v) ≤ 2 * length p'.tasks + effort w)
          (step-effort w p') e in
      let m = IfSome-some (λ (v, q). Moved p' w v q) (step-Moved w p') e in
      (
        omega
            (arith, left, less, efforts-append front (w ∷ back), efforts-append front (w' ∷ back)),
        m.same_stop ∙ stop,
      )

  Joining-IsAwake :
      {k : ℕ} {p p' : Pool T} {ws ws' : List (Worker T)}
      → p.stop ≡ true
      → All IsAwake ws
      → Joining k p ws p' ws'
      → All IsAwake ws'
  Joining-IsAwake stop awake none_yet = awake
  Joining-IsAwake stop awake (one_more {p'} front back w w' j e) =
      let before = Joining-IsAwake stop awake j in
      All-append IsAwake front (w' ∷ back) (All-left IsAwake front (w ∷ back) before) (
        IfSome-some {A = Worker T × Pool T} (λ (v, q). IsAwake v)
            (step-IsAwake w p' ((Joining-left j).1 ∙ stop)) e,
        (All-right IsAwake front (w ∷ back) before).1,
      )

  -- Once the destructor has set `stop` and called `notify_all`, the threads make, in every
  -- interleaving, at most two steps for each task in the queue and two for each thread, and as long as
  -- not all of them have returned one of them can make one step more: the joins of the destructor
  -- return if every task does.
  pub stopped-ends :
      {k : ℕ} {p p' : Pool T} (ws : List (Worker T)) {ws' : List (Worker T)}
      → p.stop ≡ true
      → Joining k p (notify_all ws) p' ws'
      → (k ≤ 2 * length p.tasks + 2 * length ws)
        × (All HasEnded ws'
            ⊎ ((p'' : Pool T) × (ws'' : List (Worker T)) × Joining
                  (suc k)
                  p
                  (notify_all ws)
                  p''
                  ws''))
  stopped-ends {p'} ws {ws'} stop j =
      let (left, same) = Joining-left j in
      let (awake, len) = notify_all-IsAwake ws in
      (
        omega (arith, left, efforts-bound (notify_all ws), len),
        elim (CanStep-stopped ws' p' (same ∙ stop) (Joining-IsAwake stop awake j)) [
          | inl all_ended ↦ inl all_ended
          | inr can ↦ inr (goes_on j can)
        ],
      )
