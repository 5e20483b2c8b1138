-- ===== src/ThreadPool/Order.antt =====
-- Which tasks of a pool have been taken and finished.
use persist_tree_test.Base.{
  ℕ, ◌≡◌, refl, ◌∙◌, ap, sym, subst, Bool, true, false, Option, none, some, List, [], ◌∷◌, ◌++◌,
  append-nil, append_assoc, if◌then◌else◌,
}
use persist_tree_test.ThreadPool.{
  Pool, Worker, waiting, asleep, busy, ended, init, enqueue, stop_all, take_task, step,
}
use persist_tree_test.ThreadPool.Runs.{
  Step, enqueues, notifies_one, stops, notifies_all, works, Run, start, more, in_hand,
}

-- What holds of a result, if there is one.
abbrev pub IfSome {ℓ κ} : {A : Type ℓ} → (A → Type κ) → Option A → Type κ
IfSome P none = Unit
IfSome P (some a) = P a

pub IfSome-some {ℓ κ} :
    {A : Type ℓ} (P : A → Type κ) {o : Option A} {a : A} → IfSome P o → o ≡ some a → P a
IfSome-some P h e = subst (IfSome P) e h

-- Once a thread has returned, the pool is stopped and its queue empty.
abbrev pub IsDone {ℓ} : {T : Type ℓ} → Pool T → Worker T → Type ℓ
IsDone p ended = (p.stop ≡ true) × (p.tasks ≡ [])
IsDone p waiting = Unit
IsDone p asleep = Unit
IsDone p (busy t) = Unit

-- What a step of a thread does to the queue and to what is in hand.
pub record Moved {ℓ} {T : Type ℓ} (p : Pool T) (w : Worker T) (w' : Worker T) (p' : Pool T)
    : Type ℓ where
  pub queue : in_hand w' ++ p'.tasks ≡ p.tasks
  pub same_stop : p'.stop ≡ p.stop
  pub done : IsDone p' w'

module _ {ℓ} {T : Type ℓ} where
  pub step-Moved : (w : Worker T) (p : Pool T) → IfSome (λ (w', p'). Moved p w w' p') (step w p)
  unfolding step take_task
  step-Moved waiting p = takes p.tasks refl
    where
      ends :
          (b : Bool) → p.stop ≡ b → p.tasks ≡ [] → Moved p waiting (if b then ended else asleep) p
      ends true on e = record { queue = refl; same_stop = refl; done = (on, e) }
      ends false off e = record { queue = refl; same_stop = refl; done = tt }

      takes :
          (tasks : List T)
          → p.tasks ≡ tasks
          → Moved p waiting (take_task p tasks).0 (take_task p tasks).1
      takes [] e = ends p.stop refl e
      takes (t ∷ tasks) e = record { queue = sym e; same_stop = refl; done = tt }
  step-Moved asleep p = tt
  step-Moved (busy t) p = record { queue = refl; same_stop = refl; done = tt }
  step-Moved ended p = tt

  pub enqueue-tasks :
      (t : T) (p : Pool T)
      → IfSome (λ p'. (p'.tasks ≡ p.tasks ++ (t ∷ [])) × (p.stop ≡ false)) (enqueue t p)
  unfolding enqueue
  enqueue-tasks t p = by_stop p.stop refl
    where
      by_stop :
          (b : Bool)
          → p.stop ≡ b
          → IfSome
              (λ p'. (p'.tasks ≡ p.tasks ++ (t ∷ [])) × (p.stop ≡ false))
              (if b then none else some (record p { tasks = p.tasks ++ (t ∷ []) }))
      by_stop true on = tt
      by_stop false off = (refl, off)

  Step-queue :
      {p p' : Pool T} {ws ws' : List (Worker T)} {es ts fs : List T}
      → Step p ws es ts fs p' ws'
      → ts ++ p'.tasks ≡ p.tasks ++ es
  unfolding stop_all
  Step-queue {p} (enqueues t e) = (IfSome-some _ (enqueue-tasks t p) e).0
  Step-queue {p} (notifies_one front back w) = sym (append-nil p.tasks)
  Step-queue {p} notifies_all = sym (append-nil p.tasks)
  Step-queue {p} stops = sym (append-nil p.tasks)
  Step-queue {p} (works front back w w' e) =
      (IfSome-some (λ (v, q). Moved p w v q) (step-Moved w p) e).queue ∙ sym (append-nil p.tasks)

  -- In every interleaving, the tasks taken so far and those in the queue are the tasks enqueued, in
  -- their order.
  pub Run-fifo :
      {n : ℕ} {es ts fs : List T} {p : Pool T} {ws : List (Worker T)}
      → Run n es ts fs p ws
      → ts ++ p.tasks ≡ es
  unfolding init
  Run-fifo start = refl
  Run-fifo (more {es} {ts} {fs} {es'} {ts'} {fs'} {p} {p'} r s) =
      append_assoc ts ts' p'.tasks
      ∙ ap (λ q. ts ++ q) (Step-queue s)
      ∙ sym (append_assoc ts p.tasks es')
      ∙ ap (λ q. q ++ es') (Run-fifo r)
