-- ===== src/WriteBuffer/Runs.antt =====
-- The interleavings of the thread that inserts and of the threads of the pool.
use persist_tree_test.Base.{ℕ, zero, suc, ◌≡◌, subst, List, [], ◌∷◌, ◌++◌}
use persist_tree_test.WriteBuffer.{
  Key, State, Config, Worker, unused, Move, moves, blocked, crashed, init, insert, call_flush,
  flush_step, work,
}

-- A step, with the keys that it inserts.
pub data Step (c : Config) : State → List Worker → List Key → State → List Worker → Type 0 where
  inserts :
      {s s' : State} {ws : List Worker} (key : Key)
      → insert c key s ≡ moves s'
      → Step c s ws (key ∷ []) s' ws
  calls : {s s' : State} {ws : List Worker} → call_flush s.place s ≡ moves s' → Step c s ws [] s' ws
  flushes :
      {s s' : State} {ws : List Worker} → flush_step c s.place s ≡ moves s' → Step c s ws [] s' ws
  works :
      {s s' : State} (front back : List Worker) (w w' : Worker)
      → work c w s ≡ moves (w', s')
      → Step c s (front ++ (w ∷ back)) [] s' (front ++ (w' ∷ back))

-- `n` threads without a task.
abbrev pub idle : ℕ → List Worker
idle zero = []
idle (suc n) = unused ∷ idle n

-- A run from a state and the threads of the pool, with the keys inserted.
pub data From (c : Config) (s0 : State) (ws0 : List Worker)
    : List Key → State → List Worker → Type 0 where
  start : From c s0 ws0 [] s0 ws0
  more :
      {keys new : List Key} {s s' : State} {ws ws' : List Worker}
      → From c s0 ws0 keys s ws
      → Step c s ws new s' ws'
      → From c s0 ws0 (keys ++ new) s' ws'

-- A run from the object after `Init`, with `n` threads in the pool.
abbrev pub Run : (c : Config) (old : List Key) (n : ℕ) → List Key → State → List Worker → Type 0
Run c old n = From c (init old) (idle n)

-- What holds after a move.
abbrev pub Ensures {ℓ κ} : {A : Type ℓ} → (A → Type κ) → Move A → Type κ
Ensures P (moves a) = P a
Ensures P blocked = Unit
Ensures P crashed = Unit

pub Ensures-moves {ℓ κ} :
    {A : Type ℓ} (P : A → Type κ) {m : Move A} {a : A} → Ensures P m → m ≡ moves a → P a
Ensures-moves P holds e = subst (Ensures P) e holds
