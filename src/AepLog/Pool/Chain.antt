-- ===== src/AepLog/Pool/Chain.antt =====
-- The chain of the entries of a log in the pool.
use persist_tree_test.Base.{
  Option, ◌≡◌, ◌≢◌, refl, sym, ◌∙◌, ap, List, [], ◌∷◌, ◌++◌, some, none, All,
}
use persist_tree_test.Node.{Ptr, null}
use persist_tree_test.AepLog.{Entry}
use persist_tree_test.AepLog.Pool.{Pool}

-- An entry of the log, where it is and where its array is.
pub record Slot : Type 0 where
  pub at : Ptr
  pub array : Ptr
  pub entry : Entry

-- The entry is in the pool, with its array, and points to `next`.
pub record Holds (pool : Pool) (x : Slot) (next : Ptr) : Type 0 where
  pub some_address : x.at ≢ null
  pub found :
      pool.entries x.at
      ≡ some (record { array = x.array; w_oft = x.entry.w_oft; size = x.entry.size; next = next })
  pub bytes : pool.arrays x.array ≡ some (record { length = x.entry.size; bytes = x.entry.bytes })

-- The chain from `p` on goes over the entries `xs` to the entry `last`, which points to no other.
abbrev pub Chain : Pool → Ptr → List Slot → Slot → Type 0
Chain pool p [] last = (p ≡ last.at) × Holds pool last null
Chain pool p (x ∷ xs) last = (p ≡ x.at) × (next : Ptr) × Holds pool x next × Chain pool next xs last

-- No entry and no array is that of the slot.
abbrev pub Away : Slot → List Slot → Type 0
Away x = All (λ y. (y.at ≢ x.at) × (y.array ≢ x.array))

abbrev pub Distinct : List Slot → Type 0
Distinct [] = Unit
Distinct (x ∷ xs) = Away x xs × Distinct xs

-- The slots are in one pool as in the other.
abbrev pub Unchanged : Pool → Pool → List Slot → Type 0
Unchanged pool pool' =
    All
      (λ x. (pool'.entries x.at ≡ pool.entries x.at) × (pool'.arrays x.array ≡ pool.arrays x.array))

pub Holds-unchanged :
    {pool pool' : Pool} (x : Slot) (next : Ptr)
    → pool'.entries x.at ≡ pool.entries x.at
    → pool'.arrays x.array ≡ pool.arrays x.array
    → Holds pool x next
    → Holds pool' x next
Holds-unchanged x next e f h = record {
  some_address = h.some_address;
  found = e ∙ h.found;
  bytes = f ∙ h.bytes;
}

-- A change of the last entry.
pub Chain-change :
    (pool pool' : Pool) (p : Ptr) (xs : List Slot) (last last' : Slot)
    → last'.at ≡ last.at
    → Chain pool p xs last
    → Unchanged pool pool' xs
    → Holds pool' last' null
    → Chain pool' p xs last'
Chain-change pool pool' p [] last last' same c u h = (c.0 ∙ sym same, h)
Chain-change pool pool' p (x ∷ xs) last last' same (at, next, holds, c) u h = (
  at,
  next,
  Holds-unchanged x next u.0.0 u.0.1 holds,
  Chain-change pool pool' next xs last last' same c u.1 h,
)

-- One more entry behind the last.
pub Chain-extend :
    (pool pool' : Pool) (p : Ptr) (xs : List Slot) (last new : Slot)
    → Chain pool p xs last
    → Unchanged pool pool' xs
    → Holds pool' last new.at
    → Holds pool' new null
    → Chain pool' p (xs ++ (last ∷ [])) new
Chain-extend pool pool' p [] last new c u h h' = (c.0, new.at, h, (refl, h'))
Chain-extend pool pool' p (x ∷ xs) last new (at, next, holds, c) u h h' = (
  at,
  next,
  Holds-unchanged x next u.0.0 u.0.1 holds,
  Chain-extend pool pool' next xs last new c u.1 h h',
)

pub unused_elsewhere :
    {A : Type 0} (f : Ptr → Option A) {p q : Ptr} {x : A} → f p ≡ none → f q ≡ some x → p ≢ q
unused_elsewhere f e h same = none-some (sym e ∙ ap f same ∙ h)
  where
    none-some : {A : Type 0} {x : A} → none ≡ some x → ⊥
    none-some e' = cc

-- An unused entry and an unused array are away from the chain.
pub Chain-Away :
    (pool : Pool) (p : Ptr) (xs : List Slot) (last new : Slot)
    → pool.entries new.at ≡ none
    → pool.arrays new.array ≡ none
    → Chain pool p xs last
    → Away new (xs ++ (last ∷ []))
Chain-Away pool p xs last new no_entry no_array c = go p xs c
  where
    apart : (x : Slot) (next : Ptr) → Holds pool x next → (x.at ≢ new.at) × (x.array ≢ new.array)
    apart x next h = (
      (λ e. unused_elsewhere pool.entries no_entry h.found (sym e)),
      (λ e. unused_elsewhere pool.arrays no_array h.bytes (sym e)),
    )

    go : (p : Ptr) (xs : List Slot) → Chain pool p xs last → Away new (xs ++ (last ∷ []))
    go p [] c = (apart last null c.1, tt)
    go p (x ∷ xs) (at, next, holds, c) = (apart x next holds, go next xs c)

-- The last entry is away from those before it, and so the entries with one more are distinct.
pub Distinct-append :
    (xs : List Slot) (y : Slot) → Distinct xs → Away y xs → Distinct (xs ++ (y ∷ []))
Distinct-append [] y d a = (tt, tt)
Distinct-append (x ∷ xs) y d a = (away xs d.0, Distinct-append xs y d.1 a.1)
  where
    away : (zs : List Slot) → Away x zs → Away x (zs ++ (y ∷ []))
    away [] b = (((λ e. a.0.0 (sym e)), (λ e. a.0.1 (sym e))), tt)
    away (z ∷ zs) b = (b.0, away zs b.1)
