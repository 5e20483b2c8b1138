-- ===== src/MemorySkipList/WellFormed.antt =====
-- What a skip list in DRAM is, between two calls: towers `ts` up to the last inserted node, towers
-- `us` behind it, linked at every level, and `prev_` pointing at the end of `ts` on each level.
use persist_tree_test.Base.{
  ℕ, ◌^◌, ◌<◌, ◌≤◌, ◌≡◌, refl, ◌⊎◌, inl, inr, arith, List, [], ◌∷◌, ◌++◌, All, ap, lt_cases,
  All-left, All-map,
}
use persist_tree_test.CString.Rank.{rank}
use persist_tree_test.Node.{Ptr, Heap}
use persist_tree_test.Node.Laws.{Stored}
use persist_tree_test.Towers.{Tower, From, Below, UpTo, AtMost, Apart, Distinct, Ascending}
use persist_tree_test.Towers.Chain.{Chain}
use persist_tree_test.MemorySkipList.{SkipList}
use persist_tree_test.MemorySkipList.Search.{Holds}
use persist_tree_test.MemorySkipList.Search.Descend.{Fingers}

-- The nodes in memory are the head and the towers `zs`, in ascending order, linked at every level.
pub record IsLinked (l : SkipList) (h : Heap) (zs : List Tower) : Type 0 where
  pub head_stored : Stored h l.head (b' ' ∷ []) l.k_max_height
  pub holds : All (Holds l.key_size h) zs
  pub tall : All (λ t. 0 < t.height) zs
  pub low : AtMost l.max_height zs
  pub some_level : 0 < l.max_height
  pub levels : l.max_height ≤ l.k_max_height
  pub small : l.k_max_height < 2 ^ 16
  pub chains : (i : ℕ) → i < l.k_max_height → Chain h i l.head zs
  pub apart : Apart l.head zs
  pub distinct : Distinct zs
  pub ascending : Ascending l.key_size zs

pub record IsSkipList (l : SkipList) (h : Heap) (ts us : List Tower) : Type 0 where
  pub linked : IsLinked l h (ts ++ us)
  pub open linked use *
  pub fingers : Fingers l.head ts l.max_height l.prev

-- Where a key of rank `r` may go: `prev` ends, on every level in use, the towers that stay before.
pub record Placed (l : SkipList) (ts us : List Tower) (r : ℕ) (prev : ℕ → Ptr) : Type 0 where
  pub before : List Tower
  pub after : List Tower
  pub same : before ++ after ≡ ts ++ us
  pub up_to : UpTo l.key_size r before
  pub from : From l.key_size r after
  pub fingers : Fingers l.head before l.max_height prev

-- The last tower of `ts` or the first of `us` has rank `r`.
abbrev pub AtFinger : ℕ → ℕ → List Tower → List Tower → Type 0
AtFinger n r ts us =
    ((front : List Tower) × (t : Tower) × (ts ≡ front ++ (t ∷ [])) × (rank n t.key ≡ r))
    ⊎ ((t : Tower) × (back : List Tower) × (us ≡ t ∷ back) × (rank n t.key ≡ r))

-- An ascending list is cut in two at a rank.
pub cut :
    (n r : ℕ) (ts : List Tower)
    → Ascending n ts
    → (before : List Tower) × (after : List Tower) × (ts ≡ before ++ after)
      × Below n r before
      × From n r after
cut n r [] a = ([], [], refl, tt, tt)
cut n r (t ∷ ts) a = elim (lt_cases (rank n t.key) r) [
  | inl lt ↦
      let (before, after, e, b, f) = cut n r ts a.1 in (t ∷ before, after, ap (◌∷◌ t) e, (lt, b), f)
  | inr le ↦ ([], t ∷ ts, refl, tt, (le, All-map _ _ (λ u h. omega arith) ts a.0))
]

-- A list of towers is empty, or has a last one.
pub snoc_cases :
    (ts : List Tower)
    → All (λ t. 0 < t.height) ts
    → (ts ≡ []) ⊎ ((front : List Tower) × (t : Tower) × (ts ≡ front ++ (t ∷ [])))
snoc_cases [] a = inl refl
snoc_cases (t ∷ ts) a = elim (snoc_cases ts a.1) [
  | inl e ↦ inr ([], t, ap (◌∷◌ t) e)
  | inr (front, u, e) ↦ inr (t ∷ front, u, ap (◌∷◌ t) e)
]

pub Ascending-right : (n : ℕ) (ts us : List Tower) → Ascending n (ts ++ us) → Ascending n us
Ascending-right n [] us a = a
Ascending-right n (t ∷ ts) us a = Ascending-right n ts us a.1

pub Ascending-left : (n : ℕ) (ts us : List Tower) → Ascending n (ts ++ us) → Ascending n ts
Ascending-left n [] us a = tt
Ascending-left n (t ∷ ts) us a = (All-left _ ts us a.0, Ascending-left n ts us a.1)

pub Below-of_UpTo : (n q r : ℕ) (ts : List Tower) → UpTo n q ts → q < r → Below n r ts
Below-of_UpTo n q r ts a lt = All-map _ _ (λ t h. omega arith) ts a

pub UpTo-of_Below : (n r : ℕ) (ts : List Tower) → Below n r ts → UpTo n r ts
UpTo-of_Below n r ts a = All-map _ _ (λ t h. omega arith) ts a

pub From-mono : (n q r : ℕ) (ts : List Tower) → From n q ts → r ≤ q → From n r ts
From-mono n q r ts a le = All-map _ _ (λ t h. omega arith) ts a
