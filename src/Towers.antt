-- ===== src/Towers.antt =====
-- The nodes of a skip list seen from outside: a list of towers, in the order of level 0. The list
-- at level `i` passes through the towers that are higher than `i`.
pub mod Chain
pub mod Falls
pub mod Reaches
pub mod Splice
pub mod Unique
use persist_tree_test.Base.{
  ℕ, zero, suc, ◌+◌, ◌<◌, ◌≤◌, ◌≡◌, ◌≢◌, refl, ◌⊎◌, inl, inr, arith, List, [], ◌∷◌, ◌++◌, ltb,
  if◌then◌else◌, All, All-append, All-left, All-right, lt_cases, ap, map,
}
use persist_tree_test.Node.{Ptr}
use persist_tree_test.CString.Rank.{rank}

pub record Tower : Type 0 where
  pub ptr : Ptr
  pub key : List ℕ
  pub height : ℕ

abbrev pub keys : List Tower → List (List ℕ)
keys = map (λ t. t.key)

-- The last node at level `i` of the towers behind node `q`, and `q` if there is none.
abbrev pub last : ℕ → Ptr → List Tower → Ptr
last i q [] = q
last i q (t ∷ ts) = last i (if ltb i t.height then t.ptr else q) ts

-- Node `r` is none of the towers.
abbrev pub Apart : Ptr → List Tower → Type 0
Apart r = All (λ t. r ≢ t.ptr)

-- No two towers are one node.
abbrev pub Distinct : List Tower → Type 0
Distinct [] = Unit
Distinct (t ∷ ts) = Apart t.ptr ts × Distinct ts

-- The towers' keys have their ranks, on `n` bytes, at or above `r`; at or below `r`; below `r`.
abbrev pub From : ℕ → ℕ → List Tower → Type 0
From n r = All (λ t. r ≤ rank n t.key)

abbrev pub UpTo : ℕ → ℕ → List Tower → Type 0
UpTo n r = All (λ t. rank n t.key ≤ r)

abbrev pub Below : ℕ → ℕ → List Tower → Type 0
Below n r = All (λ t. rank n t.key < r)

-- The keys do not fall along the list.
abbrev pub Ascending : ℕ → List Tower → Type 0
Ascending n [] = Unit
Ascending n (t ∷ ts) = From n (rank n t.key) ts × Ascending n ts

-- No tower reaches above level `j`.
abbrev pub AtMost : ℕ → List Tower → Type 0
AtMost j = All (λ t. t.height ≤ j)

pub last-append :
    (i : ℕ) (q : Ptr) (ts us : List Tower) → last i q (ts ++ us) ≡ last i (last i q ts) us
last-append i q [] us = refl
last-append i q (t ∷ ts) us = last-append i (if ltb i t.height then t.ptr else q) ts us

pub last_low : (i : ℕ) (q : Ptr) (ts : List Tower) → AtMost i ts → last i q ts ≡ q
last_low i q [] h = refl
last_low i q (t ∷ ts) h = ground (arith, last_low i q ts h.1)

-- Either no tower reaches above level `j`, or there is a last one that does.
pub split_last :
    (j : ℕ) (ts : List Tower)
    → AtMost j ts
      ⊎ ((front : List Tower) × (t : Tower) × (back : List Tower) × (ts ≡ front ++ (t ∷ back))
          × (j < t.height)
          × AtMost j back)
split_last j [] = inl tt
split_last j (t ∷ ts) = elim (split_last j ts) [
  | inl low ↦ elim (lt_cases j t.height) [
    | inl high ↦ inr ([], t, ts, refl, high, low)
    | inr le ↦ inl (le, low)
  ]
  | inr (front, u, back, e, high, low) ↦ inr (t ∷ front, u, back, ap (◌∷◌ t) e, high, low)
]

pub Ascending-append :
    (n r : ℕ) (ts us : List Tower)
    → Ascending n (ts ++ us)
    → UpTo n r ts
    → From n r us
    → (t : Tower) → rank n t.key ≡ r
    → Ascending n (ts ++ (t ∷ us))
Ascending-append n r [] us a up from t e = (rw e from, a)
Ascending-append n r (u ∷ ts) us a up from t e = (
  All-append _ ts (t ∷ us) (All-left _ ts us a.0) (omega arith, All-right _ ts us a.0),
  Ascending-append n r ts us a.1 up.1 from t e,
)

-- A tower that comes at or after the last tower of an ascending list comes after all of it.
pub Ascending-UpTo :
    (n : ℕ) (ts : List Tower) (t : Tower) → Ascending n (ts ++ (t ∷ [])) → UpTo n (rank n t.key) ts
Ascending-UpTo n [] t a = tt
Ascending-UpTo n (u ∷ ts) t a = ((All-right _ ts (t ∷ []) a.0).0, Ascending-UpTo n ts t a.1)
