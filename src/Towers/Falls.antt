-- ===== src/Towers/Falls.antt =====
-- Towers whose keys begin with sixteen digits, as `PrintKey` sees them.
use Prim.Native.Nat.{compare, Ordering}
use mathlib.Core.List.{
  Perm, Mem, Pairwise, Pairwise-cons, mem-cons, mem-cons_self, mem-cons_of_mem, not-mem-nil,
}
use mathlib.Core.List.Perm
use mathlib.Core.Logic.Or
use persist_tree_test.Base.{
  ℕ, ◌+◌, ◌<◌, ◌≡◌, ◌≢◌, refl, ◌∙◌, sym, subst, arith, List, [], ◌∷◌, All, ltb, lt→ltb,
  if◌then◌else◌, All-left, ◌++◌,
}
use persist_tree_test.CString.Rank.{rank}
use persist_tree_test.CString.Digits.{HasDigits, number, compare-number}
use persist_tree_test.Towers.{Tower, From, Ascending, keys}

-- The number of towers whose number is not above the one before, which is `v` for the first.
abbrev pub falls : ℕ → List Tower → ℕ
falls v [] = 0
falls v (t ∷ ts) = (if ltb v (number 16 t.key) then 0 else 1) + falls (number 16 t.key) ts

-- Every key has a rank of its own.
abbrev pub Different : ℕ → List Tower → Type 0
Different n [] = Unit
Different n (t ∷ ts) = All (λ u. rank n t.key ≢ rank n u.key) ts × Different n ts

number-lt :
    (a b : List ℕ)
    → HasDigits 16 a
    → HasDigits 16 b
    → rank 16 a < rank 16 b
    → number 16 a < number 16 b
number-lt a b ha hb lt = lt_of_compare (compare-number 16 a b ha hb ∙ compare_of_lt lt)
  where
    lt_of_compare : {x y : ℕ} → compare x y ≡ Ordering.lt → x < y
    lt_of_compare e = ground arith

    compare_of_lt : {x y : ℕ} → x < y → compare x y ≡ Ordering.lt
    compare_of_lt h = ground arith

numbers-above :
    (t : Tower) (ts : List Tower)
    → HasDigits 16 t.key
    → All (λ u. HasDigits 16 u.key) ts
    → From 16 (rank 16 t.key) ts
    → All (λ u. rank 16 t.key ≢ rank 16 u.key) ts
    → All (λ u. number 16 t.key < number 16 u.key) ts
numbers-above t [] h d from ne = tt
numbers-above t (u ∷ ts) h d from ne =
    (number-lt t.key u.key h d.0 (omega arith), numbers-above t ts h d.1 from.1 ne.1)

-- Ascending keys of different ranks do not fall.
pub falls-zero :
    (v : ℕ) (ts : List Tower)
    → All (λ t. HasDigits 16 t.key) ts
    → All (λ t. v < number 16 t.key) ts
    → Ascending 16 ts
    → Different 16 ts
    → falls v ts ≡ 0
falls-zero v [] d above a ne = refl
falls-zero v (t ∷ ts) d above a ne = rw (lt→ltb _ _ above.0) (
    omega
      (arith, falls-zero (number 16 t.key) ts d.1 (numbers-above t ts d.0 d.1 a.0 ne.0) a.1 ne.1))

abbrev pub Unlike : ℕ → List ℕ → List ℕ → Type 0
Unlike n j k = rank n j ≢ rank n k

All-of_mem :
    (P : List ℕ → Type 0) (ts : List Tower)
    → ((k : List ℕ) → Mem k (keys ts) → P k)
    → All (λ t. P t.key) ts
All-of_mem P [] f = tt
All-of_mem P (t ∷ ts) f =
    (f t.key mem-cons_self, All-of_mem P ts (λ k m. f k (mem-cons_of_mem _ m)))

pub Pairwise-Different : (n : ℕ) (ts : List Tower) → Pairwise (Unlike n) (keys ts) → Different n ts
Pairwise-Different n [] p = tt
Pairwise-Different n (t ∷ ts) p =
    let (first, rest) = Pairwise-cons.0 p in
    (All-of_mem (Unlike n t.key) ts first, Pairwise-Different n ts rest)

Unlike-prop : (n : ℕ) (j k : List ℕ) → IsProp (Unlike n j k)
Unlike-prop n j k = hlevel

pub mem-All :
    {P : List ℕ → Type 0}
    → ((k : List ℕ) → IsProp (P k))
    → (ks : List (List ℕ)) → All P ks
    → (k : List ℕ) → Mem k ks
    → P k
mem-All prop [] a k m = absurd (not-mem-nil m)
mem-All {P} prop (j ∷ ks) a k m =
    Or.elim (prop k) (mem-cons.0 m) (λ e. subst P (sym e) a.0) (λ m'. mem-All prop ks a.1 k m')

-- The ranks of the keys are different.
abbrev pub AllUnlike : ℕ → List (List ℕ) → Type 0
AllUnlike n [] = Unit
AllUnlike n (k ∷ ks) = All (Unlike n k) ks × AllUnlike n ks

pub AllUnlike-left : (n : ℕ) (ks js : List (List ℕ)) → AllUnlike n (ks ++ js) → AllUnlike n ks
AllUnlike-left n [] js a = tt
AllUnlike-left n (k ∷ ks) js a = (All-left (Unlike n k) ks js a.0, AllUnlike-left n ks js a.1)

pub AllUnlike-right : (n : ℕ) (ks js : List (List ℕ)) → AllUnlike n (ks ++ js) → AllUnlike n js
AllUnlike-right n [] js a = a
AllUnlike-right n (k ∷ ks) js a = AllUnlike-right n ks js a.1

AllUnlike-Pairwise : (n : ℕ) (ks : List (List ℕ)) → AllUnlike n ks → Pairwise (Unlike n) ks
AllUnlike-Pairwise n [] a = Pairwise.nil
AllUnlike-Pairwise n (k ∷ ks) a =
    Pairwise-cons.1 (mem-All (Unlike-prop n k) ks a.0, AllUnlike-Pairwise n ks a.1)

-- Towers with keys of different ranks, in any order, have different ranks.
pub perm-Different :
    (n : ℕ) (ts : List Tower) (ks : List (List ℕ))
    → Perm (keys ts) ks
    → AllUnlike n ks
    → Different n ts
perm-Different n ts ks p a = Pairwise-Different n ts (
    Perm.pairwise (Unlike-prop n) (λ j k ne e. ne (sym e)) (Perm.symm p)
      (AllUnlike-Pairwise n ks a))

-- What holds of all keys holds of the towers with these keys, in any order.
pub perm-All :
    {P : List ℕ → Type 0}
    → ((k : List ℕ) → IsProp (P k))
    → (ts : List Tower) (ks : List (List ℕ)) → Perm (keys ts) ks
    → All P ks
    → All (λ t. P t.key) ts
perm-All {P} prop ts ks p a = All-of_mem P ts (λ k m. mem-All prop ks a k ((Perm.mem_iff p).0 m))
