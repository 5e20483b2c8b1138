-- ===== src/Towers/Unique.antt =====
-- A sorted list is known by its keys.
use mathlib.Core.List.{Perm, Mem, mem-cons, mem-cons_self}
use mathlib.Core.List.Perm
use mathlib.Core.Logic.Or
use native.Mathlib.Bridge.{le_prop}
use persist_tree_test.Base.{ℕ, ◌<◌, ◌≤◌, ◌≡◌, ◌≢◌, ◌∙◌, ap, sym, subst, arith, List, [], ◌∷◌, All}
use persist_tree_test.CString.Rank.{rank}
use persist_tree_test.Towers.{Tower, Ascending, keys}
use persist_tree_test.Towers.Falls.{AllUnlike, Different, mem-All, perm-Different}

-- The ranks of the keys rise.
abbrev pub Rising : ℕ → List (List ℕ) → Type 0
Rising n [] = Unit
Rising n (k ∷ ks) = All (λ j. rank n k < rank n j) ks × Rising n ks

module _ (n : ℕ) where
  after :
      (k : List ℕ) (ks : List (List ℕ))
      → All (λ j. rank n k < rank n j) ks
      → (j : List ℕ) → Mem j ks
      → rank n k < rank n j
  after k ks a = mem-All (λ j. le_prop) ks a

  same_first :
      (a b : List ℕ) (js ks : List (List ℕ))
      → Perm (a ∷ js) (b ∷ ks)
      → Rising n (a ∷ js)
      → Rising n (b ∷ ks)
      → a ≡ b
  same_first a b js ks p ra rb =
      let prop : IsProp (a ≡ b) = hlevel in
      Or.elim prop (mem-cons.0 ((Perm.mem_iff p).0 mem-cons_self)) (λ e. e)
        (λ behind_b.
          Or.elim prop (mem-cons.0 ((Perm.mem_iff p).1 mem-cons_self)) (λ e. sym e)
            (λ behind_a.
              absurd (omega (arith, after b ks rb.0 a behind_b, after a js ra.0 b behind_a))))

  pub Rising-unique : (js ks : List (List ℕ)) → Perm js ks → Rising n js → Rising n ks → js ≡ ks
  Rising-unique [] ks p a b = Perm.nil-eq p
  Rising-unique (j ∷ js) [] p a b = Perm.eq-nil p
  Rising-unique (j ∷ js) (k ∷ ks) p a b =
      let e : j ≡ k = same_first j k js ks p a b in
      let rest : js ≡ ks =
        Rising-unique js ks (Perm.cons_inv (subst (λ x. Perm (j ∷ js) (x ∷ ks)) (sym e) p)) a.1
          b.1 in
      ap (λ x. x ∷ js) e ∙ ap (λ xs. k ∷ xs) rest

  All-keys : (P : List ℕ → Type 0) (ts : List Tower) → All (λ t. P t.key) ts → All P (keys ts)
  All-keys P [] a = tt
  All-keys P (t ∷ ts) a = (a.0, All-keys P ts a.1)

  Different-Rising : (ts : List Tower) → Ascending n ts → Different n ts → Rising n (keys ts)
  Different-Rising [] a d = tt
  Different-Rising (t ∷ ts) a d = (All-keys _ ts (rises ts a.0 d.0), Different-Rising ts a.1 d.1)
    where
      rises :
          (us : List Tower)
          → All (λ u. rank n t.key ≤ rank n u.key) us
          → All (λ u. rank n t.key ≢ rank n u.key) us
          → All (λ u. rank n t.key < rank n u.key) us
      rises [] from ne = tt
      rises (u ∷ us) from ne = (omega (arith, from.0, ne.0), rises us from.1 ne.1)

  -- Two ascending lists of towers with the same keys, of different ranks, have them in one order.
  pub keys_unique :
      (zs ys : List Tower) (ks : List (List ℕ))
      → Perm (keys zs) ks
      → Perm (keys ys) ks
      → AllUnlike n ks
      → Ascending n zs
      → Ascending n ys
      → keys zs ≡ keys ys
  keys_unique zs ys ks p q unlike az ay =
      Rising-unique (keys zs) (keys ys) (Perm.trans p (Perm.symm q))
        (Different-Rising zs az (perm-Different n zs ks p unlike))
        (Different-Rising ys ay (perm-Different n ys ks q unlike))
