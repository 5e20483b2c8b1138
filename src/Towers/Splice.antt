-- ===== src/Towers/Splice.antt =====
-- Linking a new tower into the linked list of one level.
use persist_tree_test.Base.{
  ℕ, ◌<◌, ◌≤◌, ◌≡◌, ◌≢◌, ◌∙◌, sym, arith, List, [], ◌∷◌, ◌++◌, All, All-append, All-left, All-right,
  lt→ltb, le→ltb_false, ltb, if◌then◌else◌,
}
use persist_tree_test.Base.Outcome.{ok}
use persist_tree_test.Node.{Ptr, Heap, next}
use persist_tree_test.Towers.{Tower, last, Apart, Distinct}
use persist_tree_test.Towers.Chain.{Chain, through, past, Chain-move}

pub All-insert {ℓ κ} :
    {A : Type ℓ} (P : A → Type κ) (xs ys : List A) (x : A)
    → All P (xs ++ ys)
    → P x
    → All P (xs ++ (x ∷ ys))
All-insert P xs ys x a p = All-append P xs (x ∷ ys) (All-left P xs ys a) (p, All-right P xs ys a)

pub last_ne : (i : ℕ) (q r : Ptr) (ts : List Tower) → q ≢ r → Apart q ts → q ≢ last i r ts
last_ne i q r [] ne a = ne
last_ne i q r (t ∷ ts) ne a =
    last_ne i q (if ltb i t.height then t.ptr else r) ts (ground arith) a.1

pub Distinct-insert :
    (ts us : List Tower) (t : Tower)
    → Distinct (ts ++ us)
    → Apart t.ptr (ts ++ us)
    → Distinct (ts ++ (t ∷ us))
Distinct-insert [] us t d a = (a, d)
Distinct-insert (u ∷ ts) us t d a =
    (All-insert _ ts us t d.0 (λ e. a.0 (sym e)), Distinct-insert ts us t d.1 a.1)

pub Chain-skip :
    {h : Heap} {i : ℕ} {q : Ptr} (ts us : List Tower) (t : Tower)
    → t.height ≤ i
    → Chain h i q (ts ++ us)
    → Chain h i q (ts ++ (t ∷ us))
Chain-skip [] us t le c = past le c
Chain-skip (u ∷ ts) us t le (through lt e c) = through lt e (Chain-skip ts us t le c)
Chain-skip (u ∷ ts) us t le (past le' c) = past le' (Chain-skip ts us t le c)

-- In the heap `h'` node `x` stands behind node `p`, and reads at level `i` what `p` did in `h`.
module _ (h h' : Heap) (i : ℕ) {x p : Ptr}
    (same : (r : Ptr) → r ≢ p → r ≢ x → next r i h' ≡ next r i h) (at_p : next p i h' ≡ ok x)
    (at_x : next x i h' ≡ next p i h) where
  same-All :
      (ts : List Tower) → Apart p ts → Apart x ts → All (λ t. next t.ptr i h' ≡ next t.ptr i h) ts
  same-All [] a b = tt
  same-All (t ∷ ts) a b = (same t.ptr (λ e. a.0 (sym e)) (λ e. b.0 (sym e)), same-All ts a.1 b.1)

  pub Chain-splice :
      {q : Ptr} (ts us : List Tower) (t : Tower)
      → Chain h i q (ts ++ us)
      → last i q ts ≡ p
      → t.ptr ≡ x
      → i < t.height
      → q ≢ x
      → Apart q (ts ++ us)
      → Distinct (ts ++ us)
      → Apart x (ts ++ us)
      → Chain h' i q (ts ++ (t ∷ us))
  Chain-splice {q} [] us t c e ex lt nx a d b =
      through lt (rw (e, ex) at_p)
        (Chain-move h' t.ptr c (rw (ex, e) at_x) (same-All us (rw e at a) b))
  Chain-splice {q} (u ∷ ts) us t (through lt' n c) e ex lt nx a d b =
      let e' : last i u.ptr ts ≡ p = rw (lt→ltb _ _ lt') at e in
      through lt' (same q (rw (← e') (last_ne i q u.ptr ts a.0 (All-left _ ts us a.1))) nx ∙ n)
        (Chain-splice ts us t c e' ex lt (λ y. b.0 (sym y)) d.0 d.1 b.1)
  Chain-splice {q} (u ∷ ts) us t (past le c) e ex lt nx a d b =
      past le (Chain-splice ts us t c (rw (le→ltb_false _ _ le) at e) ex lt nx a.1 d.1 b.1)
