-- ===== src/Towers/Chain.antt =====
-- The linked list at one level.
use persist_tree_test.Base.{ℕ, ◌<◌, ◌≤◌, ◌≡◌, ◌∙◌, List, [], ◌∷◌, ◌++◌, All, lt→ltb, le→ltb_false}
use persist_tree_test.Base.Outcome.{ok}
use persist_tree_test.Node.{Ptr, null, Heap, next}
use persist_tree_test.Towers.{Tower, last}

-- From node `q` the slots of level `i` lead through the towers higher than `i`, to null.
pub data Chain (h : Heap) (i : ℕ) : Ptr → List Tower → Type 0 where
  stop : {q : Ptr} → next q i h ≡ ok null → Chain h i q []
  through :
      {q : Ptr} {t : Tower} {ts : List Tower}
      → i < t.height
      → next q i h ≡ ok t.ptr
      → Chain h i t.ptr ts
      → Chain h i q (t ∷ ts)
  past :
      {q : Ptr} {t : Tower} {ts : List Tower} → t.height ≤ i → Chain h i q ts → Chain h i q (t ∷ ts)

-- What stands behind the last node of a first part.
pub Chain-last :
    {h : Heap} {i : ℕ} {q : Ptr} (ts us : List Tower)
    → Chain h i q (ts ++ us)
    → Chain h i (last i q ts) us
Chain-last [] us c = c
Chain-last (t ∷ ts) us (through lt e c) = rw (lt→ltb _ _ lt) (Chain-last ts us c)
Chain-last (t ∷ ts) us (past le c) = rw (le→ltb_false _ _ le) (Chain-last ts us c)

-- The chain is the same in another heap, with another first node, if the slots read the same.
pub Chain-move :
    {h : Heap} {i : ℕ} {q : Ptr} {ts : List Tower} (h' : Heap) (q' : Ptr)
    → Chain h i q ts
    → next q' i h' ≡ next q i h
    → All (λ t. next t.ptr i h' ≡ next t.ptr i h) ts
    → Chain h' i q' ts
Chain-move h' q' (stop e) e' a = stop (e' ∙ e)
Chain-move h' q' (through {t} lt e c) e' a = through lt (e' ∙ e) (Chain-move h' t.ptr c a.0 a.1)
Chain-move h' q' (past le c) e' a = past le (Chain-move h' q' c e' a.1)

-- The first slot of a chain reads a node or null.
pub Chain-next :
    {h : Heap} {i : ℕ} {q : Ptr} {ts : List Tower}
    → Chain h i q ts
    → (n : Ptr) × (next q i h ≡ ok n)
Chain-next (stop e) = (null, e)
Chain-next (through {t} lt e c) = (t.ptr, e)
Chain-next (past le c) = Chain-next c
