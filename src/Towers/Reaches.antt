-- ===== src/Towers/Reaches.antt =====
-- Nodes from which the search for a key may go on.
use persist_tree_test.Base.{
  ℕ, ◌<◌, ◌≤◌, ◌≡◌, refl, ◌∙◌, sym, ap, inl, inr, arith, List, [], ◌∷◌, ◌++◌, lt→ltb, append_assoc,
}
use persist_tree_test.Node.{Ptr}
use persist_tree_test.Towers.{Tower, last, last-append, last_low, split_last}

-- Node `x` ends a first part of the towers behind `head`, at level `j` and at every level below.
pub record Reaches (j : ℕ) (head x : Ptr) (ts : List Tower) : Type 0 where
  pub front : List Tower
  pub back : List Tower
  pub split : ts ≡ front ++ back
  pub ends : (i : ℕ) → i ≤ j → last i head front ≡ x

pub Reaches-start : (j : ℕ) (head : Ptr) (ts : List Tower) → Reaches j head head ts
Reaches-start j head ts = record { front = []; back = ts; split = refl; ends = λ i le. refl }

pub Reaches-append :
    {j : ℕ} {head x : Ptr} {ts : List Tower} (us : List Tower)
    → Reaches j head x ts
    → Reaches j head x (ts ++ us)
Reaches-append us r = record {
  front = r.front;
  back = r.back ++ us;
  split = ap (λ xs. xs ++ us) r.split ∙ append_assoc r.front r.back us;
  ends = r.ends;
}

last-middle :
    (i : ℕ) (head : Ptr) (front back : List Tower) (t : Tower)
    → i < t.height
    → last i head (front ++ (t ∷ back)) ≡ last i t.ptr back
last-middle i head front back t high =
    last-append i head front (t ∷ back) ∙ rw (lt→ltb _ _ high) refl

-- The last node at level `j` is such a node.
pub last-Reaches : (j : ℕ) (head : Ptr) (ts : List Tower) → Reaches j head (last j head ts) ts
last-Reaches j head ts = elim (split_last j ts) [
  | inl low ↦ rw (last_low j head ts low) (Reaches-start j head ts)
  | inr (front, t, back, e, high, low) ↦ record {
    front = front ++ (t ∷ []);
    back = back;
    split = e ∙ sym (append_assoc front (t ∷ []) back);
    ends = λ i le.
        last-middle i head front [] t (omega arith)
        ∙ sym
            (ap (last j head) e ∙ last-middle j head front back t high ∙ last_low j t.ptr back low);
  }
]
