-- ===== src/MemorySkipList/Owned.antt =====
-- The memory of a list in DRAM: its head and its nodes, and nothing else.
use persist_tree_test.Base.{
  ℕ, ◌≡◌, ◌≢◌, ◌∙◌, sym, ap, subst, ◌⊎◌, inl, inr, List, [], ◌∷◌, ◌++◌, none, All, ℕ_discrete,
}
use persist_tree_test.Node.{Ptr, Heap}
use persist_tree_test.Towers.{Tower, Apart}
use persist_tree_test.MemorySkipList.{State}
use persist_tree_test.MemorySkipList.Steps.{tower}
use persist_tree_test.MemorySkipList.Insert.{InsertedAt}

abbrev pub IsOwned : Ptr → Heap → List Tower → Type 0
IsOwned head h zs = (r : Ptr) → r ≢ head → Apart r zs → h r ≡ none

apart_without :
    (r : Ptr) (xs ys : List Tower) (t : Tower)
    → Apart r ((xs ++ (t ∷ [])) ++ ys)
    → (r ≢ t.ptr) × Apart r (xs ++ ys)
apart_without r [] ys t a = a
apart_without r (x ∷ xs) ys t a = let (ne, rest) = apart_without r xs ys t a.1 in (ne, (a.0, rest))

-- An insertion adds one node.
pub insert-IsOwned :
    {s s' : State} {fresh : Ptr} {key : List ℕ} {ts us : List Tower}
    → (ins : InsertedAt s s' fresh key ts us) → IsOwned s.list.head s.heap (ts ++ us)
    → IsOwned s'.list.head s'.heap ((ins.before ++ (tower fresh key ins.height ∷ [])) ++ ins.after)
insert-IsOwned {s} {s'} {fresh} {key} ins owned r ne a =
    let (other, rest) = apart_without r ins.before ins.after (tower fresh key ins.height) a in
    ins.untouched r other
      (owned r (λ e. ne (e ∙ sym ins.same_head)) (subst (Apart r) ins.same rest))

gone_or_apart :
    (h : Heap) (r : Ptr) (zs : List Tower)
    → All (λ t. h t.ptr ≡ none) zs
    → (h r ≡ none) ⊎ Apart r zs
gone_or_apart h r [] gone = inr tt
gone_or_apart h r (t ∷ zs) gone = elim (ℕ_discrete r t.ptr) [
  | yes e ↦ inl (ap h e ∙ gone.0)
  | no ne ↦ elim (gone_or_apart h r zs gone.1) [ inl e ↦ inl e | inr a ↦ inr (ne, a) ]
]

-- When the head and the nodes are freed, nothing is left.
pub freed-IsOwned :
    (head : Ptr) (h h' : Heap) (zs : List Tower)
    → IsOwned head h zs
    → All (λ t. h' t.ptr ≡ none) zs
    → h' head ≡ none
    → ((r : Ptr) → r ≢ head → Apart r zs → h' r ≡ h r)
    → (r : Ptr) → h' r ≡ none
freed-IsOwned head h h' zs owned gone gone_head kept r = elim (ℕ_discrete r head) [
  | yes e ↦ ap h' e ∙ gone_head
  | no ne ↦ elim (gone_or_apart h' r zs gone) [ inl e ↦ e | inr a ↦ kept r ne a ∙ owned r ne a ]
]
