-- ===== src/MemorySkipList/Insert.antt =====
-- `Insert` on a well-formed list.
use persist_tree_test.Base.{ℕ, ◌≤◌, ◌≡◌, ◌≢◌, refl, none, List, [], ◌∷◌, ◌++◌, All}
use persist_tree_test.Base.Outcome.{ok}
use persist_tree_test.CString.Rank.{IsKey, rank}
use persist_tree_test.Node.{Ptr, null}
use persist_tree_test.Towers.{Tower}
use persist_tree_test.MemorySkipList.{State, insert_node, random_height, new_node}
use persist_tree_test.MemorySkipList.Search.Descend.{Fingers}
use persist_tree_test.MemorySkipList.WellFormed.{IsLinked, IsSkipList}
use persist_tree_test.MemorySkipList.Steps.{tower, steps, after_insert}

-- The lists and the new tower after `Insert`.
pub record InsertedAt (s s' : State) (fresh : Ptr) (key : List ℕ) (ts us : List Tower)
    : Type 0 where
  pub before : List Tower
  pub after : List Tower
  pub height : ℕ
  pub same : before ++ after ≡ ts ++ us
  pub same_size : s'.list.key_size ≡ s.list.key_size
  pub same_head : s'.list.head ≡ s.list.head
  pub same_max : s'.list.k_max_height ≡ s.list.k_max_height
  pub untouched : (r : Ptr) → r ≢ fresh → s.heap r ≡ none → s'.heap r ≡ none
  pub result : IsSkipList s'.list s'.heap (before ++ (tower fresh key height ∷ [])) after

-- The second half of `Insert`, at the end of the towers that stay before the key.
pub insert_node-IsSkipList :
    (s : State) (fresh : Ptr) (key : List ℕ)
    → IsKey s.list.key_size key
    → fresh ≢ null
    → s.heap fresh ≡ none
    → (ts us : List Tower) → IsLinked s.list s.heap (ts ++ us)
    → All (λ t. rank s.list.key_size t.key ≤ rank s.list.key_size key) ts
    → All (λ t. rank s.list.key_size key ≤ rank s.list.key_size t.key) us
    → (prev : ℕ → Ptr) → Fingers s.list.head ts s.list.max_height prev
    → (s' : State) × (insert_node s fresh key prev ≡ ok s')
      × IsSkipList s'.list s'.heap (ts ++ (tower fresh key (random_height s.list s.seed).0 ∷ [])) us
      × (s'.list.key_size ≡ s.list.key_size)
      × (s'.list.head ≡ s.list.head)
      × (s'.list.k_max_height ≡ s.list.k_max_height)
      × ((r : Ptr) → r ≢ fresh → s.heap r ≡ none → s'.heap r ≡ none)
unfolding insert_node new_node
insert_node-IsSkipList s fresh key ik ne_null unused ts us w up_to from prev fingers =
    let st = steps s fresh key ik ne_null unused ts us w up_to from prev fingers in
    (
      after_insert s fresh key ik ne_null unused ts us w up_to from prev fingers st.linked st.heap,
      rw (st.raises, st.allocates, st.links) refl,
      st.result,
      refl,
      refl,
      refl,
      st.untouched,
    )
