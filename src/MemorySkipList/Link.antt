-- ===== src/MemorySkipList/Link.antt =====
-- The last loop of `Insert`: one level after another takes in the new node.
use persist_tree_test.Base.{
  ℕ, zero, suc, ◌+◌, ◌<◌, ◌≤◌, ◌≡◌, ◌≢◌, refl, ◌∙◌, sym, none, ◌⊎◌, inl, inr, arith, List, [], ◌∷◌,
  ◌++◌, All, All-left, All-map, All-of, subst, lt→ltb, le→ltb_false, lt_cases, update, ℕ_discrete,
}
use persist_tree_test.Base.Outcome.{ok}
use persist_tree_test.Node.{Ptr, Heap, next, set_next}
use persist_tree_test.Node.Laws.{
  Stored, IsWrite, set_next-IsWrite, next-written, next-other_node, next-other_level,
  Stored-written, IsWrite-none,
}
use persist_tree_test.Towers.{Tower, last, Apart, Distinct}
use persist_tree_test.Towers.Chain.{Chain, Chain-last, Chain-next, Chain-move}
use persist_tree_test.Towers.Splice.{Chain-splice, last_ne}
use persist_tree_test.MemorySkipList.{SkipList, set_prev, link}
use persist_tree_test.MemorySkipList.Search.{Holds}

Holds-written :
    (n : ℕ) {i : ℕ} {p q : Ptr} {h h' : Heap} (ts : List Tower)
    → IsWrite p i q h h'
    → All (Holds n h) ts
    → All (Holds n h') ts
Holds-written n ts w a =
    All-map _ _ (λ t s. record { stored = Stored-written w s.stored; is_key = s.is_key }) ts a

-- The last node at a level is the head or a tower, and has room at that level.
last-Stored :
    (n : ℕ) {i height : ℕ} {h : Heap} {q : Ptr} {key : List ℕ} (ts : List Tower)
    → Stored h q key height
    → i < height
    → All (Holds n h) ts
    → (k : List ℕ) × (m : ℕ) × Stored h (last i q ts) k m × (i < m)
last-Stored n {height} {key} [] s lt a = (key, height, s, lt)
last-Stored n {i} {height} {h} {q} (t ∷ ts) s lt a = elim (lt_cases i t.height) [
  | inl high ↦ rw (lt→ltb _ _ high) (last-Stored n ts a.0.stored high a.1)
  | inr low ↦ rw (le→ltb_false _ _ low) (last-Stored n ts s lt a.1)
]

-- The new tower `x` goes between `ts` and `us`.
module _ (l : SkipList) (x : Tower) (ts us : List Tower) (fits : x.height ≤ l.k_max_height)
    (apart : Apart l.head (ts ++ us)) (distinct : Distinct (ts ++ us))
    (new : Apart x.ptr (ts ++ us)) (not_head : l.head ≢ x.ptr) where
  -- Levels below `i` are linked, those from `i` on are as before.
  pub record Linking (i : ℕ) (prev : ℕ → Ptr) (h : Heap) : Type 0 where
    pub head_stored : Stored h l.head (b' ' ∷ []) l.k_max_height
    pub holds : All (Holds l.key_size h) (ts ++ us)
    pub new_holds : Holds l.key_size h x
    pub done : (j : ℕ) → j < i → Chain h j l.head (ts ++ (x ∷ us))
    pub waiting : (j : ℕ) → i ≤ j → j < l.k_max_height → Chain h j l.head (ts ++ us)
    pub ahead : (j : ℕ) → i ≤ j → j < x.height → prev j ≡ last j l.head ts

  finger_ne_new : (i : ℕ) → last i l.head ts ≢ x.ptr
  finger_ne_new i e =
      last_ne i x.ptr l.head ts (λ e'. not_head (sym e')) (All-left _ ts us new) (sym e)

  -- One round of the loop.
  link-step :
      (i : ℕ) (prev : ℕ → Ptr) (h : Heap)
      → i < x.height
      → Linking i prev h
      → (n : Ptr) × (h1 : Heap) × (h2 : Heap) × (next (prev i) i h ≡ ok n)
        × (set_next x.ptr i n h ≡ ok h1)
        × (set_next (prev i) i x.ptr h1 ≡ ok h2)
        × Linking (suc i) (update prev i x.ptr) h2
        × ((r : Ptr) → h r ≡ none → h2 r ≡ none)
  link-step i prev h lt s =
      let p = last i l.head ts in
      let at : prev i ≡ p = s.ahead i (omega arith) lt in
      let chain = s.waiting i (omega arith) (omega arith) in
      let (n, reads) = Chain-next (Chain-last ts us chain) in
      let (k, m, p_stored, room) =
        last-Stored l.key_size {i = i} ts s.head_stored (omega (arith, fits))
          (All-left _ ts us s.holds) in
      let (h1, run1, w1) = set_next-IsWrite i n s.new_holds.stored lt in
      let (h2, run2, w2) = set_next-IsWrite i x.ptr (Stored-written w1 p_stored) room in
      let ne : p ≢ x.ptr = finger_ne_new i in
      let other : (j : ℕ) → j ≢ i → (r : Ptr) → next r j h2 ≡ next r j h =
        λ j nj r. next-other_level w2 r j nj ∙ next-other_level w1 r j nj in
      let new_chain : Chain h2 i l.head (ts ++ (x ∷ us)) =
        Chain-splice h h2 i (λ r np nx. next-other_node w2 r i np ∙ next-other_node w1 r i nx)
          (next-written w2)
          (next-other_node w2 x.ptr i (λ e. ne (sym e)) ∙ next-written w1 ∙ sym reads) ts us x chain
          refl refl lt not_head apart distinct new in
      (
        n,
        h1,
        h2,
        subst (λ q. next q i h ≡ ok n) (sym at) reads,
        run1,
        subst (λ q. set_next q i x.ptr h1 ≡ ok h2) (sym at) run2,
        record {
          head_stored = Stored-written w2 (Stored-written w1 s.head_stored);
          holds =
              Holds-written l.key_size (ts ++ us) w2
                (Holds-written l.key_size (ts ++ us) w1 s.holds);
          new_holds = record {
            stored = Stored-written w2 (Stored-written w1 s.new_holds.stored);
            is_key = s.new_holds.is_key;
          };
          done = λ j lt'. elim (ℕ_discrete j i) [
            | yes e ↦ subst (λ y. Chain h2 y l.head (ts ++ (x ∷ us))) (sym e) new_chain
            | no nj ↦
                Chain-move h2 l.head (s.done j (omega arith)) (other j nj l.head)
                  (All-of _ (λ t. other j nj t.ptr) _)
          ];
          waiting = λ j le lt'.
              Chain-move h2 l.head (s.waiting j (omega arith) lt') (other j (omega arith) l.head)
                (All-of _ (λ t. other j (omega arith) t.ptr) _);
          ahead = λ j le lt'. ground (arith, s.ahead j);
        },
        λ r e. IsWrite-none w2 r (IsWrite-none w1 r e),
      )

  pub link-Linking :
      (count i : ℕ) (prev : ℕ → Ptr) (h : Heap)
      → i + count ≡ x.height
      → Linking i prev h
      → (prev' : ℕ → Ptr) × (h' : Heap) × (link l count i x.ptr prev h ≡ ok (prev', h'))
        × Linking x.height prev' h'
        × ((j : ℕ) → i ≤ j → j < x.height → prev' j ≡ x.ptr)
        × ((j : ℕ) → (j < i) ⊎ (x.height ≤ j) → prev' j ≡ prev j)
        × ((r : Ptr) → h r ≡ none → h' r ≡ none)
  unfolding link set_prev
  link-Linking zero i prev h e s = (
    prev,
    h,
    refl,
    subst (λ j. Linking j prev h) (omega arith) s,
    λ j le lt. absurd (omega arith),
    λ j o. refl,
    λ r u. u,
  )
  link-Linking (suc count) i prev h e s =
      let (n, h1, h2, reads, run1, run2, s', untouched) = link-step i prev h (omega arith) s in
      let (prev', h', run, linked, set_levels, kept, untouched') =
        link-Linking count (i + 1) (update prev i x.ptr) h2 (omega arith)
          (subst (λ j. Linking j (update prev i x.ptr) h2) (omega arith) s') in
      (
        prev',
        h',
        rw (reads, run1, run2, lt→ltb i l.k_max_height (omega arith)) run,
        linked,
        λ j le lt. ground (arith, set_levels j, kept j),
        λ j o. ground (arith, kept j),
        λ r e'. untouched' r (untouched r e'),
      )
