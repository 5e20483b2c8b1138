-- ===== src/MemorySkipList/Steps.antt =====
-- The steps of the second half of `Insert` on a well-formed list.
use persist_tree_test.Base.{
  ℕ, ◌-◌, ◌%◌, ◌^◌, ◌<◌, ◌≤◌, ◌≡◌, ◌≢◌, refl, ◌∙◌, sym, ap, ◌⊎◌, inl, inr, arith, none, List, [],
  ◌∷◌, ◌++◌, All, All-left, All-map, subst, append_assoc, ltb, if◌then◌else◌, lt→ltb, le→ltb_false,
  lt_cases,
}
use persist_tree_test.Base.Outcome.{ok}
use persist_tree_test.CString.Rank.{IsKey, rank}
use persist_tree_test.Node.{Ptr, null, Heap, allocate}
use persist_tree_test.Node.Laws.{Stored, allocate-Stored, Stored-elsewhere, next-elsewhere}
use persist_tree_test.Towers.{Tower, last, last-append, last_low, Apart, Ascending-append}
use persist_tree_test.Towers.Chain.{Chain-move}
use persist_tree_test.Towers.Splice.{All-insert, Distinct-insert, Chain-skip}
use persist_tree_test.MemorySkipList.{SkipList, State, random_height, raise, link}
use persist_tree_test.MemorySkipList.Search.{Holds}
use persist_tree_test.MemorySkipList.Search.Descend.{Fingers}
use persist_tree_test.MemorySkipList.WellFormed.{IsLinked, IsSkipList}
use persist_tree_test.MemorySkipList.Height.{random_height_bounds, raise_lem}
use persist_tree_test.MemorySkipList.Link.{Linking, link-Linking}

abbrev pub tower : Ptr → List ℕ → ℕ → Tower
tower p key height = record { ptr = p; key = key; height = height }

-- An address that holds nothing is none of the list's nodes.
Apart-fresh :
    (n : ℕ) (h : Heap) (fresh : Ptr) (zs : List Tower)
    → h fresh ≡ none
    → All (Holds n h) zs
    → Apart fresh zs
Apart-fresh n h fresh zs unused a =
    All-map _ _ (λ t s e. ground (arith, s.stored.holds, ap h e)) zs a

Holds-fresh :
    (n : ℕ) (h h' : Heap) (fresh : Ptr)
    → ((r : Ptr) → r ≢ fresh → h' r ≡ h r)
    → (zs : List Tower) → Apart fresh zs
    → All (Holds n h) zs
    → All (Holds n h') zs
Holds-fresh n h h' fresh same [] a b = tt
Holds-fresh n h h' fresh same (t ∷ zs) a b = (
  record {
    stored = Stored-elsewhere h' (same t.ptr (λ e. a.0 (sym e))) b.0.stored;
    is_key = b.0.is_key;
  },
  Holds-fresh n h h' fresh same zs a.1 b.1,
)

module _ (s : State) (fresh : Ptr) (key : List ℕ) (ik : IsKey s.list.key_size key)
    (ne_null : fresh ≢ null) (unused : s.heap fresh ≡ none) where
  abbrev pub l : SkipList
  l = s.list

  abbrev pub height : ℕ
  height = (random_height l s.seed).0

  -- The towers `ts` and `us` around the place, with `prev` at the end of `ts` on each level in use.
  module _ (ts us : List Tower) (w : IsLinked l s.heap (ts ++ us))
      (up_to : All (λ t. rank l.key_size t.key ≤ rank l.key_size key) ts)
      (from : All (λ t. rank l.key_size key ≤ rank l.key_size t.key) us) (prev : ℕ → Ptr)
      (fingers : Fingers l.head ts l.max_height prev) where
    abbrev pub x : Tower
    x = tower fresh key height

    heights : (1 ≤ height) × (height ≤ l.k_max_height)
    heights = random_height_bounds l s.seed (omega (arith, w.some_level, w.levels))

    new : Apart fresh (ts ++ us)
    new = Apart-fresh l.key_size s.heap fresh (ts ++ us) unused w.holds

    not_head : l.head ≢ fresh
    not_head e = ground (arith, w.head_stored.holds, ap s.heap e)

    -- After the allocation no level is linked yet.
    Linking-start :
        (h : Heap) (raised : ℕ → Ptr)
        → Stored h fresh key height
        → ((r : Ptr) → r ≢ fresh → h r ≡ s.heap r)
        → ((j : ℕ) → j < height → raised j ≡ last j l.head ts)
        → Linking l x ts us heights.1 w.apart w.distinct new not_head 0 raised h
    Linking-start h raised stored same ahead = record {
      head_stored = Stored-elsewhere h (same l.head not_head) w.head_stored;
      holds = Holds-fresh l.key_size s.heap h fresh same (ts ++ us) new w.holds;
      new_holds = record { stored = stored; is_key = ik };
      done = λ j lt. absurd (omega arith);
      waiting = λ j le lt.
          Chain-move h l.head (w.chains j lt)
            (next-elsewhere s.heap h l.head j (same l.head not_head))
            (All-map _ _ (λ t ne. next-elsewhere s.heap h t.ptr j (same t.ptr (λ e. ne (sym e))))
              (ts ++ us) new);
      ahead = λ j le lt. ahead j lt;
    }

    abbrev pub max_height' : ℕ
    max_height' = if ltb l.max_height height then height % 2 ^ 16 else l.max_height

    max_height'_bounds :
        (height ≤ max_height')
        × (l.max_height ≤ max_height')
        × (max_height' ≤ l.k_max_height)
        × ((j : ℕ) → j < max_height' → (j < height) ⊎ (j < l.max_height))
    max_height'_bounds =
        let small : height % 2 ^ 16 ≡ height = omega (arith, heights, w.small) in
        ground (arith, w.levels, heights)

    -- After the last round every level is linked.
    IsLinked-done :
        (prev' : ℕ → Ptr) (prev_height : ℕ) (linked : ℕ → Ptr) (h : Heap)
        → Linking l x ts us heights.1 w.apart w.distinct new not_head height linked h
        → IsLinked
            (record l { prev = prev'; prev_height = prev_height; max_height = max_height' })
            h
            (ts ++ (x ∷ us))
    IsLinked-done prev' prev_height linked h k = record {
      head_stored = k.head_stored;
      holds = All-insert _ ts us x k.holds k.new_holds;
      tall = All-insert _ ts us x w.tall (omega (arith, heights));
      low =
          All-insert _ ts us x
            (All-map _ _ (λ t le. omega (arith, max_height'_bounds)) (ts ++ us) w.low)
            (omega (arith, max_height'_bounds));
      some_level = omega (arith, max_height'_bounds, w.some_level);
      levels = max_height'_bounds.2;
      small = w.small;
      chains = λ i lt. elim (lt_cases i height) [
        | inl in_new ↦ k.done i in_new
        | inr above ↦ Chain-skip ts us x above (k.waiting i above lt)
      ];
      apart = All-insert _ ts us x w.apart not_head;
      distinct = Distinct-insert ts us x w.distinct new;
      ascending =
          Ascending-append l.key_size (rank l.key_size key) ts us w.ascending up_to from x refl;
    }

    last_new :
        (i : ℕ)
        → last i l.head (ts ++ (x ∷ [])) ≡ (if ltb i height then fresh else last i l.head ts)
    last_new i = last-append i l.head ts (x ∷ [])

    abbrev pub after_insert : (ℕ → Ptr) → Heap → State
    after_insert linked h = record {
      list = record l { prev = linked; prev_height = height % 2 ^ 16; max_height = max_height' };
      heap = h;
      seed = (random_height l s.seed).1;
    }

    -- `prev_` once the new levels point at the head.
    raised_ahead :
        (raised : ℕ → Ptr)
        → ((j : ℕ) → l.max_height ≤ j → j < height → raised j ≡ l.head)
        → ((j : ℕ) → j < l.max_height → raised j ≡ prev j)
        → (j : ℕ) → j < height
        → raised j ≡ last j l.head ts
    raised_ahead raised up kept j lt = elim (lt_cases j l.max_height) [
      | inl in_use ↦ kept j in_use ∙ fingers j in_use
      | inr above ↦
          up j above lt
          ∙ sym (
              last_low j l.head ts
                (All-map _ _ (λ t le. omega (arith, above, le)) ts (All-left _ ts us w.low)))
    ]

    Fingers-done :
        (raised linked : ℕ → Ptr)
        → ((j : ℕ) → j < l.max_height → raised j ≡ prev j)
        → ((j : ℕ) → j < height → linked j ≡ fresh)
        → ((j : ℕ) → height ≤ j → linked j ≡ raised j)
        → Fingers l.head (ts ++ (x ∷ [])) max_height' linked
    Fingers-done raised linked kept news olds j lt = elim (lt_cases j height) [
      | inl in_new ↦ news j in_new ∙ sym (last_new j ∙ rw (lt→ltb _ _ in_new) refl)
      | inr above ↦
          let in_use : j < l.max_height = omega (arith, max_height'_bounds.3 j lt) in
          olds j above
          ∙ kept j in_use
          ∙ fingers j in_use
          ∙ sym (last_new j ∙ rw (le→ltb_false _ _ above) refl)
    ]

    -- Each step of the second half of `Insert`, and the list that it leads to.
    pub record Steps : Type 0 where
      pub raised : ℕ → Ptr
      pub fresh_heap : Heap
      pub linked : ℕ → Ptr
      pub heap : Heap
      pub raises : raise l (height - l.max_height) l.max_height prev ≡ ok raised
      pub allocates : allocate fresh key height s.heap ≡ ok fresh_heap
      pub links : link l height 0 fresh raised fresh_heap ≡ ok (linked, heap)
      pub result : IsSkipList (after_insert linked heap).list heap (ts ++ (x ∷ [])) us
      pub untouched : (r : Ptr) → r ≢ fresh → s.heap r ≡ none → heap r ≡ none

    pub steps : Steps
    steps =
        let (raised, run1, up, kept) =
          raise_lem l (height - l.max_height) l.max_height prev
            (omega (arith, heights, w.levels)) in
        let (h, run2, stored, same) = allocate-Stored fresh key height s.heap ne_null in
        let up' : (j : ℕ) → l.max_height ≤ j → j < height → raised j ≡ l.head =
          λ j a b. up j a (omega arith) in
        let kept' : (j : ℕ) → j < l.max_height → raised j ≡ prev j = λ j a. kept j (inl a) in
        let (linked, h', run3, k, news, olds, empty) =
          link-Linking l x ts us heights.1 w.apart w.distinct new not_head height 0 raised h
            (omega arith) (Linking-start h raised stored same (raised_ahead raised up' kept')) in
        record {
          raised = raised;
          fresh_heap = h;
          linked = linked;
          heap = h';
          raises = run1;
          allocates = run2;
          links = run3;
          result = record {
            linked =
                subst (IsLinked (after_insert linked h').list h')
                  (sym (append_assoc ts (x ∷ []) us))
                  (IsLinked-done linked (height % 2 ^ 16) linked h' k);
            fingers =
                Fingers-done raised linked kept' (λ j a. news j (omega arith) a)
                  (λ j a. olds j (inr a));
          };
          untouched = λ r ne e. empty r (same r ne ∙ e);
        }
