-- ===== src/MemorySkipList/Lifetime.antt =====
-- The constructor and the destructor of `Memory_SkipList`.
use persist_tree_test.Base.{
  ℕ, zero, suc, ◌+◌, ◌/◌, ◌%◌, ◌^◌, ◌<◌, ◌≤◌, ◌≡◌, ◌≢◌, refl, ◌∙◌, sym, arith, none, List, [], ◌∷◌,
  All, All-of, subst, update, length, ne→==_false, ℕ_discrete,
}
use persist_tree_test.Base.Outcome.{ok}
use persist_tree_test.Node.{Ptr, null, Heap, next, free}
use persist_tree_test.Node.Laws.{
  Stored, load-ok, allocate-Stored, set_next-IsWrite, next-written, next-other_level,
  Stored-written, next-elsewhere, Stored-elsewhere,
}
use persist_tree_test.Towers.{Tower, Apart, Distinct}
use persist_tree_test.Towers.Chain.{Chain, stop, through, past, Chain-next}
use persist_tree_test.Random.{k_max_next}
use persist_tree_test.MemorySkipList.{SkipList, init, init_loop, new_node, destroy, destroy_loop}
use persist_tree_test.MemorySkipList.Search.{Holds}
use persist_tree_test.MemorySkipList.WellFormed.{IsLinked, IsSkipList}

-- The levels `i` up to `i + count` of the head and of `prev_` are set, the others are as they were.
pub record Started (head : Ptr) (i count : ℕ) (prev prev' : ℕ → Ptr) (h h' : Heap) : Type 0 where
  pub slots : (j : ℕ) → i ≤ j → j < i + count → (next head j h' ≡ ok null) × (prev' j ≡ head)
  pub others : (j : ℕ) → j < i → (next head j h' ≡ next head j h) × (prev' j ≡ prev j)
  pub elsewhere : (r : Ptr) → r ≢ head → h' r ≡ h r

pub init_loop-Started :
    (head : Ptr) (key : List ℕ) (height count i : ℕ) (prev : ℕ → Ptr) (h : Heap)
    → Stored h head key height
    → i + count ≤ height
    → (prev' : ℕ → Ptr) × (h' : Heap) × (init_loop head count i prev h ≡ ok (prev', h'))
      × Stored h' head key height
      × Started head i count prev prev' h h'
unfolding init_loop
init_loop-Started head key height zero i prev h s le = (
  prev,
  h,
  refl,
  s,
  record {
    slots = λ j a b. absurd (omega arith);
    others = λ j a. (refl, refl);
    elsewhere = λ r ne. refl;
  },
)
init_loop-Started head key height (suc count) i prev h s le =
    let (h1, run1, w) = set_next-IsWrite i null s (omega arith) in
    let (prev', h', run, s', st) =
      init_loop-Started head key height count (i + 1) (update prev i head) h1 (Stored-written w s)
        (omega arith) in
    (
      prev',
      h',
      rw run1 run,
      s',
      record {
        slots = λ j a b. elim (ℕ_discrete j i) [
          | yes e ↦ rw e (
            (st.others i (omega arith)).0 ∙ next-written w,
            (st.others i (omega arith)).1 ∙ ground arith,
          )
          | no ne ↦ st.slots j (omega arith) (omega arith)
        ];
        others = λ j a. (
          (st.others j (omega arith)).0 ∙ next-other_level w head j (omega arith),
          (st.others j (omega arith)).1 ∙ ground arith,
        );
        elsewhere = λ r ne. st.elsewhere r ne ∙ w.elsewhere r ne;
      },
    )

-- A new list is well formed and empty, with the parameters that it was given.
pub init-IsSkipList :
    (fresh : Ptr) (garbage : ℕ → Ptr) (max_height branching_factor key_size : ℕ) (h : Heap)
    → fresh ≢ null
    → 0 < max_height
    → max_height < 2 ^ 16
    → 0 < branching_factor % 2 ^ 16
    → (l : SkipList) × (h' : Heap) × (init fresh garbage max_height branching_factor key_size h
        ≡ ok (l, h'))
      × IsSkipList l h' [] []
      × (l.key_size ≡ key_size)
      × (l.k_max_height ≡ max_height)
      × (l.head ≡ fresh)
      × ((r : Ptr) → r ≢ fresh → h' r ≡ h r)
unfolding init new_node
init-IsSkipList fresh garbage max_height branching_factor key_size h ne pos small divides =
    let (h1, run1, s, same) = allocate-Stored fresh (b' ' ∷ []) max_height h ne in
    let e : max_height % 2 ^ 16 ≡ max_height = omega arith in
    let (prev, h2, run2, s', st) =
      init_loop-Started fresh (b' ' ∷ []) max_height (max_height % 2 ^ 16) 0 garbage h1 s
        (omega arith) in
    let l : SkipList = record {
      head = fresh;
      prev = prev;
      prev_height = 1;
      k_max_height = max_height % 2 ^ 16;
      k_branching = branching_factor % 2 ^ 16;
      k_scaled_inverse_branching = (k_max_next + 1) % 2 ^ 32 / (branching_factor % 2 ^ 16);
      key_size = key_size;
      max_height = 1;
    } in
    (
      l,
      h2,
      rw (ne→==_false (branching_factor % 2 ^ 16) 0 (omega arith), run1, run2) refl,
      record {
        linked = record {
          head_stored = subst (Stored h2 fresh (b' ' ∷ [])) (sym e) s';
          holds = tt;
          tall = tt;
          low = tt;
          some_level = omega arith;
          levels = omega arith;
          small = omega arith;
          chains = λ i lt. stop (st.slots i (omega arith) (omega arith)).0;
          apart = tt;
          distinct = tt;
          ascending = tt;
        };
        fingers = λ i lt. (st.slots i (omega arith) (omega arith)).1;
      },
      refl,
      e,
      refl,
      λ r ne'. st.elsewhere r ne' ∙ same r ne',
    )

-- The nodes of the towers are gone, and no other node is touched.
pub record Freed (zs : List Tower) (h h' : Heap) : Type 0 where
  pub gone : All (λ t. h' t.ptr ≡ none) zs
  pub kept : (r : Ptr) → Apart r zs → h' r ≡ h r

free-ok :
    {h : Heap} {p : Ptr} {key : List ℕ} {height : ℕ}
    → Stored h p key height
    → free p h ≡ ok (update h p none)
unfolding free
free-ok s = rw (load-ok s) refl

-- `h'` is the heap in which the nodes before have been freed already.
destroy_loop-Freed :
    (n fuel : ℕ) {q : Ptr} {h : Heap} (zs : List Tower) (start : Ptr) (h' : Heap)
    → Chain h 0 q zs
    → next q 0 h ≡ ok start
    → length zs < fuel
    → All (Holds n h) zs
    → All (λ t. 0 < t.height) zs
    → Distinct zs
    → All (λ t. h' t.ptr ≡ h t.ptr) zs
    → (h'' : Heap) × (destroy_loop fuel start h' ≡ ok h'') × Freed zs h' h''
unfolding destroy_loop
destroy_loop-Freed n zero zs start h' c e lt holds tall d same = absurd (omega arith)
destroy_loop-Freed n (suc fuel) [] start h' (stop e') e lt holds tall d same =
    (h', ground arith, record { gone = tt; kept = λ r a. refl })
destroy_loop-Freed n (suc fuel) (t ∷ zs) start h' (past le c) e lt holds tall d same =
    absurd (omega (arith, tall.0))
destroy_loop-Freed n (suc fuel) {h} (t ∷ zs) start h' (through high e' c) e lt holds tall d same =
    let at : start ≡ t.ptr = ground arith in
    let (after, reads) = Chain-next c in
    let s : Stored h' t.ptr t.key t.height = Stored-elsewhere h' same.0 holds.0.stored in
    let (h'', run, f) =
      destroy_loop-Freed n fuel zs after (update h' t.ptr none) c reads (omega arith) holds.1 tall.1
        d.1 (still h' t.ptr zs d.0 same.1) in
    (
      h'',
      rw (at, ne→==_false _ _ s.ne_null, next-elsewhere h h' t.ptr 0 same.0, reads, free-ok s) run,
      record {
        gone = (f.kept t.ptr d.0 ∙ ground arith, f.gone);
        kept = λ r a. f.kept r a.1 ∙ ground (arith, a.0);
      },
    )
  where
    still :
        (g : Heap) (p : Ptr) (us : List Tower)
        → Apart p us
        → All (λ u. g u.ptr ≡ h u.ptr) us
        → All (λ u. update g p none u.ptr ≡ h u.ptr) us
    still g p [] a b = tt
    still g p (u ∷ us) a b = (ground (arith, a.0, b.0), still g p us a.1 b.1)

-- The destructor frees the head and every node of the list, and no other node.
pub destroy-Freed :
    (l : SkipList) (h : Heap) (zs : List Tower) (fuel : ℕ)
    → IsLinked l h zs
    → length zs < fuel
    → (h' : Heap) × (destroy fuel l h ≡ ok h')
      × All (λ t. h' t.ptr ≡ none) zs
      × (h' l.head ≡ none)
      × ((r : Ptr) → r ≢ l.head → Apart r zs → h' r ≡ h r)
unfolding destroy
destroy-Freed l h zs fuel w lt =
    let c = w.chains 0 (omega (arith, w.some_level, w.levels)) in
    let (start, reads) = Chain-next c in
    let (h', run, f) =
      destroy_loop-Freed l.key_size fuel zs start h c reads lt w.holds w.tall w.distinct
        (All-of _ (λ t. refl) zs) in
    let s : Stored h' l.head (b' ' ∷ []) l.k_max_height =
      Stored-elsewhere h' (f.kept l.head w.apart) w.head_stored in
    (
      update h' l.head none,
      rw (reads, run) (free-ok s),
      gone_still h' l.head zs f.gone,
      ground arith,
      λ r ne a. ground (arith, f.kept r a),
    )
  where
    gone_still :
        (g : Heap) (p : Ptr) (us : List Tower)
        → All (λ u. g u.ptr ≡ none) us
        → All (λ u. update g p none u.ptr ≡ none) us
    gone_still g p [] b = tt
    gone_still g p (u ∷ us) b = (ground (arith, b.0), gone_still g p us b.1)
