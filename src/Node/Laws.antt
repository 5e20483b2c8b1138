-- ===== src/Node/Laws.antt =====
-- What a write to a node changes, and what it leaves alone.
use persist_tree_test.Base.{
  ℕ, ◌<◌, ◌≡◌, ◌≢◌, refl, ◌∙◌, ap, some, none, arith, List, update, ℕ_discrete,
}
use persist_tree_test.Base.Outcome.{ok}
use persist_tree_test.Node.{Ptr, null, Node, node, Heap, load, next, set_next, allocate}

-- At `p` stands a node with this key, and room for `height` pointers.
pub record Stored (h : Heap) (p : Ptr) (key : List ℕ) (height : ℕ) : Type 0 where
  pub ne_null : p ≢ null
  pub found : Node
  pub holds : h p ≡ some (node found)
  pub has_key : found.key ≡ key
  pub has_height : found.height ≡ height

module _ {h : Heap} {p : Ptr} {key : List ℕ} {height : ℕ} (s : Stored h p key height) where
  pub load-ok : load p h ≡ ok s.found
  unfolding load
  load-ok = ground (arith, s.ne_null, s.holds)

-- `h'` is `h` with slot `i` of node `p` set to `q`.
pub record IsWrite (p : Ptr) (i : ℕ) (q : Ptr) (h h' : Heap) : Type 0 where
  pub ne_null : p ≢ null
  pub old : Node
  pub before : h p ≡ some (node old)
  pub after : h' p ≡ some (node (record old { next = update old.next i (some q) }))
  pub room : i < old.height
  pub elsewhere : (r : Ptr) → r ≢ p → h' r ≡ h r

pub next-elsewhere : (h h' : Heap) (r : Ptr) (j : ℕ) → h' r ≡ h r → next r j h' ≡ next r j h
unfolding next load
next-elsewhere h h' r j e = rw e refl

module _ {p q : Ptr} {i : ℕ} {h h' : Heap} (w : IsWrite p i q h h') where
  pub next-written : next p i h' ≡ ok q
  unfolding next load
  next-written = ground (arith, w.ne_null)

  pub next-other_slot : (j : ℕ) → j ≢ i → next p j h' ≡ next p j h
  unfolding next load
  next-other_slot j ne = ground (arith, w.ne_null)

  pub next-other_node : (r : Ptr) (j : ℕ) → r ≢ p → next r j h' ≡ next r j h
  next-other_node r j ne = next-elsewhere h h' r j (w.elsewhere r ne)

  pub next-other_level : (r : Ptr) (j : ℕ) → j ≢ i → next r j h' ≡ next r j h
  next-other_level r j ne = elim (ℕ_discrete r p) [
    | yes e ↦ rw e (next-other_slot j ne)
    | no ne' ↦ next-other_node r j ne'
  ]

  pub Stored-written : {r : Ptr} {k : List ℕ} {n : ℕ} → Stored h r k n → Stored h' r k n
  Stored-written {r} s = elim (ℕ_discrete r p) [
    | yes e ↦ record {
      ne_null = s.ne_null;
      found = record w.old { next = update w.old.next i (some q) };
      holds = rw e w.after;
      has_key = ground (arith, s.holds, s.has_key, w.before);
      has_height = ground (arith, s.holds, s.has_height, w.before);
    }
    | no ne ↦ record {
      ne_null = s.ne_null;
      found = s.found;
      holds = w.elsewhere r ne ∙ s.holds;
      has_key = s.has_key;
      has_height = s.has_height;
    }
  ]

-- A write allocates nothing.
pub IsWrite-none :
    {p q : Ptr} {i : ℕ} {h h' : Heap} → IsWrite p i q h h' → (r : Ptr) → h r ≡ none → h' r ≡ none
IsWrite-none {h} w r e = w.elsewhere r (λ e'. ground (arith, w.before, ap h e')) ∙ e

-- Writing a slot that a node has room for succeeds.
pub set_next-IsWrite :
    {h : Heap} {p : Ptr} {key : List ℕ} {height : ℕ} (i : ℕ) (q : Ptr)
    → Stored h p key height
    → i < height
    → (h' : Heap) × (set_next p i q h ≡ ok h') × IsWrite p i q h h'
unfolding set_next
set_next-IsWrite {h} {p} i q s lt = (
  update h p (some (node (record s.found { next = update s.found.next i (some q) }))),
  rw (load-ok s) (ground (arith, s.has_height)),
  record {
    ne_null = s.ne_null;
    old = s.found;
    before = s.holds;
    after = ground arith;
    room = ground (arith, s.has_height);
    elsewhere = λ r ne. ground arith;
  },
)

-- Allocation at an address that is not in use adds one node, with no slot written.
pub allocate-Stored :
    (fresh : Ptr) (key : List ℕ) (height : ℕ) (h : Heap)
    → fresh ≢ null
    → (h' : Heap) × (allocate fresh key height h ≡ ok h')
      × Stored h' fresh key height
      × ((r : Ptr) → r ≢ fresh → h' r ≡ h r)
unfolding allocate
allocate-Stored fresh key height h ne = (
  update h fresh (some (node (record { key = key; height = height; next = λ _. none }))),
  ground arith,
  record {
    ne_null = ne;
    found = record { key = key; height = height; next = λ _. none };
    holds = ground arith;
    has_key = refl;
    has_height = refl;
  },
  λ r ne'. ground arith,
)

pub Stored-elsewhere :
    {h : Heap} (h' : Heap) {r : Ptr} {k : List ℕ} {n : ℕ}
    → h' r ≡ h r
    → Stored h r k n
    → Stored h' r k n
Stored-elsewhere h' e s = record {
  ne_null = s.ne_null;
  found = s.found;
  holds = e ∙ s.holds;
  has_key = s.has_key;
  has_height = s.has_height;
}
