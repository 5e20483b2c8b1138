-- ===== src/Node.antt =====
-- The nodes of both skip lists on an explicit memory: `DramNode` of log_batch.h and `Node` of
-- nvm_node.h. An address is a number.
pub mod Laws
use persist_tree_test.Base.{
  ℕ, ◌≡◌, ◌==◌, Bool, true, false, Option, none, some, List, ltb, if◌then◌else◌, update,
}
use persist_tree_test.Base.Outcome.{Outcome, ok, fault, ◌>>=◌}

abbrev pub Ptr : Type 0
Ptr = ℕ

abbrev pub null : Ptr
null = 0

-- `key` is the buffer behind `key_`, `height` the number of slots that the node was allocated with,
-- and `next` the array `next_`; a slot that was never written holds `none`.
pub record Node : Type 0 where
  pub key : List ℕ
  pub height : ℕ
  pub next : ℕ → Option Ptr

-- `raw` is a node whose struct was overwritten by the bytes of a string, with a later write of a
-- number over some of them: its pointers are garbage.
pub data Cell : Type 0 where
  node : Node → Cell
  raw : (bytes : List ℕ) (size : ℕ) → Cell

-- `none` is memory that holds no node.
abbrev pub Heap : Type 0
Heap = Ptr → Option Cell

as_node : Option Cell → Outcome Node
as_node (some (node n)) = ok n
as_node _ = fault

-- `*p`
unfoldable pub load : Ptr → Heap → Outcome Node
unfolding as_node
load p h = if p == null then fault else as_node (h p)

slot : Option Ptr → Outcome Ptr
slot (some q) = ok q
slot none = fault

-- `p->Next(i)`
unfoldable pub next : Ptr → ℕ → Heap → Outcome Ptr
unfolding slot
next p i h = do n ← load p h; if ltb i n.height then slot (n.next i) else fault

-- `p->SetNext(i, q)`
unfoldable pub set_next : Ptr → ℕ → Ptr → Heap → Outcome Heap
set_next p i q h = do
  n ← load p h
  if ltb i n.height
      then ok (update h p (some (node (record n { next = update n.next i (some q) }))))
      else fault

-- `new` or `malloc` of a node that holds `key` and has room for `height` pointers, which stay
-- unwritten; `fresh` is the address that the allocation returns.
unfoldable pub allocate : Ptr → List ℕ → ℕ → Heap → Outcome Heap
allocate fresh key height h =
    if fresh == null
    then fault
    else ok (update h fresh (some (node (record { key = key; height = height; next = λ _. none }))))

-- `delete` of a node
unfoldable pub free : Ptr → Heap → Outcome Heap
free p h = do n ← load p h; ok (update h p none)
