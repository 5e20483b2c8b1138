-- ===== src/MemorySkipList.antt =====
-- log_batch.h and log_batch.cc, class `Memory_SkipList`: the skip list in DRAM. The heap, and the
-- seed of `Random`, are passed from step to step; each loop over nodes runs on fuel.
pub mod Search
pub mod WellFormed
pub mod Position
pub mod Height
pub mod Link
pub mod Steps
pub mod Insert
pub mod Equal
pub mod Fill
pub mod Lifetime
pub mod Owned
use Prim.Native.Nat.{Ordering, lt, eq, gt}
use persist_tree_test.Base.{
  ℕ, zero, suc, ◌+◌, ◌-◌, ◌*◌, ◌/◌, ◌%◌, ◌^◌, ◌==◌, Bool, true, false, Option, none, some, List, [],
  ◌∷◌, ltb, if◌then◌else◌, update, length,
}
use persist_tree_test.Base.Outcome.{Outcome, ok, fault, out_of_fuel, ◌>>=◌}
use persist_tree_test.CString.{c_str, strncmp}
use persist_tree_test.Node.{Ptr, null, raw, Heap, load, next, set_next, allocate, free}
use persist_tree_test.Random
use persist_tree_test.Random.{k_max_next}

-- The object. `prev` is the array `prev_`, of `k_max_height` places.
pub record SkipList : Type 0 where
  pub head : Ptr
  pub prev : ℕ → Ptr
  pub prev_height : ℕ
  pub k_max_height : ℕ
  pub k_branching : ℕ
  pub k_scaled_inverse_branching : ℕ
  pub key_size : ℕ
  pub max_height : ℕ

-- The object together with what its operations reach: the heap and the generator.
pub record State : Type 0 where
  pub list : SkipList
  pub heap : Heap
  pub seed : ℕ

-- `NewNode`; `fresh` is what `malloc` returns, and a write through a null pointer is a fault.
unfoldable pub new_node : Ptr → List ℕ → ℕ → Heap → Outcome Heap
new_node fresh key height h = allocate fresh key height h

-- The `while` of `RandomHeight`, with `kMaxHeight_ - height` rounds left.
unfoldable pub random_height_loop : ℕ → ℕ → ℕ → ℕ → ℕ × ℕ
random_height_loop scaled zero height seed = (height, seed)
random_height_loop scaled (suc rounds) height seed =
    let (v, seed') = Random.next seed in
    let more = random_height_loop scaled rounds (height + 1) seed' in
    if ltb v scaled then more else (height, seed')

unfoldable pub random_height : SkipList → ℕ → ℕ × ℕ
random_height l seed = random_height_loop l.k_scaled_inverse_branching (l.k_max_height - 1) 1 seed

is_lt : Ordering → Bool
is_lt lt = true
is_lt _ = false

unfoldable pub key_is_after_node : SkipList → List ℕ → Ptr → Heap → Outcome Bool
unfolding is_lt
key_is_after_node l key n h =
    if n == null
    then ok false
    else do found ← load n h; c ← strncmp found.key (c_str key) l.key_size; ok (is_lt c)

unfoldable pub compare_key_and_node : SkipList → List ℕ → Ptr → Heap → Outcome Ordering
compare_key_and_node l key n h = do found ← load n h; strncmp (c_str key) found.key l.key_size

-- The inner `while` of both searches, at level `i` from node `x`: the node that it stops at.
unfoldable pub walk : SkipList → List ℕ → Heap → ℕ → ℕ → Ptr → Outcome Ptr
walk l key h zero i x = out_of_fuel
walk l key h (suc fuel) i x = do
  n ← next x i h
  let rest = walk l key h fuel i n
  after ← (if n == null then ok false else key_is_after_node l key n h)
  if after then rest else ok x

-- `prev[i] = x`, inside the array
unfoldable pub set_prev : SkipList → ℕ → Ptr → (ℕ → Ptr) → Outcome (ℕ → Ptr)
set_prev l i x prev = if ltb i l.k_max_height then ok (update prev i x) else fault

-- The outer `for` of both searches: levels `levels - 1` down to 0, from node `x`.
unfoldable pub descend : SkipList → List ℕ → Heap → ℕ → ℕ → Ptr → (ℕ → Ptr) → Outcome (ℕ → Ptr)
descend l key h fuel zero x prev = ok prev
descend l key h fuel (suc i) x prev = do
  x' ← walk l key h fuel i x
  prev' ← set_prev l i x' prev
  descend l key h fuel i x' prev'

unfoldable pub find_less_than : SkipList → List ℕ → Heap → ℕ → Outcome (ℕ → Ptr)
find_less_than l key h fuel = descend l key h fuel l.max_height l.head l.prev

-- The search starts at `prev[level]`, with `level` being `GetMaxHeight() - 1`.
unfoldable pub find_next_node : SkipList → List ℕ → Heap → ℕ → Outcome (ℕ → Ptr)
find_next_node l key h fuel =
    if l.max_height == 0
    then fault
    else descend l key h fuel l.max_height (l.prev (l.max_height - 1)) l.prev

-- The first half of `Insert`, where the key comes after `prev_[0]` and `n` is the next node. The
-- result is `prev_` after the search, or `none` if `is_same_node`.
unfoldable pub position_after : SkipList → List ℕ → Heap → ℕ → Ptr → Outcome (Option (ℕ → Ptr))
position_after l key h fuel n = if n == null then ok (some l.prev) else do
  c ← compare_key_and_node l key n h
  elim c [
    | lt ↦ ok (some l.prev)
    | gt ↦ do prev ← find_next_node l key h fuel; ok (some prev)
    | eq ↦ ok none
  ]

unfoldable pub position : SkipList → List ℕ → Heap → ℕ → Outcome (Option (ℕ → Ptr))
unfolding position_after
position l key h fuel = do
  c ← compare_key_and_node l key (l.prev 0) h
  elim c [
    | gt ↦ do n ← next (l.prev 0) 0 h; position_after l key h fuel n
    | lt ↦ do prev ← find_less_than l key h fuel; ok (some prev)
    | eq ↦ ok none
  ]

-- `sizeof(DramNode) + height * sizeof(DramNode*)`
abbrev pub struct_size : ℕ → ℕ
struct_size height = 24 + height * 8

-- The branch `is_same_node`: the bytes of the key go over the node itself, not over its key.
pub overwrite_node : State → List ℕ → Outcome State
overwrite_node s key = do
  n ← load (s.list.prev 0) s.heap
  if ltb (struct_size n.height) (length key)
      then fault
      else ok (record s { heap = update s.heap (s.list.prev 0) (some (raw key (length key))) })

-- `prev_[i] = head_` for `count` levels from `i` on.
unfoldable pub raise : SkipList → ℕ → ℕ → (ℕ → Ptr) → Outcome (ℕ → Ptr)
raise l zero i prev = ok prev
raise l (suc count) i prev = do prev' ← set_prev l i l.head prev; raise l count (i + 1) prev'

-- The last loop of `Insert`: links node `x` at `count` levels from `i` on.
unfoldable pub link : SkipList → ℕ → ℕ → Ptr → (ℕ → Ptr) → Heap → Outcome ((ℕ → Ptr) × Heap)
link l zero i x prev h = ok (prev, h)
link l (suc count) i x prev h = do
  n ← next (prev i) i h
  h' ← set_next x i n h
  h'' ← set_next (prev i) i x h'
  prev' ← set_prev l i x prev
  link l count (i + 1) x prev' h''

-- The second half of `Insert`, from `RandomHeight` on; `prev` is `prev_` after the search.
unfoldable pub insert_node : State → Ptr → List ℕ → (ℕ → Ptr) → Outcome State
insert_node s fresh key prev = do
  let l = s.list
  let (height, seed) = random_height l s.seed
  raised ← raise l (height - l.max_height) l.max_height prev
  h ← new_node fresh key height s.heap
  (linked, h') ← link l height 0 fresh raised h
  ok (record {
    list = record l {
      prev = linked;
      prev_height = height % 2 ^ 16;
      max_height = if ltb l.max_height height then height % 2 ^ 16 else l.max_height;
    };
    heap = h';
    seed = seed;
  })

-- `Insert`
unfoldable pub insert : State → ℕ → Ptr → List ℕ → Outcome State
insert s fuel fresh key = do
  place ← position s.list key s.heap fuel
  elim place [ none ↦ overwrite_node s key | some prev ↦ insert_node s fresh key prev ]

-- The loop of the constructor, for `count` levels from `i` on.
unfoldable pub init_loop : Ptr → ℕ → ℕ → (ℕ → Ptr) → Heap → Outcome ((ℕ → Ptr) × Heap)
init_loop head zero i prev h = ok (prev, h)
init_loop head (suc count) i prev h = do
  h' ← set_next head i null h
  init_loop head count (i + 1) (update prev i head) h'

-- The constructor; `garbage` is what the array `prev_` holds when it is allocated.
unfoldable pub init : Ptr → (garbage : ℕ → Ptr) → ℕ → ℕ → ℕ → Heap → Outcome (SkipList × Heap)
init fresh garbage max_height branching_factor key_size h =
    let k_max_height = max_height % 2 ^ 16 in
    let k_branching = branching_factor % 2 ^ 16 in
    if k_branching == 0 then fault else do
      h' ← new_node fresh (b' ' ∷ []) max_height h
      (prev, h'') ← init_loop fresh k_max_height 0 garbage h'
      ok (
        record {
          head = fresh;
          prev = prev;
          prev_height = 1;
          k_max_height = k_max_height;
          k_branching = k_branching;
          k_scaled_inverse_branching = (k_max_next + 1) % 2 ^ 32 / k_branching;
          key_size = key_size;
          max_height = 1;
        },
        h'',
      )

-- The loop of the destructor from node `start` on.
pub destroy_loop : ℕ → Ptr → Heap → Outcome Heap
destroy_loop zero start h = out_of_fuel
destroy_loop (suc fuel) start h =
    if start == null then ok h else do n ← next start 0 h; h' ← free start h; destroy_loop fuel n h'

-- `~Memory_SkipList`; the array `prev_` is not freed.
pub destroy : ℕ → SkipList → Heap → Outcome Heap
destroy fuel l h = do start ← next l.head 0 h; h' ← destroy_loop fuel start h; free l.head h'
