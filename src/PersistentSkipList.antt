-- ===== src/PersistentSkipList.antt =====
-- persistent_skip_list.h and .cc, class `Persistent_SkipList`: the skip list in NVM, built with
-- CAL_ACCESS_COUNT. Nodes lie at the addresses that the allocator gives out. `RandomHeight`,
-- `KeyIsAfterNode` and `CompareKeyAndNode` have the text of `Memory_SkipList`, and are taken from
-- there, over the fields that both classes have. Flushing to NVM changes no value.
pub mod Erasure
pub mod Insert
pub mod Lifetime
pub mod Levels
pub mod Printing
use Prim.Native.Nat.{Ordering, lt, eq, gt}
use persist_tree_test.Base.{
  ℕ, zero, suc, ◌+◌, ◌-◌, ◌*◌, ◌/◌, ◌%◌, ◌^◌, ◌==◌, Bool, true, false, List, [], ◌∷◌, none, ltb,
  if◌then◌else◌, update, length,
}
use persist_tree_test.Base.Outcome.{Outcome, ok, fault, out_of_fuel, ◌>>=◌}
use persist_tree_test.Node.{Ptr, null, Heap, next, set_next, allocate}
use persist_tree_test.PersistentAllocator.{Allocator, bump}
use persist_tree_test.Random.{k_max_next}
use persist_tree_test.MemorySkipList
use persist_tree_test.MemorySkipList.{SkipList, set_prev, raise, link, init_loop}

-- The counters of CAL_ACCESS_COUNT, each a uint64_t.
pub record Counters : Type 0 where
  pub cnt_time : ℕ
  pub all_cnt : ℕ
  pub head_cnt : ℕ
  pub suit_cnt : ℕ
  pub opt_num : ℕ
  pub opt_1g_num : ℕ
  pub per_1g_num : ℕ

-- The object and what it reaches: its own fields, the counters, the allocator, the nodes in NVM,
-- and the generator.
pub record NvmList : Type 0 where
  pub list : SkipList
  pub counters : Counters
  pub allocator : Allocator
  pub heap : Heap
  pub seed : ℕ

abbrev pub u64 : ℕ → ℕ
u64 n = n % 2 ^ 64

-- `sizeof(Node) + sizeof(Node*) * (height - 1)`
abbrev pub node_size : ℕ → ℕ
node_size height = 16 + 8 * (height - 1)

-- `NewNode`: a block for the node and one for the key. A write behind the mapped file is a fault.
unfoldable pub new_node : Allocator → List ℕ → ℕ → Heap → Outcome (Ptr × Allocator × Heap)
new_node a key height h = do
  let (mem, a') = bump a (node_size height)
  let (pkey, a'') = bump a' (length key)
  if ltb (a.pmemaddr + a.mapped_len) a''.cur_index
      then fault
      else do h' ← allocate mem key height h; ok (mem, a'', h')

-- `RandomHeight`, `KeyIsAfterNode` and `CompareKeyAndNode` are written as in DRAM.
abbrev pub random_height : SkipList → ℕ → ℕ × ℕ
random_height l seed = MemorySkipList.random_height l seed

abbrev pub key_is_after_node : SkipList → List ℕ → Ptr → Heap → Outcome Bool
key_is_after_node l key n h = MemorySkipList.key_is_after_node l key n h

abbrev pub compare_key_and_node : SkipList → List ℕ → Ptr → Heap → Outcome Ordering
compare_key_and_node l key n h = MemorySkipList.compare_key_and_node l key n h

-- The inner `while` of both searches; `cnt` counts the nodes that it passes.
unfoldable pub walk : SkipList → List ℕ → Heap → ℕ → ℕ → Ptr → ℕ → Outcome (Ptr × ℕ)
walk l key h zero i x cnt = out_of_fuel
walk l key h (suc fuel) i x cnt = do
  n ← next x i h
  let rest = walk l key h fuel i n (cnt + 1)
  after ← (if n == null then ok false else key_is_after_node l key n h)
  if after then rest else ok (x, cnt)

unfoldable pub descend :
    SkipList → List ℕ → Heap → ℕ → ℕ → Ptr → (ℕ → Ptr) → ℕ → Outcome ((ℕ → Ptr) × ℕ)
descend l key h fuel zero x prev cnt = ok (prev, cnt)
descend l key h fuel (suc i) x prev cnt = do
  (x', cnt') ← walk l key h fuel i x cnt
  prev' ← set_prev l i x' prev
  descend l key h fuel i x' prev' cnt'

-- The end of both searches: the average over a gigabyte is printed and `cnt_time_` starts again.
-- A remainder by 0 is a fault.
pub add_time : Counters → ℕ → Outcome Counters
add_time c cnt =
    let time = u64 (c.cnt_time + cnt) in
    if c.per_1g_num == 0
    then fault
    else ok (record c { cnt_time = if (c.opt_1g_num % c.per_1g_num) == 0 then 0 else time })

unfoldable pub find_less_than :
    SkipList → Counters → List ℕ → Heap → ℕ → Outcome ((ℕ → Ptr) × Counters)
unfolding add_time
find_less_than l c key h fuel = do
  (prev, cnt) ← descend l key h fuel l.max_height l.head l.prev 0
  c' ← add_time (record c { all_cnt = u64 (c.all_cnt + 1); head_cnt = u64 (c.head_cnt + 1) }) cnt
  ok (prev, c')

unfoldable pub find_next_node :
    SkipList → Counters → List ℕ → Heap → ℕ → Outcome ((ℕ → Ptr) × Counters)
unfolding add_time
find_next_node l c key h fuel = if l.max_height == 0 then fault else do
  (prev, cnt) ← descend l key h fuel l.max_height (l.prev (l.max_height - 1)) l.prev 0
  c' ← add_time (record c { all_cnt = u64 (c.all_cnt + 1) }) cnt
  ok (prev, c')

pub suited : Counters → Counters
suited c = record c { suit_cnt = u64 (c.suit_cnt + 1) }

pub timed : Counters → Counters
timed c = record c { cnt_time = u64 (c.cnt_time + 1) }

-- The part of `Insert` for a key that comes after `prev_[0]`; `n` is the next node. An equal key is
-- only reported.
unfoldable pub position_after :
    SkipList → Counters → List ℕ → Heap → ℕ → Ptr → Outcome ((ℕ → Ptr) × Counters)
unfolding suited timed
position_after l c key h fuel n = if n == null then ok (l.prev, timed (suited c)) else do
  res_next ← compare_key_and_node l key n h
  elim res_next [
    | lt ↦ ok (l.prev, timed (suited c))
    | gt ↦ do (prev, c') ← find_next_node l c key h fuel; ok (prev, timed c')
    | eq ↦ ok (l.prev, timed c)
  ]

-- The first half of `Insert`.
unfoldable pub position : SkipList → Counters → List ℕ → Heap → ℕ → Outcome ((ℕ → Ptr) × Counters)
unfolding position_after
position l c key h fuel = do
  let counted = record c { opt_1g_num = u64 (c.opt_1g_num + 1) }
  res ← compare_key_and_node l key (l.prev 0) h
  elim res [
    | gt ↦ do n ← next (l.prev 0) 0 h; position_after l counted key h fuel n
    | lt ↦ find_less_than l counted key h fuel
    | eq ↦ ok (l.prev, counted)
  ]

-- `Insert`
unfoldable pub insert : NvmList → ℕ → List ℕ → Outcome NvmList
insert s fuel key = do
  let l = s.list
  (prev, c) ← position l s.counters key s.heap fuel
  let (height, seed) = random_height l s.seed
  raised ← raise l (height - l.max_height) l.max_height prev
  (x, a, h) ← new_node s.allocator key height s.heap
  (linked, h') ← link l height 0 x raised h
  ok (record {
    list = record l {
      prev = linked;
      prev_height = height % 2 ^ 16;
      max_height = if ltb l.max_height height then height % 2 ^ 16 else l.max_height;
    };
    counters = c;
    allocator = a;
    heap = h';
    seed = seed;
  })

-- The constructor; `garbage` is what the block of `prev_` holds in the file, and `seed` the state of
-- the generator.
unfoldable pub init :
    Allocator
    → (garbage : ℕ → Ptr) → (max_height branching_factor key_size opt_num per_1g_num seed : ℕ)
    → Outcome NvmList
init a garbage max_height branching_factor key_size opt_num per_1g_num seed =
    let k_max_height = max_height % 2 ^ 16 in
    let k_branching = branching_factor % 2 ^ 16 in
    if k_branching == 0 then fault else do
      (head, a', h) ← new_node a (b' ' ∷ []) max_height (λ _. none)
      let (_, a'') = bump a' (8 * k_max_height)
      (prev, h') ←
          (if ltb (a.pmemaddr + a.mapped_len) a''.cur_index
            then fault
            else init_loop head k_max_height 0 garbage h)
      ok (record {
        list = record {
          head = head;
          prev = prev;
          prev_height = 1;
          k_max_height = k_max_height;
          k_branching = k_branching;
          k_scaled_inverse_branching = (k_max_next + 1) % 2 ^ 32 / k_branching;
          key_size = key_size;
          max_height = 1;
        };
        counters = record {
          cnt_time = 0;
          all_cnt = 0;
          head_cnt = 0;
          suit_cnt = 0;
          opt_num = opt_num;
          opt_1g_num = 0;
          per_1g_num = per_1g_num;
        };
        allocator = a'';
        heap = h';
        seed = seed;
      })

-- `num++` for an int; an overflow is undefined behaviour.
pub increment : ℕ → Outcome ℕ
increment num = if ltb (num + 1) (2 ^ 31) then ok (num + 1) else fault

-- The inner loop of `PrintLevelNum` from node `start` on, with `num` nodes counted so far.
pub level_num_loop : Heap → ℕ → ℕ → Ptr → ℕ → Outcome ℕ
level_num_loop h i zero start num = out_of_fuel
level_num_loop h i (suc fuel) start num =
    if start == null
    then ok num
    else do n ← next start i h; num' ← increment num; level_num_loop h i fuel n num'

-- The number that `PrintLevelNum` prints for level `i`.
pub level_num : NvmList → ℕ → ℕ → Outcome ℕ
level_num s fuel i = do start ← next s.list.head i s.heap; level_num_loop s.heap i fuel start 0
