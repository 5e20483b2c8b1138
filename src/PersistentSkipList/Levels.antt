-- ===== src/PersistentSkipList/Levels.antt =====
-- `Persistent_SkipList::PrintLevelNum` on well-formed lists.
use persist_tree_test.Base.{
  ℕ, zero, suc, ◌+◌, ◌^◌, ◌<◌, ◌≤◌, ◌≡◌, refl, ◌∙◌, ap, arith, List, [], ◌∷◌, ◌++◌, All, ltb,
  if◌then◌else◌, lt→ltb, le→ltb_false, length, ne→==_false,
}
use persist_tree_test.Base.Outcome.{Outcome, ok, ◌>>=◌}
use persist_tree_test.Node.{Ptr, Heap, next}
use persist_tree_test.Towers.{Tower}
use persist_tree_test.Towers.Chain.{Chain, stop, through, past, Chain-next}
use persist_tree_test.MemorySkipList.Search.{Holds}
use persist_tree_test.PersistentSkipList.{NvmList, increment, level_num, level_num_loop}
use persist_tree_test.PersistentSkipList.Insert.{IsNvmList}

-- The numbers that `PrintLevelNum` prints, for the `count` levels from `i` on.
pub level_nums : NvmList → ℕ → ℕ → ℕ → Outcome (List ℕ)
level_nums s fuel zero i = ok []
level_nums s fuel (suc count) i = do
  num ← level_num s fuel i
  nums ← level_nums s fuel count (i + 1)
  ok (num ∷ nums)

-- `PrintLevelNum`
pub print_level_num : NvmList → ℕ → Outcome (List ℕ)
print_level_num s fuel = level_nums s fuel s.list.k_max_height 0

-- The number of towers that are higher than `i`.
abbrev pub higher : ℕ → List Tower → ℕ
higher i [] = 0
higher i (t ∷ ts) = (if ltb i t.height then 1 else 0) + higher i ts

level_num_loop-counts :
    (n i fuel : ℕ) {q : Ptr} {h : Heap} (zs : List Tower) (start : Ptr) (num : ℕ)
    → Chain h i q zs
    → next q i h ≡ ok start
    → length zs < fuel
    → num + length zs < 2 ^ 31
    → All (Holds n h) zs
    → level_num_loop h i fuel start num ≡ ok (num + higher i zs)
unfolding level_num_loop increment
level_num_loop-counts n i zero zs start num c e lt few holds = absurd (omega arith)
level_num_loop-counts n i (suc fuel) [] start num (stop e') e lt few holds = ground arith
level_num_loop-counts n i (suc fuel) (t ∷ zs) start num (past le c) e lt few holds =
    level_num_loop-counts n i (suc fuel) zs start num c e (omega arith) (omega arith) holds.1
    ∙ ap ok (ground (arith, le→ltb_false _ _ le))
level_num_loop-counts n i (suc fuel) (t ∷ zs) start num (through high e' c) e lt few holds =
    let at : start ≡ t.ptr = ground arith in
    let (after, reads) = Chain-next c in
    rw
      (
        at,
        ne→==_false _ _ holds.0.stored.ne_null,
        reads,
        lt→ltb (num + 1) (2 ^ 31) (omega (arith, few)),
      )
      (level_num_loop-counts n i fuel zs after (num + 1) c reads (omega arith) (omega arith) holds.1
        ∙ ap ok (ground (arith, lt→ltb _ _ high)))

-- On a well-formed list of fewer than 2^31 nodes, with enough fuel, the number that `PrintLevelNum` prints for a level is that
-- of the nodes that are higher than the level.
pub level_num-counts :
    (s : NvmList) (fuel i : ℕ) (ts us : List Tower)
    → IsNvmList s ts us
    → i < s.list.k_max_height
    → length (ts ++ us) < fuel
    → length (ts ++ us) < 2 ^ 31
    → level_num s fuel i ≡ ok (higher i (ts ++ us))
unfolding level_num
level_num-counts s fuel i ts us w lt enough few =
    let c = w.list.linked.chains i lt in
    let (start, reads) = Chain-next c in
    rw reads (
      level_num_loop-counts s.list.key_size i fuel (ts ++ us) start 0 c reads enough
        (omega (arith, few)) w.list.linked.holds
      ∙ ap ok (omega arith))

-- The numbers of towers higher than each of the `count` levels from `i` on.
abbrev pub all_higher : ℕ → ℕ → List Tower → List ℕ
all_higher zero i ts = []
all_higher (suc count) i ts = higher i ts ∷ all_higher count (i + 1) ts

level_nums-counts :
    (s : NvmList) (fuel count i : ℕ) (ts us : List Tower)
    → IsNvmList s ts us
    → i + count ≤ s.list.k_max_height
    → length (ts ++ us) < fuel
    → length (ts ++ us) < 2 ^ 31
    → level_nums s fuel count i ≡ ok (all_higher count i (ts ++ us))
unfolding level_nums
level_nums-counts s fuel zero i ts us w le enough few = refl
level_nums-counts s fuel (suc count) i ts us w le enough few =
    rw
      (
        level_num-counts s fuel i ts us w (omega arith) enough few,
        level_nums-counts s fuel count (i + 1) ts us w (omega arith) enough few,
      )
      refl

-- On a well-formed list of fewer than 2^31 nodes, with enough fuel, `PrintLevelNum` prints for every level, from 0 up to the
-- greatest height, the number of the nodes that are higher than the level.
pub print_level_num-counts :
    (s : NvmList) (fuel : ℕ) (ts us : List Tower)
    → IsNvmList s ts us
    → length (ts ++ us) < fuel
    → length (ts ++ us) < 2 ^ 31
    → print_level_num s fuel ≡ ok (all_higher s.list.k_max_height 0 (ts ++ us))
unfolding print_level_num
print_level_num-counts s fuel ts us w enough few =
    level_nums-counts s fuel s.list.k_max_height 0 ts us w (omega arith) enough few
