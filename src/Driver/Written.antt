-- ===== src/Driver/Written.antt =====
-- What `write_to_nvm` leaves in the list.
use mathlib.Core.List.{Perm, append-nil}
use native.Mathlib.Bridge.{le_prop}
use native.Mathlib.Nat.{div-add-mod'}
use persist_tree_test.Base.{
  ℕ, ◌+◌, ◌-◌, ◌*◌, ◌/◌, ◌%◌, ◌^◌, ◌<◌, ◌≤◌, ◌≡◌, ◌≢◌, refl, ◌∙◌, sym, arith, List, [], ◌++◌, All,
  All-map, length, subst, ne→==_false,
}
use persist_tree_test.Base.Outcome.{ok}
use persist_tree_test.CString.Digits.{HasDigits, HasDigits-prop, number}
use persist_tree_test.Node.{Ptr}
use persist_tree_test.Towers.{Tower, keys, Ascending}
use persist_tree_test.Towers.Falls.{falls, falls-zero, perm-Different, perm-All}
use persist_tree_test.PersistentAllocator.{Mapping, Allocator, open_allocator}
use persist_tree_test.PersistentSkipList.{NvmList}
use persist_tree_test.PersistentSkipList.Insert.{IsNvmList}
use persist_tree_test.PersistentSkipList.Lifetime.{init-IsNvmList}
use persist_tree_test.PersistentSkipList.Levels.{print_level_num-counts, all_higher}
use persist_tree_test.PersistentSkipList.Printing.{print-falls}
use persist_tree_test.PersistentSkiplistWrapper
use persist_tree_test.Driver.{Options, per_1g_num, write_to_nvm, main_nvm, nvm_size, key_size}
use persist_tree_test.Driver.Texts.{texts, length-texts, texts-AllUnlike, texts-shown}
use persist_tree_test.Driver.Rounds.{round_size, write_loop-Filled}

quotient_le : (n v : ℕ) → 0 < v → n / v ≤ n
quotient_le n v pos = grind (arith, div-add-mod' n v)

per_1g-ne_zero : (v : ℕ) → 0 < v → ((1024 * 1024) / v * 1024 + 2 ^ 64 - 1) % 2 ^ 64 ≢ 0
per_1g-ne_zero v pos e = absurd (omega (arith, quotient_le 1048576 v pos))

abbrev pub Shown : List ℕ → Type 0
Shown k = HasDigits 16 k × (0 < number 16 k)

pub Shown-prop : (k : List ℕ) → IsProp (Shown k)
Shown-prop k = hlevel (HasDigits-prop 16 k, le_prop)

-- What a run of the driver leaves: one key for each round, with the random numbers `ns`.
pub record Written (v ops : ℕ) (s' : NvmList) (nums : List ℕ) : Type 0 where
  pub ns : List ℕ
  pub ts : List Tower
  pub us : List Tower
  pub rounds : length ns ≡ ops
  pub drawn : All (λ n. n < ops) ns
  pub result : IsNvmList s' ts us
  pub contents : Perm (keys (ts ++ us)) (texts v 1 ns)
  pub levels : nums ≡ all_higher s'.list.k_max_height 0 (ts ++ us)

pub write_to_nvm-Written :
    (fuel : ℕ) (o : Options) (s : NvmList)
    → IsNvmList s [] []
    → s.list.key_size ≡ 16
    → 0 < o.ops_num
    → o.ops_num < 10 ^ 8
    → o.value_size ≢ 0
    → o.value_size + 17 < 2 ^ 64
    → o.ops_num < fuel
    → s.allocator.cur_index + o.ops_num * round_size s.list.k_max_height o.value_size
      ≤ s.allocator.pmemaddr + s.allocator.mapped_len
    → (s' : NvmList) × (nums : List ℕ) × (write_to_nvm fuel o s ≡ ok (s', nums, 0))
      × Written o.value_size o.ops_num s' nums
unfolding write_to_nvm per_1g_num
write_to_nvm-Written fuel o s w size some_ops few_ops some_value fits enough room =
    let v : ℕ = o.value_size in
    let ops : ℕ = o.ops_num in
    let per_1g : ℕ = ((1024 * 1024) / v * 1024 + 2 ^ 64 - 1) % 2 ^ 64 in
    let divides : per_1g ≢ 0 = per_1g-ne_zero v (omega arith) in
    let (s', ns, run, rounds, drawn, done) =
      write_loop-Filled fuel v ops per_1g some_ops (omega arith) fits divides ops 1 s [] []
        (omega arith) w size (omega arith) room in
    let zs : List Tower = done.ts ++ done.us in
    let contents : Perm (keys zs) (texts v 1 ns) =
      subst (Perm (keys zs)) (append-nil (texts v 1 ns)) done.contents in
    let low : All (λ n. n < 10 ^ 8) ns = All-map _ _ (λ n lt. omega (arith, lt)) ns drawn in
    let shown : All (λ t. Shown t.key) zs =
      perm-All Shown-prop zs (texts v 1 ns) contents
        (texts-shown v 1 ns (omega arith) (omega arith) low) in
    let digits : All (λ t. HasDigits 16 t.key) zs = All-map _ _ (λ t h. h.0) zs shown in
    let falls_none : falls 0 zs ≡ 0 =
      falls-zero 0 zs digits (All-map _ _ (λ t h. h.1) zs shown)
        (subst (λ n. Ascending n zs) (done.same_size ∙ size) done.result.list.linked.ascending)
        (perm-Different 16 zs (texts v 1 ns) contents (texts-AllUnlike v 1 ns (omega arith) low)) in
    let all_nodes : length zs < fuel = omega (arith, done.grows, length-texts v 1 ns, rounds) in
    (
      s',
      all_higher s'.list.k_max_height 0 zs,
      rw
          (
            ne→==_false v 0 some_value,
            run,
            print_level_num-counts s' fuel done.ts done.us done.result all_nodes
                (omega (arith, done.grows, length-texts v 1 ns, rounds, few_ops)),
            print-falls s' fuel done.ts done.us done.result all_nodes digits,
            falls_none,
          )
          refl,
      record {
        ns = ns;
        ts = done.ts;
        us = done.us;
        rounds = rounds;
        drawn = drawn;
        result = done.result;
        contents = contents;
        levels = refl;
      },
    )

-- The empty list in NVM that `main` begins with, and the room for its rounds.
pub init-started :
    (mapping : Mapping) (garbage : ℕ → Ptr) (seed : ℕ) (o : Options)
    → mapping.addr ≢ 0
    → o.value_size ≢ 0
    → 329 + o.ops_num * round_size 20 o.value_size ≤ mapping.len
    → mapping.addr + mapping.len < 2 ^ 64
    → (per_1g : ℕ) × (per_1g_num o.value_size ≡ ok per_1g)
      × (s : NvmList) × (PersistentSkiplistWrapper.init mapping garbage nvm_size 20 2 key_size
            o.ops_num per_1g seed
          ≡ ok s)
      × IsNvmList s [] []
      × (s.list.key_size ≡ 16)
      × (s.allocator.cur_index + o.ops_num * round_size s.list.k_max_height o.value_size
          ≤ s.allocator.pmemaddr + s.allocator.mapped_len)
unfolding open_allocator per_1g_num
init-started mapping garbage seed o ne some_value room space =
    let v : ℕ = o.value_size in
    let per_1g : ℕ = ((1024 * 1024) / v * 1024 + 2 ^ 64 - 1) % 2 ^ 64 in
    let a : Allocator = record {
      pmemaddr = mapping.addr;
      mapped_len = mapping.len;
      capacity = nvm_size;
      is_pmem = mapping.persistent;
      cur_index = mapping.addr;
    } in
    let (s, started, w, size, max, moved) =
      init-IsNvmList a garbage 20 2 16 o.ops_num per_1g seed (omega (arith, ne))
        (omega (arith, room)) (omega (arith, space)) (omega arith) (omega arith) (omega arith)
        (omega (arith, per_1g-ne_zero v (omega (arith, some_value)))) in
    (
      per_1g,
      rw (ne→==_false v 0 some_value) refl,
      s,
      rw (ne→==_false mapping.addr 0 ne) started,
      w,
      size,
      subst
          (λ m.
            s.allocator.cur_index + o.ops_num * round_size m v
            ≤ s.allocator.pmemaddr + s.allocator.mapped_len)
          (sym max)
          (subst (λ b. b.cur_index + o.ops_num * round_size 20 v ≤ b.pmemaddr + b.mapped_len)
            (sym moved) (omega (arith, room))),
    )

-- With an `ops_num` from 1 to 10^8 - 1 and a `value_size` above 0, on a mapped file that ends below
-- 2^64 with room for the head and for a node of the full height and a key in each round, and with enough fuel, `main` for a
-- `test_type` of 0 succeeds: the list in NVM is well formed, its keys are a permutation of those of the
-- rounds, for random numbers below `ops_num`, `PrintLevelNum` prints the numbers of higher nodes, and
-- `Print` finds no key out of order.
pub main_nvm-Written :
    (mapping : Mapping) (garbage : ℕ → Ptr) (seed fuel : ℕ) (o : Options)
    → mapping.addr ≢ 0
    → 0 < o.ops_num
    → o.ops_num < 10 ^ 8
    → o.value_size ≢ 0
    → o.value_size + 17 < 2 ^ 64
    → o.ops_num < fuel
    → 329 + o.ops_num * round_size 20 o.value_size ≤ mapping.len
    → mapping.addr + mapping.len < 2 ^ 64
    → (s' : NvmList) × (nums : List ℕ) × (main_nvm mapping garbage seed fuel o ≡ ok (s', nums, 0))
      × Written o.value_size o.ops_num s' nums
unfolding main_nvm
main_nvm-Written mapping garbage seed fuel o ne some_ops few_ops some_value fits enough room space =
    let (per_1g, divides, s, starts, w, size, room') =
      init-started mapping garbage seed o ne some_value room space in
    let (s', nums, run, written) =
      write_to_nvm-Written fuel o s w size some_ops few_ops some_value fits enough room' in
    (s', nums, rw (divides, starts) run, written)
