-- ===== src/Driver/Main/Ends.antt =====
-- How a run of `main` ends.
use mathlib.Core.List.{Perm}
use persist_tree_test.Base.{
  ℕ, ◌+◌, ◌*◌, ◌%◌, ◌^◌, ◌==◌, ◌<◌, ◌≤◌, ◌≡◌, ◌≢◌, refl, ◌∙◌, sym, arith, ◌⊎◌, inl, inr, true, ap,
  List, [], ◌∷◌, ◌++◌, none, some, All, length, if◌then◌else◌, ne→==_false, ℕ_discrete,
}
use persist_tree_test.Base.Outcome.{ok, fault}
use persist_tree_test.Node.{Ptr, null}
use persist_tree_test.Towers.{Tower, keys}
use persist_tree_test.Random.{get_tls_instance}
use persist_tree_test.MemorySkipList.Lifetime.{init-IsSkipList, destroy-Freed}
use persist_tree_test.MemorySkipList.Owned.{freed-IsOwned}
use persist_tree_test.PersistentAllocator.{Mapping}
use persist_tree_test.PersistentSkipList.{NvmList}
use persist_tree_test.PersistentSkipList.Insert.{IsNvmList}
use persist_tree_test.PersistentSkipList.Levels.{all_higher}
use persist_tree_test.Driver.{Options, parse_input}
use persist_tree_test.WriteBuffer.Count.{keys_per_list}
use persist_tree_test.Driver.Dram.{Dram, max_size}
use persist_tree_test.Driver.DramWritten.{Complete, write_to_dram-Complete}
use persist_tree_test.Driver.Texts.{texts}
use persist_tree_test.Driver.Rounds.{round_size}
use persist_tree_test.Driver.Written.{init-started, write_to_nvm-Written}
use persist_tree_test.Driver.Main.{
  Finished, init_dram, delete_dram, test_dram, test_nvm, test_main, main,
}

-- A well-formed list in NVM with one key for each round, with the random numbers `ns`, no error, and
-- no node left in DRAM.
pub record Leaves (o : Options) (r : Finished) : Type 0 where
  pub ns : List ℕ
  pub ts : List Tower
  pub us : List Tower
  pub rounds : length ns ≡ o.ops_num
  pub drawn : All (λ n. n < o.ops_num) ns
  pub result : IsNvmList r.nvm ts us
  pub contents : Perm (keys (ts ++ us)) (texts o.value_size 1 ns)
  pub levels :
      r.levels ≡ (if o.test_type == 1 then [] else all_higher r.nvm.list.k_max_height 0 (ts ++ us))
  pub silent : r.errors ≡ 0
  pub freed : (p : Ptr) → r.heap p ≡ none

module _ (mapping : Mapping) (rest : Ptr → List ℕ) (fresh garbage : ℕ → Ptr) (hash fuel : ℕ)
    (o : Options) (some_address : (j : ℕ) → fresh j ≢ null)
    (different : (j k : ℕ) → j ≢ k → fresh j ≢ fresh k) (some_ops : 0 < o.ops_num)
    (few_ops : o.ops_num < 10 ^ 8) (some_value : 0 < o.value_size)
    (small_value : o.value_size ≤ 1024000) (enough : o.ops_num + 1 ≤ fuel) where
  abbrev behind : Ptr → List ℕ
  behind p = 0 ∷ rest p

  abbrev v : ℕ
  v = o.value_size

  test_nvm-Leaves :
      (s : NvmList)
      → IsNvmList s [] []
      → s.list.key_size ≡ 16
      → s.allocator.cur_index + o.ops_num * round_size s.list.k_max_height v
        ≤ s.allocator.pmemaddr + s.allocator.mapped_len
      → o.test_type ≢ 1
      → (r : Finished) × (test_nvm mapping behind fresh garbage hash fuel o s ≡ ok r) × Leaves o r
  unfolding test_nvm
  test_nvm-Leaves s w size room ne =
      let (s', nums, run, w') =
        write_to_nvm-Written fuel o s w size some_ops few_ops (omega (arith, some_value))
          (omega (arith, small_value)) (omega (arith, enough)) room in
      (
        record { nvm = s'; levels = nums; errors = 0; heap = λ _. none },
        rw run refl,
        record {
          ns = w'.ns;
          ts = w'.ts;
          us = w'.us;
          rounds = w'.rounds;
          drawn = w'.drawn;
          result = w'.result;
          contents = w'.contents;
          levels = rw (ne→==_false o.test_type 1 ne) w'.levels;
          silent = refl;
          freed = λ p. refl;
        },
      )

  delete_dram-Leaves :
      (d : Dram)
      → Complete v o.ops_num d
      → o.test_type ≡ 1
      → (r : Finished) × (delete_dram mapping behind fresh garbage hash fuel d ≡ ok r) × Leaves o r
  unfolding delete_dram
  delete_dram-Leaves d c e =
      let (h, destroys, gone, gone_head, kept) =
        destroy-Freed d.buffer.list d.buffer.heap [] fuel c.buffer (omega (arith, enough)) in
      (
        record { nvm = d.nvm; levels = []; errors = d.errors; heap = h },
        rw destroys refl,
        record {
          ns = c.ns;
          ts = c.ts;
          us = c.us;
          rounds = c.rounds;
          drawn = c.drawn;
          result = c.result;
          contents = c.contents;
          levels = rw e refl;
          silent = c.silent;
          freed = freed-IsOwned d.buffer.list.head d.buffer.heap h [] c.owned gone gone_head kept;
        },
      )

  test_dram-Leaves :
      (s : NvmList)
      → IsNvmList s [] []
      → s.list.key_size ≡ 16
      → s.allocator.cur_index + o.ops_num * round_size s.list.k_max_height v
        ≤ s.allocator.pmemaddr + s.allocator.mapped_len
      → o.test_type ≡ 1
      → ((o.ops_num % keys_per_list (max_size o) (16 + v) ≢ 0)
          × (r : Finished) × (test_dram mapping behind fresh garbage hash fuel o s ≡ ok r)
          × Leaves o r)
        ⊎ ((o.ops_num % keys_per_list (max_size o) (16 + v) ≡ 0)
            × (test_dram mapping behind fresh garbage hash fuel o s ≡ fault))
  unfolding test_dram init_dram
  test_dram-Leaves s w size room e =
      let (l, h, starts, new, same_size, _, at_head, elsewhere) =
        init-IsSkipList (fresh 1) garbage 12 4 16 (λ _. none) (some_address 1) (omega arith)
          (omega arith) (omega arith) in
      let d : Dram = record {
        buffer = record { list = l; heap = h; seed = s.seed };
        cur_size = 0;
        nvm = s;
        errors = 0;
      } in
      elim (write_to_dram-Complete rest fresh garbage fuel o d some_address different some_ops
        few_ops some_value small_value enough
        (record {
          buffer = new;
          buffer_size = same_size;
          no_size = refl;
          nvm = w;
          nvm_size = size;
          room = room;
          only_head = λ r ne. elsewhere r (λ at. ne (at ∙ sym at_head));
          unused = λ j le at. different j 1 (omega arith) (at ∙ at_head);
          silent = refl;
        })) [
          | inl (ne, d', runs, c) ↦
              let (r, deletes, leaves) = delete_dram-Leaves d' c e in
              inl (ne, r, rw (starts, runs) deletes, leaves)
          | inr (z, _, _, _, fails) ↦ inr (z, rw (starts, fails) refl)
        ]

-- When `parse_input` accepts the arguments, with an `ops_num` from 1 to 10^8 - 1 and a `value_size` from
-- 1 to 1024000, a NUL in memory behind each key in DRAM, addresses in DRAM that are not NULL and
-- different, a mapped file that ends below 2^64 with room for the head and for a node of the full
-- height and a key in each round, and with enough fuel, `main` fails exactly when `test_type` is 1 and `ops_num` is a multiple of
-- the number of keys that fill a list in DRAM. Otherwise it leaves a well-formed list in NVM whose keys
-- are a permutation of those of the rounds, for random numbers below `ops_num`; no error has been
-- printed, `PrintLevelNum` has printed the numbers of higher nodes for a `test_type` other than 1, and
-- every node in DRAM has been freed.
pub main-Leaves :
    (mapping : Mapping) (rest : Ptr → List ℕ) (fresh garbage : ℕ → Ptr) (hash fuel : ℕ)
    (arguments : List ℕ) (o : Options)
    → parse_input arguments ≡ ok (some o)
    → mapping.addr ≢ 0
    → ((j : ℕ) → fresh j ≢ null)
    → ((j k : ℕ) → j ≢ k → fresh j ≢ fresh k)
    → 0 < o.ops_num
    → o.ops_num < 10 ^ 8
    → 0 < o.value_size
    → o.value_size ≤ 1024000
    → o.ops_num + 1 ≤ fuel
    → 329 + o.ops_num * round_size 20 o.value_size ≤ mapping.len
    → mapping.addr + mapping.len < 2 ^ 64
    → (((o.test_type ≢ 1) ⊎ (o.ops_num % keys_per_list (max_size o) (16 + o.value_size) ≢ 0))
        × (r : Finished) × (main mapping (λ p. 0 ∷ rest p) fresh garbage hash fuel arguments
            ≡ ok (some r))
        × Leaves o r)
      ⊎ ((o.test_type ≡ 1)
          × (o.ops_num % keys_per_list (max_size o) (16 + o.value_size) ≡ 0)
          × (main mapping (λ p. 0 ∷ rest p) fresh garbage hash fuel arguments ≡ fault))
unfolding main test_main
main-Leaves mapping rest fresh garbage hash fuel arguments o parses mapped some_address different
      some_ops few_ops some_value small_value enough room space =
    let (per_1g, divides, s, starts, w, size, room') =
      init-started mapping garbage (get_tls_instance hash none) o mapped (omega (arith, some_value))
        room space in
    elim (ℕ_discrete o.test_type 1) [
      | no ne ↦
          let (r, runs, leaves) =
            test_nvm-Leaves mapping rest fresh garbage hash fuel o some_address different some_ops
              few_ops some_value small_value enough s w size room' ne in
          inl (
            inl ne,
            r,
            rw (parses, divides, starts, ne→==_false o.test_type 1 ne, runs) refl,
            leaves,
          )
      | yes e ↦
          let is_dram : (o.test_type == 1) ≡ true = ap (λ k. k == 1) e in
          elim (test_dram-Leaves mapping rest fresh garbage hash fuel o some_address different
            some_ops few_ops some_value small_value enough s w size room' e) [
              | inl (ne, r, runs, leaves) ↦
                  inl (inr ne, r, rw (parses, divides, starts, is_dram, runs) refl, leaves)
              | inr (z, fails) ↦ inr (e, z, rw (parses, divides, starts, is_dram, fails) refl)
            ]
    ]
