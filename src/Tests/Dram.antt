-- ===== src/Tests/Dram.antt =====
-- `write_to_dram` and `main` with three keys.
use persist_tree_test.Base.{
  ℕ, ◌+◌, ◌*◌, ◌/◌, ◌%◌, ◌≡◌, ◌≢◌, refl, arith, ◌⊎◌, some, none, List, length, [], ◌∷◌,
}
use persist_tree_test.Base.Outcome.{ok, fault}
use persist_tree_test.Node.{Ptr}
use persist_tree_test.PersistentAllocator.{Mapping}
use persist_tree_test.Driver.{Options, parse_input}
use persist_tree_test.WriteBuffer.Count.{keys_per_list}
use persist_tree_test.Driver.Texts.{texts}
use persist_tree_test.Driver.Schedule.{config, Follows}
use persist_tree_test.Driver.Schedule.Last.{Flushes, Fails, write_to_dram-Follows}
use persist_tree_test.Driver.Main.{Finished, main}
use persist_tree_test.Driver.Main.Ends.{Leaves, main-Leaves}
use persist_tree_test.Driver.Dram.{Dram, dram_loop, write_to_dram}
use persist_tree_test.Driver.DramWritten.{Complete, IsNew, write_to_dram-Complete}
use persist_tree_test.Tests.NvmList.{list, heap_0, empty_nvm, empty-IsSkipList, empty-IsNvmList}

abbrev options : Options
options = record {
  test_type = 1;
  value_size = 4;
  ops_num = 3;
  mem_skiplist_size = 1;
  skiplist_max_num = 1;
}

abbrev new_lists : Dram
new_lists = record {
  buffer = record { list = list 16 (λ _. 1); heap = heap_0; seed = 1 };
  cur_size = 0;
  nvm = empty_nvm;
  errors = 0;
}

abbrev fresh : ℕ → Ptr
fresh j = 100 + j

abbrev behind : Ptr → List ℕ
behind p = b'x' ∷ []

heap_0-only : (r : Ptr) → r ≢ 1 → heap_0 r ≡ none
heap_0-only r ne = ground (arith, ne)

new_lists-IsNew : IsNew fresh 4 3 new_lists
new_lists-IsNew = record {
  buffer = empty-IsSkipList 16;
  buffer_size = refl;
  no_size = refl;
  nvm = empty-IsNvmList;
  nvm_size = refl;
  room = omega arith;
  only_head = heap_0-only;
  unused = λ j le. omega arith;
  silent = refl;
}

write_to_dram-Complete_example :
    ((3 % keys_per_list (1024 * 1024) 20 ≢ 0)
      × (d' : Dram) × (write_to_dram (λ p. 0 ∷ behind p) fresh (λ _. 0) 4 options new_lists ≡ ok d')
      × Complete 4 3 d')
    ⊎ ((3 % keys_per_list (1024 * 1024) 20 ≡ 0)
        × (d' : Dram) × (dram_loop
              (λ p. 0 ∷ behind p)
              fresh
              (λ _. 0)
              4
              options
              ((1024 * 1000) / 4 * 1000)
              3
              1
              new_lists
            ≡ ok d')
        × Complete 4 3 d'
        × (write_to_dram (λ p. 0 ∷ behind p) fresh (λ _. 0) 4 options new_lists ≡ fault))
write_to_dram-Complete_example =
    write_to_dram-Complete behind fresh (λ _. 0) 4 options new_lists (λ j. omega arith)
      (λ j k ne. omega arith) (omega arith) (omega arith) (omega arith) (omega arith) (omega arith)
      new_lists-IsNew

write_to_dram-Follows_example :
    (d1 : Dram) × (ns : List ℕ) × (length ns ≡ 3)
    × (dram_loop
          (λ p. 0 ∷ behind p)
          fresh
          (λ _. 0)
          4
          options
          ((1024 * 1000) / 4 * 1000)
          3
          1
          new_lists
        ≡ ok d1)
    × (f : Follows (config options) (texts 4 1 ns) d1) × (((d2 : Dram) × (write_to_dram
              (λ p. 0 ∷ behind p)
              fresh
              (λ _. 0)
              4
              options
              new_lists
            ≡ ok d2)
          × Flushes (config options) f.s d2)
        ⊎ ((write_to_dram (λ p. 0 ∷ behind p) fresh (λ _. 0) 4 options new_lists ≡ fault)
            × Fails (config options) f.s))
write_to_dram-Follows_example =
    write_to_dram-Follows behind fresh (λ _. 0) 4 options new_lists (λ j. omega arith)
      (λ j k ne. omega arith) (omega arith) (omega arith) (omega arith) (omega arith) (omega arith)
      (omega arith) new_lists-IsNew

-- A list of one megabyte takes 52429 keys of twenty bytes, and one without room takes one.
full_list : keys_per_list (1024 * 1024) 20 ≡ 52429
full_list = refl

no_room : keys_per_list 0 20 ≡ 1
no_room = refl

abbrev file : Mapping
file = record { addr = 4096; len = 1000; persistent = 0 }

abbrev arguments : List ℕ
arguments = 0 ∷ 0 ∷ 1 ∷ 4 ∷ 1 ∷ 3 ∷ 1 ∷ 1 ∷ []

accepted : parse_input arguments ≡ ok (some options)
unfolding parse_input
accepted = refl

main-Leaves_example :
    (((options.test_type ≢ 1) ⊎ (3 % keys_per_list (1024 * 1024) 20 ≢ 0))
      × (r : Finished) × (main file (λ p. 0 ∷ behind p) fresh (λ _. 0) 7 4 arguments ≡ ok (some r))
      × Leaves options r)
    ⊎ ((options.test_type ≡ 1)
        × (3 % keys_per_list (1024 * 1024) 20 ≡ 0)
        × (main file (λ p. 0 ∷ behind p) fresh (λ _. 0) 7 4 arguments ≡ fault))
main-Leaves_example =
    main-Leaves file behind fresh (λ _. 0) 7 4 arguments options accepted (omega arith)
      (λ j. omega arith) (λ j k ne. omega arith) (omega arith) (omega arith) (omega arith)
      (omega arith) (omega arith) (omega arith) (omega arith)
