-- ===== src/Driver.antt =====
-- motivation1_main.cc: the program that writes keys to a skip list. Time is not measured, and what
-- is printed is left out but for the results of `PrintLevelNum` and `Print`.
pub mod Buffered
pub mod Dram
pub mod DramLoop
pub mod DramWritten
pub mod Flushed
pub mod Main
pub mod ListRun
pub mod Rounds
pub mod Schedule
pub mod Texts
pub mod Written
use Prim.Native.Nat.{bit_and}
use persist_tree_test.Base.{
  ℕ, zero, suc, ◌+◌, ◌-◌, ◌*◌, ◌/◌, ◌%◌, ◌^◌, ◌==◌, ◌&&◌, ◌++◌, Bool, Option, none, some, List, [],
  ◌∷◌, ltb, leb, if◌then◌else◌, take, replicate,
}
use persist_tree_test.Base.Outcome.{Outcome, ok, fault, ◌>>=◌}
use persist_tree_test.CString.{c_str, from_c_str}
use persist_tree_test.CString.Printf.{print_08}
use persist_tree_test.Node.{Ptr}
use persist_tree_test.Random
use persist_tree_test.PersistentAllocator.{Mapping}
use persist_tree_test.PersistentSkipList.{NvmList}
use persist_tree_test.PersistentSkiplistWrapper

-- The parameters, each a size_t or a uint64_t.
pub record Options : Type 0 where
  pub test_type : ℕ
  pub value_size : ℕ
  pub ops_num : ℕ
  pub mem_skiplist_size : ℕ
  pub skiplist_max_num : ℕ

-- `parse_input`, with what `atoi` makes of the eight strings, converted to the type of the variable:
-- `none` is the result -1, and a failed assertion is a fault.
unfoldable pub parse_input : List ℕ → Outcome (Option Options)
parse_input
      (program ∷ existing ∷ test_type ∷ value_size ∷ ops_type ∷ ops_num ∷ mem_size ∷ max_num ∷ []) =
    if (test_type / 2 == 0)
      && ((bit_and value_size ((value_size + 2 ^ 64 - 1) % 2 ^ 64) == 0)
          && (leb 1 max_num && leb max_num 20))
    then ok (
        some (record {
          test_type = test_type;
          value_size = value_size;
          ops_num = ops_num;
          mem_skiplist_size = mem_size;
          skiplist_max_num = max_num;
        }))
    else fault
parse_input _ = ok none

-- `KEY_SIZE` and `NVM_SIZE`
abbrev pub key_size : ℕ
key_size = 16

abbrev pub nvm_size : ℕ
nvm_size = 50 * 2 ^ 30

-- `buf_size`
abbrev pub buf_size : ℕ → ℕ
buf_size value_size = (key_size + value_size + 1) % 2 ^ 64

-- `snprintf` into the buffer, and the string of what it holds.
pub key_text : (value_size number i : ℕ) → Outcome (List ℕ)
key_text value_size number i =
    let text = print_08 number ++ (print_08 i ++ replicate value_size b'v') in
    from_c_str (c_str (take (buf_size value_size - 1) text))

-- `per_1g_num` of `main` and of `write_to_nvm`; a division by 0 is a fault.
unfoldable pub per_1g_num : ℕ → Outcome ℕ
per_1g_num value_size =
    if value_size == 0
    then fault
    else ok (((1024 * 1024) / value_size * 1024 + 2 ^ 64 - 1) % 2 ^ 64)

-- The loop of `write_to_nvm`, with `rounds` rounds left from `i` on. One generator serves the keys and
-- the heights of the nodes.
pub write_loop : (fuel value_size ops_num per_1g rounds i : ℕ) → NvmList → Outcome NvmList
write_loop fuel value_size ops_num per_1g zero i s = ok s
write_loop fuel value_size ops_num per_1g (suc rounds) i s = do
  let (v, seed) = Random.next s.seed
  text ← key_text value_size (v % ops_num) i
  s' ← PersistentSkiplistWrapper.insert (record s { seed = seed }) fuel text
  if per_1g == 0 then fault else write_loop fuel value_size ops_num per_1g rounds (i + 1) s'

-- `write_to_nvm`: the list, the numbers of `PrintLevelNum`, and the number of errors of `Print`.
pub write_to_nvm : ℕ → Options → NvmList → Outcome (NvmList × List ℕ × ℕ)
write_to_nvm fuel o s = do
  per_1g ← per_1g_num o.value_size
  s' ← write_loop fuel o.value_size o.ops_num per_1g o.ops_num 1 s
  nums ← PersistentSkiplistWrapper.print_level_num s' fuel
  errors ← PersistentSkiplistWrapper.print s' fuel
  ok (s', nums, errors)

-- `main` for a `test_type` of 0, from what `pmem_map_file` returns; `seed` is the first state of the
-- generator, and `garbage` what the file holds in place of `prev_`.
pub main_nvm :
    Mapping → (garbage : ℕ → Ptr) → (seed fuel : ℕ) → Options → Outcome (NvmList × List ℕ × ℕ)
main_nvm mapping garbage seed fuel o = do
  per_1g ← per_1g_num o.value_size
  s ← PersistentSkiplistWrapper.init mapping garbage nvm_size 20 2 key_size o.ops_num per_1g seed
  write_to_nvm fuel o s
