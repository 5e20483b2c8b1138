-- ===== src/PrintKey.antt =====
-- `PrintKey`, which flush_nvm.cc and persistent_skip_list.cc define with one text: in class `FlushNVM`
-- over the C string of a `std::string`, in class `Persistent_SkipList` over a node's key.
pub mod Order
use persist_tree_test.Base.{
  ℕ, zero, suc, ◌+◌, ◌-◌, ◌*◌, ◌%◌, ◌^◌, ◌==◌, ◌&&◌, ◌||◌, Bool, List, [], ◌∷◌, ltb, if◌then◌else◌,
}
use persist_tree_test.Base.Outcome.{Outcome, ok, fault, ◌>>=◌}

-- `str[i] - '0'`, for a signed `char`, as a uint64_t
digit : ℕ → ℕ
digit c = if ltb c 128 then (c + 2 ^ 64 - b'0') % 2 ^ 64 else (c + 2 ^ 64 - 256 - b'0') % 2 ^ 64

-- One of the two loops, over `count` characters.
unfoldable pub digits : ℕ → List ℕ → ℕ → Outcome (ℕ × List ℕ)
unfolding digit
digits zero str num = ok (num, str)
digits (suc count) [] num = fault
digits (suc count) (c ∷ str) num = digits count str ((digit c + 10 * num) % 2 ^ 64)

-- `last_num` and `last_seq_num`
abbrev pub Last : Type 0
Last = ℕ × ℕ

-- Whether the key in a buffer comes after the last one (an error is printed if not), and its numbers.
unfoldable pub print_buffer : List ℕ → Last → Outcome (Bool × Last)
print_buffer str (last_num, last_seq_num) = do
  (num, rest) ← digits 8 str 0
  (seq_num, _) ← digits 8 rest 0
  ok (ltb last_num num || (last_num == num && ltb last_seq_num seq_num), (num, seq_num))
