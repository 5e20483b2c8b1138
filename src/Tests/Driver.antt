-- ===== src/Tests/Driver.antt =====
-- The driver on small inputs.
use persist_tree_test.Base.{ℕ, ◌≡◌, refl, arith, List, [], ◌∷◌, some, none}
use persist_tree_test.Base.Outcome.{ok, fault}
use persist_tree_test.CString.Printf.{print_08}
use persist_tree_test.PersistentAllocator.{Mapping}
use persist_tree_test.PersistentSkipList.{NvmList}
use persist_tree_test.Driver.{Options, parse_input, main_nvm, per_1g_num}
use persist_tree_test.Driver.Written.{Written, main_nvm-Written}

printed : print_08 1234 ≡ b'0' ∷ b'0' ∷ b'0' ∷ b'0' ∷ b'1' ∷ b'2' ∷ b'3' ∷ b'4' ∷ []
unfolding print_08
printed = refl

-- 2^31 is read as the least int.
printed_negative :
    print_08 2147483648
    ≡ b'-' ∷ b'2' ∷ b'1' ∷ b'4' ∷ b'7' ∷ b'4' ∷ b'8' ∷ b'3' ∷ b'6' ∷ b'4' ∷ b'8' ∷ []
unfolding print_08
printed_negative = refl

abbrev options : Options
options = record {
  test_type = 0;
  value_size = 4;
  ops_num = 3;
  mem_skiplist_size = 64;
  skiplist_max_num = 1;
}

parsed : parse_input (0 ∷ 0 ∷ 0 ∷ 4 ∷ 1 ∷ 3 ∷ 64 ∷ 1 ∷ []) ≡ ok (some options)
unfolding parse_input
parsed = refl

too_few : parse_input (0 ∷ 0 ∷ []) ≡ ok none
unfolding parse_input
too_few = refl

not_a_power : parse_input (0 ∷ 0 ∷ 0 ∷ 5 ∷ 1 ∷ 3 ∷ 64 ∷ 1 ∷ []) ≡ fault
unfolding parse_input
not_a_power = refl

-- The assertion on the size lets 0 through, and the division by it does not.
no_value : per_1g_num 0 ≡ fault
unfolding per_1g_num
no_value = refl

abbrev file : Mapping
file = record { addr = 4096; len = 1000; persistent = 0 }

main_nvm-Written_example :
    (s' : NvmList) × (nums : List ℕ) × (main_nvm file (λ _. 0) 1 4 options ≡ ok (s', nums, 0))
    × Written 4 3 s' nums
main_nvm-Written_example =
    main_nvm-Written file (λ _. 0) 1 4 options (omega arith) (omega arith) (omega arith)
      (omega arith) (omega arith) (omega arith) (omega arith) (omega arith)
