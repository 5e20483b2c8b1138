-- ===== src/WriteBuffer/LogFile.antt =====
-- `SkiplistWriteNVM::AllocateFile`, in a build without DRAM_CANCEL_LOG: the files of the lists in DRAM.
use persist_tree_test.Base.{
  ℕ, suc, ◌+◌, ◌-◌, ◌/◌, ◌%◌, ◌^◌, ◌<◌, ◌≡◌, refl, ◌∙◌, sym, ap, arith, List, [], ◌∷◌, ◌++◌, length,
  take,
}
use persist_tree_test.Base.Outcome.{Outcome, ok, ◌>>=◌}
use persist_tree_test.CString.{c_str, from_c_str}
use persist_tree_test.CString.Printf.{print_08, decimal, print_08-decimal}
use persist_tree_test.PersistentAllocator.{Mapping, Allocator, open_allocator}

-- `snprintf` with `path_.size() + 8` into the array, and the string of what it holds.
pub file_name : (path : List ℕ) (seq : ℕ) → Outcome (List ℕ)
file_name path seq = from_c_str (c_str (take (length path + 8 - 1) (path ++ print_08 seq)))

-- `AllocateFile`: the allocator, and `skiplist_seq_number_`. `map_file` is `pmem_map_file`.
allocate_file :
    (map_file : List ℕ → ℕ → Mapping) (path : List ℕ) (max_mem_skiplist_size seq : ℕ)
    → Outcome (Allocator × ℕ)
allocate_file map_file path max_mem_skiplist_size seq = do
  let seq' = (seq + 1) % 2 ^ 32
  let size = (max_mem_skiplist_size + 1048576) % 2 ^ 64
  name ← file_name path seq'
  a ← open_allocator (map_file name size) size
  ok (a, seq')

zero_plus : (n : ℕ) → 0 + n ≡ n
zero_plus n = omega arith

suc_plus : (k n : ℕ) → suc k + n ≡ suc (k + n)
suc_plus k n = omega arith

take_behind : (path s : List ℕ) (n : ℕ) → take (length path + n) (path ++ s) ≡ path ++ take n s
take_behind [] s n = ap (λ k. take k s) (zero_plus n)
take_behind (x ∷ path) s n =
    ap (λ k. take k (x ∷ (path ++ s))) (suc_plus (length path) n)
    ∙ ap (◌∷◌ x) (take_behind path s n)

-- The first seven of eight digits do not show the last.
seven_digits : (m n : ℕ) → m / 10 ≡ n / 10 → take 7 (decimal 8 m) ≡ take 7 (decimal 8 n)
unfolding decimal
seven_digits m n e =
    let digit_0 : m / 10000000 ≡ n / 10000000 = omega (arith, e) in
    let digit_1 : m % 10000000 / 1000000 ≡ n % 10000000 / 1000000 = omega (arith, e) in
    let digit_2 : m % 10000000 % 1000000 / 100000 ≡ n % 10000000 % 1000000 / 100000 =
      omega (arith, e) in
    let digit_3 : m % 10000000 % 1000000 % 100000 / 10000
        ≡ n % 10000000 % 1000000 % 100000 / 10000 =
      omega (arith, e) in
    let digit_4 : m % 10000000 % 1000000 % 100000 % 10000 / 1000
        ≡ n % 10000000 % 1000000 % 100000 % 10000 / 1000 =
      omega (arith, e) in
    let digit_5 : m % 10000000 % 1000000 % 100000 % 10000 % 1000 / 100
        ≡ n % 10000000 % 1000000 % 100000 % 10000 % 1000 / 100 =
      omega (arith, e) in
    let digit_6 : m % 10000000 % 1000000 % 100000 % 10000 % 1000 % 100 / 10
        ≡ n % 10000000 % 1000000 % 100000 % 10000 % 1000 % 100 / 10 =
      omega (arith, e) in
    rw (digit_0, digit_1, digit_2, digit_3, digit_4, digit_5, digit_6) refl

-- The name is cut before the last digit: ten numbers that follow one another give one file.
pub file_name_same :
    (path : List ℕ) (m n : ℕ)
    → m < 10 ^ 8
    → n < 10 ^ 8
    → m / 10 ≡ n / 10
    → file_name path m ≡ file_name path n
unfolding file_name
file_name_same path m n hm hn e =
    let cut : length path + 8 - 1 ≡ length path + 7 = omega arith in
    let same : take (length path + 7) (path ++ print_08 m)
        ≡ take (length path + 7) (path ++ print_08 n) =
      take_behind path (print_08 m) 7
      ∙ ap (λ s. path ++ take 7 s) (print_08-decimal m hm)
      ∙ ap (λ s. path ++ s) (seven_digits m n e)
      ∙ sym (ap (λ s. path ++ take 7 s) (print_08-decimal n hn))
      ∙ sym (take_behind path (print_08 n) 7) in
    ap (λ s. from_c_str (c_str s))
      (ap (λ k. take k (path ++ print_08 m)) cut
        ∙ same
        ∙ ap (λ k. take k (path ++ print_08 n)) (sym cut))
