-- ===== src/FlushNvm/Silent.antt =====
-- The errors that `FlushNVM::Run` prints.
use persist_tree_test.Base.{
  ℕ, zero, suc, ◌+◌, ◌<◌, ◌≤◌, ◌≡◌, ◌≢◌, ◌∙◌, ap, sym, arith, some, Bool, true, false, List, [],
  ◌∷◌, ◌++◌, All, ltb, if◌then◌else◌, ◌^◌, length, append_assoc, ne→==_false, subst, ◌==◌,
}
use persist_tree_test.Base.Outcome.{Outcome, ok, fault, >>=-eq-ok, ok-injective}
use persist_tree_test.CString.Digits.{HasDigits, number}
use persist_tree_test.Node.{Ptr, null, Heap, next}
use persist_tree_test.Node.Laws.{load-ok}
use persist_tree_test.Towers.{Tower, Ascending}
use persist_tree_test.Towers.Falls.{falls, falls-zero, Different}
use persist_tree_test.Towers.Chain.{Chain, stop, through, past, Chain-next}
use persist_tree_test.MemorySkipList.{SkipList, destroy}
use persist_tree_test.MemorySkipList.Search.{Holds}
use persist_tree_test.MemorySkipList.WellFormed.{IsLinked}
use persist_tree_test.PersistentSkipList.{NvmList, insert}
use persist_tree_test.PersistentSkipList.Insert.{IsNvmList}
use persist_tree_test.PrintKey.{Last}
use persist_tree_test.PrintKey.Order.{value, print_buffer-number}
use persist_tree_test.FlushNvm.{print_key, run_loop, run}
use persist_tree_test.FlushNvm.Keys.{read_as, IsReadable, room_for}
use persist_tree_test.FlushNvm.Run.{read_key, run-Copied}

-- `PrintKey` sees the digits of the key and not the junk.
print_key-number :
    (k j : List ℕ) (last : Last)
    → HasDigits 16 k
    → last.1 < 10 ^ 8
    → (last' : Last) × (print_key (k ++ j) last ≡ ok (ltb (value last) (number 16 k), last'))
      × (value last' ≡ number 16 k)
      × (last'.1 < 10 ^ 8)
unfolding print_key
print_key-number k j last d small =
    rw (append_assoc k j (0 ∷ [])) (print_buffer-number k (j ++ (0 ∷ [])) last d small)

add_line : (b : Bool) (n m : ℕ) → (if b then n else n + 1) + m ≡ n + ((if b then 0 else 1) + m)
add_line b n m = ground arith

module _ (behind junk : Ptr → List ℕ) (h : Heap) (nvm_fuel n : ℕ) where
  run_loop-falls :
      (fuel : ℕ) {q : Ptr} (zs : List Tower) (start : Ptr) (last : Last) (errors : ℕ)
      (nvm : NvmList) (errors' : ℕ) (nvm' : NvmList)
      → Chain h 0 q zs
      → next q 0 h ≡ ok start
      → length zs < fuel
      → All (Holds n h) zs
      → All (λ t. 0 < t.height) zs
      → All (IsReadable behind junk) zs
      → All (λ t. HasDigits 16 t.key) zs
      → last.1 < 10 ^ 8
      → run_loop behind h nvm_fuel fuel start last errors nvm ≡ ok (errors', nvm')
      → errors' ≡ errors + falls (value last) zs
  unfolding run_loop
  run_loop-falls zero zs start last errors nvm errors' nvm' c e lt holds tall read d small run_eq =
      absurd (omega arith)
  run_loop-falls (suc fuel) [] start last errors nvm errors' nvm' (stop e') e lt holds tall read d
        small run_eq =
      let at : start ≡ null = ground arith in
      let same : (errors, nvm) ≡ (errors', nvm') = ok-injective _ _ (rw at at run_eq) in
      omega (arith, ap (λ p. p.0) same)
  run_loop-falls (suc fuel) (t ∷ zs) start last errors nvm errors' nvm' (past le c) e lt holds tall
        read d small run_eq =
      absurd (omega (arith, tall.0))
  run_loop-falls (suc fuel) (t ∷ zs) start last errors nvm errors' nvm' (through high e' c) e lt
        holds tall read d small run_eq =
      let at : start ≡ t.ptr = ground arith in
      let (after, reads) = Chain-next c in
      let (last', printed, shown, small') = print_key-number t.key (junk t.ptr) last d.0 small in
      let b : Bool = ltb (value last) (number 16 t.key) in
      let (nvm1, inserts, rest) = >>=-eq-ok (insert nvm nvm_fuel (read_as junk t)) _ (
        rw
          (
            at,
            ne→==_false _ _ holds.0.stored.ne_null,
            load-ok holds.0.stored,
            read_key behind junk h nvm_fuel n t holds.0 read.0,
            printed,
            reads,
          )
          at run_eq) in
      run_loop-falls fuel zs after last' (if b then errors else errors + 1) nvm1 errors' nvm' c
        reads (omega arith) holds.1 tall.1 read.1 d.1 small' rest
      ∙ ap (λ v. (if b then errors else errors + 1) + falls v zs) shown
      ∙ add_line b errors (falls (number 16 t.key) zs)

-- A call of `Run` that returns has printed an error for each key that does not come after the one
-- before it.
pub run-falls :
    (behind junk : Ptr → List ℕ) (nvm_fuel fuel : ℕ) (l : SkipList) (h h' : Heap) (errors : ℕ)
    (nvm nvm' : NvmList) (zs : List Tower)
    → IsLinked l h zs
    → All (IsReadable behind junk) zs
    → All (λ t. HasDigits 16 t.key) zs
    → length zs < fuel
    → run behind nvm_fuel fuel (some l) h nvm ≡ ok (h', errors, nvm')
    → errors ≡ falls 0 zs
unfolding run
run-falls behind junk nvm_fuel fuel l h h' errors nvm nvm' zs w read digits lt runs =
    let c = w.chains 0 (omega (arith, w.some_level, w.levels)) in
    let (start, reads) = Chain-next c in
    let ((errors1, nvm1), looped, rest) =
      >>=-eq-ok
        (if start == null then fault else run_loop behind h nvm_fuel fuel start (0, 0) 0 nvm) _
        (rw reads at runs) in
    let (h1, _, done) = >>=-eq-ok (destroy fuel l h) _ rest in
    let same : errors1 ≡ errors = ap (λ p. p.1) (ok-injective _ _ done) in
    let counted : errors1 ≡ 0 + falls 0 zs =
      run_loop-falls behind junk h nvm_fuel l.key_size fuel zs start (0, 0) 0 nvm errors1 nvm1 c
        reads lt w.holds w.tall read digits (omega arith)
        (no_fault (start == null) (run_loop behind h nvm_fuel fuel start (0, 0) 0 nvm) looped) in
    omega (arith, same, counted)
  where
    no_fault :
        (b : Bool) (o : Outcome (ℕ × NvmList)) {p : ℕ × NvmList}
        → (if b then fault else o) ≡ ok p
        → o ≡ ok p
    no_fault true o e = cc
    no_fault false o e = e

-- On a linked list in DRAM that is not empty, with keys of different ranks that begin with sixteen
-- digits which show no 0, each with junk behind it that ends in a NUL, and on a well-formed list in
-- NVM, both for keys of sixteen bytes, with enough fuel and room in the file, `Run` prints no error.
pub run-silent :
    (behind junk : Ptr → List ℕ) (nvm_fuel fuel : ℕ) (l : SkipList) (h : Heap) (nvm : NvmList)
    (zs ts us : List Tower)
    → IsLinked l h zs
    → zs ≢ []
    → All (IsReadable behind junk) zs
    → All (λ t. HasDigits 16 t.key) zs
    → All (λ t. 0 < number 16 t.key) zs
    → Different 16 zs
    → IsNvmList nvm ts us
    → l.key_size ≡ 16
    → nvm.list.key_size ≡ 16
    → length zs < fuel
    → length (ts ++ us) + length zs < nvm_fuel
    → nvm.allocator.cur_index + room_for junk nvm.list.k_max_height zs
      ≤ nvm.allocator.pmemaddr + nvm.allocator.mapped_len
    → (h' : Heap) × (nvm' : NvmList) × (run behind nvm_fuel fuel (some l) h nvm ≡ ok (h', 0, nvm'))
run-silent behind junk nvm_fuel fuel l h nvm zs ts us w some_nodes read digits positive different wn
      size size' lt enough room =
    let (h', errors, nvm', runs, _, _, _, _) =
      run-Copied behind junk nvm_fuel fuel l h nvm zs ts us w some_nodes read wn (size' ∙ sym size)
        lt enough room in
    let counted : errors ≡ falls 0 zs =
      run-falls behind junk nvm_fuel fuel l h h' errors nvm nvm' zs w read digits lt runs in
    let none_falls : falls 0 zs ≡ 0 =
      falls-zero 0 zs digits positive (subst (λ n. Ascending n zs) size w.ascending) different in
    (
      h',
      nvm',
      subst (λ m. run behind nvm_fuel fuel (some l) h nvm ≡ ok (h', m, nvm')) (counted ∙ none_falls)
          runs,
    )
