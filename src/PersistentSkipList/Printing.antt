-- ===== src/PersistentSkipList/Printing.antt =====
-- `Persistent_SkipList::Print`, which looks for keys that are out of order.
use persist_tree_test.Base.{
  ℕ, zero, suc, ◌+◌, ◌<◌, ◌≡◌, ◌∙◌, ap, sym, arith, Bool, List, [], ◌∷◌, ◌++◌, All, ltb,
  if◌then◌else◌, ◌==◌, ◌^◌, length, append-nil, ne→==_false,
}
use persist_tree_test.Base.Outcome.{Outcome, ok, out_of_fuel, ◌>>=◌}
use persist_tree_test.CString.Digits.{HasDigits, number}
use persist_tree_test.Node.{Ptr, null, Heap, next, load}
use persist_tree_test.Node.Laws.{load-ok}
use persist_tree_test.Towers.Falls.{falls}
use persist_tree_test.Towers.{Tower}
use persist_tree_test.Towers.Chain.{Chain, stop, through, past, Chain-next}
use persist_tree_test.MemorySkipList.Search.{Holds}
use persist_tree_test.PrintKey.{Last, print_buffer}
use persist_tree_test.PrintKey.Order.{value, print_buffer-number}
use persist_tree_test.PersistentSkipList.{NvmList}
use persist_tree_test.PersistentSkipList.Insert.{IsNvmList}

-- The loop of `Print` from node `start` on, with `errors` lines printed so far.
print_loop : Heap → ℕ → Ptr → Last → ℕ → Outcome ℕ
print_loop h zero start last errors = out_of_fuel
print_loop h (suc fuel) start last errors = if start == null then ok errors else do
  n ← load start h
  (in_order, last') ← print_buffer n.key last
  after ← next start 0 h
  print_loop h fuel after last' (if in_order then errors else errors + 1)

-- `Print`: the number of errors that it prints.
pub print : NvmList → ℕ → Outcome ℕ
print s fuel = do start ← next s.list.head 0 s.heap; print_loop s.heap fuel start (0, 0) 0

add_line : (b : Bool) (n m : ℕ) → (if b then n else n + 1) + m ≡ n + ((if b then 0 else 1) + m)
add_line b n m = ground arith

print_loop-falls :
    (n fuel : ℕ) {q : Ptr} {h : Heap} (zs : List Tower) (start : Ptr) (last : Last) (errors : ℕ)
    → Chain h 0 q zs
    → next q 0 h ≡ ok start
    → length zs < fuel
    → All (Holds n h) zs
    → All (λ t. 0 < t.height) zs
    → All (λ t. HasDigits 16 t.key) zs
    → last.1 < 10 ^ 8
    → print_loop h fuel start last errors ≡ ok (errors + falls (value last) zs)
unfolding print_loop
print_loop-falls n zero zs start last errors c e lt holds tall d small = absurd (omega arith)
print_loop-falls n (suc fuel) [] start last errors (stop e') e lt holds tall d small = ground arith
print_loop-falls n (suc fuel) (t ∷ zs) start last errors (past le c) e lt holds tall d small =
    absurd (omega (arith, tall.0))
print_loop-falls n (suc fuel) (t ∷ zs) start last errors (through high e' c) e lt holds tall d
      small =
    let at : start ≡ t.ptr = ground arith in
    let (after, reads) = Chain-next c in
    let (last', printed, shown, small') = print_buffer-number t.key [] last d.0 small in
    let b : Bool = ltb (value last) (number 16 t.key) in
    rw
      (
        at,
        ne→==_false _ _ holds.0.stored.ne_null,
        load-ok holds.0.stored,
        holds.0.stored.has_key,
        (ap (λ k. print_buffer k last) (sym (append-nil t.key)) ∙ printed),
        reads,
      )
      (print_loop-falls n fuel zs after last' (if b then errors else errors + 1) c reads
          (omega arith) holds.1 tall.1 d.1 small'
        ∙ ap (λ v. ok ((if b then errors else errors + 1) + falls v zs)) shown
        ∙ ap ok (add_line b errors (falls (number 16 t.key) zs)))

-- On a well-formed list whose keys begin with sixteen digits, with enough fuel, `Print` prints an
-- error for each key whose number is not above the number before it, which is 0 for the first key.
pub print-falls :
    (s : NvmList) (fuel : ℕ) (ts us : List Tower)
    → IsNvmList s ts us
    → length (ts ++ us) < fuel
    → All (λ t. HasDigits 16 t.key) (ts ++ us)
    → print s fuel ≡ ok (falls 0 (ts ++ us))
unfolding print
print-falls s fuel ts us w enough d =
    let c =
      w.list.linked.chains 0 (omega (arith, w.list.linked.some_level, w.list.linked.levels)) in
    let (start, reads) = Chain-next c in
    rw reads (
      print_loop-falls s.list.key_size fuel (ts ++ us) start (0, 0) 0 c reads enough
        w.list.linked.holds w.list.linked.tall d (omega arith)
      ∙ ap ok (omega arith))
