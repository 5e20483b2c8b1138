-- ===== src/Driver/ListRun.antt =====
-- `Run` of the list in DRAM in `Flush`.
use mathlib.Core.List.{Perm, perm_middle}
use mathlib.Core.List.Perm
use persist_tree_test.Base.{
  ℕ, none, ◌+◌, ◌*◌, ◌^◌, ◌<◌, ◌≤◌, ◌≡◌, ◌≢◌, refl, ◌∙◌, ap, sym, subst, arith, some, List, [], ◌∷◌,
  ◌++◌, append-nil, All, All-map, map, length,
}
use persist_tree_test.Base.Outcome.{ok, fault}
use persist_tree_test.CString.Digits.{HasDigits}
use persist_tree_test.Node.{Ptr, null, Heap}
use persist_tree_test.Towers.{Tower, Ascending}
use persist_tree_test.Towers.Chain.{Chain, stop}
use persist_tree_test.Towers.Falls.{falls, falls-zero, perm-All, perm-Different}
use persist_tree_test.MemorySkipList.{SkipList}
use persist_tree_test.MemorySkipList.WellFormed.{IsLinked}
use persist_tree_test.MemorySkipList.Owned.{IsOwned, freed-IsOwned}
use persist_tree_test.PersistentSkipList.{NvmList}
use persist_tree_test.PersistentSkipList.Insert.{IsNvmList}
use persist_tree_test.FlushNvm.{run}
use persist_tree_test.FlushNvm.Keys.{room_for, read_as}
use persist_tree_test.FlushNvm.Run.{Copied, run-Copied}
use persist_tree_test.FlushNvm.Silent.{run-falls}
use persist_tree_test.Routes.{
  IsText, IsText-prop, no_junk, texts-IsReadable, room_each, room_for-bound,
}
use persist_tree_test.Driver.{Options}
use persist_tree_test.Driver.Dram.{Dram}
use persist_tree_test.Driver.Texts.{texts, texts-AllUnlike, texts-shown}
use persist_tree_test.Driver.Written.{Shown, Shown-prop}
use persist_tree_test.Driver.Buffered.{Holding, texts-IsText, numbers_low}

pub swapped : (xs ys : List (List ℕ)) → Perm (xs ++ ys) (ys ++ xs)
swapped [] ys = subst (Perm ys) (sym (append-nil ys)) (Perm.refl ys)
swapped (x ∷ xs) ys = Perm.trans (Perm.cons x (swapped xs ys)) (Perm.symm (perm_middle ys xs))

pub times_sum : (a b c : ℕ) → (a + b) * c ≡ a * c + b * c
times_sum a b c = grind arith

pub length-read : (zs : List Tower) → length (map (read_as no_junk) zs) ≡ length zs
length-read [] = refl
length-read (t ∷ zs) = omega (arith, length-read zs)

-- `Run` fails on an empty list.
pub run-empty :
    (behind : Ptr → List ℕ) (fuel : ℕ) (l : SkipList) (h : Heap) (nvm : NvmList)
    → IsLinked l h []
    → run behind fuel fuel (some l) h nvm ≡ fault
unfolding run
run-empty behind fuel l h nvm w = ends (w.chains 0 (omega (arith, w.some_level, w.levels)))
  where
    ends : Chain h 0 l.head [] → run behind fuel fuel (some l) h nvm ≡ fault
    ends (stop e) = rw e refl

module _ (rest : Ptr → List ℕ) (fresh garbage : ℕ → Ptr) (fuel : ℕ) (o : Options)
    (some_address : (j : ℕ) → fresh j ≢ null) (different : (j k : ℕ) → j ≢ k → fresh j ≢ fresh k)
    (few_ops : o.ops_num ≤ 10 ^ 8) where
  abbrev v : ℕ
  v = o.value_size

  abbrev behind : Ptr → List ℕ
  behind p = 0 ∷ rest p

  -- The list in DRAM is empty, and nothing but its head is in memory.
  pub empty-IsLinked :
      (left free : ℕ) (d : Dram) (flushed : List ℕ)
      → Holding fresh v o.ops_num left free d flushed []
      → IsLinked d.buffer.list d.buffer.heap [] × IsOwned d.buffer.list.head d.buffer.heap []
  empty-IsLinked left free d flushed w =
      subst
        (λ zs.
          IsLinked d.buffer.list d.buffer.heap zs × IsOwned d.buffer.list.head d.buffer.heap zs)
        (no_towers (w.ts ++ w.us) w.buffer_count) (w.buffer.linked, w.owned)
    where
      no_towers : (zs : List Tower) → length zs ≡ 0 → zs ≡ []
      no_towers [] e = refl
      no_towers (t ∷ zs) e = absurd (omega arith)

  -- The keys in DRAM are those of rounds.
  buffered-IsText :
      (left free : ℕ) (d : Dram) (flushed ns : List ℕ)
      (w : Holding fresh v o.ops_num left free d flushed ns)
      → 1 + length flushed + length ns ≤ 10 ^ 8
      → All (λ t. IsText (16 + v) t.key) (w.ts ++ w.us)
  buffered-IsText left free d flushed ns w few =
      perm-All (IsText-prop (16 + v)) (w.ts ++ w.us) (texts v (1 + length flushed) ns) w.buffered
        (texts-IsText v (1 + length flushed) ns few (numbers_low o.ops_num ns few_ops w.ns_low))

  -- They show numbers that rise.
  buffered-falls :
      (left free : ℕ) (d : Dram) (flushed ns : List ℕ)
      (w : Holding fresh v o.ops_num left free d flushed ns)
      → 1 + length flushed + length ns ≤ 10 ^ 8
      → All (λ t. HasDigits 16 t.key) (w.ts ++ w.us) × (falls 0 (w.ts ++ w.us) ≡ 0)
  buffered-falls left free d flushed ns w few =
      let zs : List Tower = w.ts ++ w.us in
      let a : ℕ = 1 + length flushed in
      let low : All (λ n. n < 10 ^ 8) ns = numbers_low o.ops_num ns few_ops w.ns_low in
      let shown : All (λ t. Shown t.key) zs =
        perm-All Shown-prop zs (texts v a ns) w.buffered
          (texts-shown v a ns (omega arith) few low) in
      let digits : All (λ t. HasDigits 16 t.key) zs = All-map _ _ (λ t h. h.0) zs shown in
      (
        digits,
        falls-zero 0 zs digits (All-map _ _ (λ t s. s.1) zs shown)
            (subst (λ n. Ascending n zs) w.buffer_size w.buffer.linked.ascending)
            (perm-Different 16 zs (texts v a ns) w.buffered (texts-AllUnlike v a ns few low)),
      )

  -- What they may need of the file.
  pub buffered_room :
      (left free : ℕ) (d : Dram) (flushed ns : List ℕ)
      (w : Holding fresh v o.ops_num left free d flushed ns)
      → 1 + length flushed + length ns ≤ 10 ^ 8
      → (max : ℕ) → room_for no_junk max (w.ts ++ w.us) ≤ length ns * room_each max (16 + v)
  buffered_room left free d flushed ns w few max =
      subst (λ k. room_for no_junk max (w.ts ++ w.us) ≤ k * room_each max (16 + v)) w.buffer_count
        (room_for-bound max (16 + v) (w.ts ++ w.us) (buffered-IsText left free d flushed ns w few))

  -- `Run` of the list in DRAM, which leaves nothing of it in memory.
  pub run_list :
      (left free : ℕ) (d : Dram) (flushed ns : List ℕ)
      (w : Holding fresh v o.ops_num left free d flushed ns)
      → 0 < length ns
      → 1 + length flushed + length ns ≤ 10 ^ 8
      → length flushed + length ns < fuel
      → (h : Heap) × (nvm' : NvmList) × (run behind fuel fuel
            (some d.buffer.list)
            d.buffer.heap
            (record d.nvm { seed = d.buffer.seed })
          ≡ ok (h, 0, nvm'))
        × Copied
            (record d.nvm { seed = d.buffer.seed })
            nvm'
            (map (read_as no_junk) (w.ts ++ w.us))
            (w.nvm_ts ++ w.nvm_us)
        × ((r : Ptr) → h r ≡ none)
  run_list left free d flushed ns w some_ns few enough =
      let zs : List Tower = w.ts ++ w.us in
      let zs_texts : All (λ t. IsText (16 + v) t.key) zs =
        buffered-IsText left free d flushed ns w few in
      let (digits, silent) = buffered-falls left free d flushed ns w few in
      let max : ℕ = d.nvm.list.k_max_height in
      let nvm : NvmList = record d.nvm { seed = d.buffer.seed } in
      let nvm_list : IsNvmList nvm w.nvm_ts w.nvm_us = record {
        list = w.nvm.list;
        unused = w.nvm.unused;
        mapped = w.nvm.mapped;
        in_space = w.nvm.in_space;
        some_ops = w.nvm.some_ops;
      } in
      let (h, errors, nvm', runs, copied, gone, gone_head, kept) =
        run-Copied behind no_junk fuel fuel d.buffer.list d.buffer.heap nvm zs w.nvm_ts w.nvm_us
          w.buffer.linked (λ e. absurd (omega (arith, w.buffer_count, some_ns, ap length e)))
          (texts-IsReadable rest (16 + v) zs zs_texts) nvm_list (w.nvm_size ∙ sym w.buffer_size)
          (omega (arith, w.buffer_count, enough))
          (omega (arith, w.buffer_count, w.nvm_count, enough))
          (omega (
            arith,
            w.room,
            buffered_room left free d flushed ns w few max,
            times_sum left (length ns) (room_each max (16 + v)),
          )) in
      let counted : errors ≡ falls 0 zs =
        run-falls behind no_junk fuel fuel d.buffer.list d.buffer.heap h errors nvm nvm' zs
          w.buffer.linked (texts-IsReadable rest (16 + v) zs zs_texts) digits
          (omega (arith, w.buffer_count, enough)) runs in
      (
        h,
        nvm',
        subst (λ k. run behind fuel fuel (some d.buffer.list) d.buffer.heap nvm ≡ ok (h, k, nvm'))
            (counted ∙ silent) runs,
        copied,
        freed-IsOwned d.buffer.list.head d.buffer.heap h zs w.owned gone gone_head kept,
      )
