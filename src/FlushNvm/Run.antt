-- ===== src/FlushNvm/Run.antt =====
-- `FlushNVM::Run` on well-formed lists.
use persist_tree_test.Base.{
  ℕ, zero, suc, ◌+◌, ◌<◌, ◌≤◌, ◌≡◌, ◌≢◌, refl, ◌∙◌, sym, ap, arith, some, none, List, [], ◌∷◌, ◌++◌,
  All, All-append, map, subst, length, length-append, append_assoc, ne→==_false, if◌then◌else◌,
}
use mathlib.Core.List.{Perm, perm_middle}
use mathlib.Core.List.Perm
use persist_tree_test.Base.Outcome.{ok}
use persist_tree_test.CString.{from_c_str}
use persist_tree_test.CString.Rank.{IsKey, from_c_str-append}
use persist_tree_test.Node.{Ptr, null, Heap, next}
use persist_tree_test.Node.Laws.{load-ok}
use persist_tree_test.Towers.{keys, Tower, Apart}
use persist_tree_test.Towers.Chain.{Chain, stop, through, past, Chain-next}
use persist_tree_test.MemorySkipList.{SkipList}
use persist_tree_test.MemorySkipList.Search.{Holds}
use persist_tree_test.MemorySkipList.WellFormed.{IsLinked}
use persist_tree_test.MemorySkipList.Fill.{inserted-perm, length-insert}
use persist_tree_test.MemorySkipList.Lifetime.{destroy-Freed}
use persist_tree_test.MemorySkipList.Steps.{tower}
use persist_tree_test.PersistentSkipList.{NvmList}
use persist_tree_test.PersistentSkipList.Insert.{IsNvmList, InsertedIn, insert-InsertedIn}
use persist_tree_test.PersistentSkipList.Lifetime.{room_after, length-inserted, need_all}
use persist_tree_test.PrintKey.{Last}
use persist_tree_test.FlushNvm.{run_loop, run}
use persist_tree_test.FlushNvm.Keys.{print_key-ok, read_as, IsReadable, IsKey-append, room_for}

-- What the copying leaves in NVM.
pub record Copied (nvm nvm' : NvmList) (texts : List (List ℕ)) (zs : List Tower) : Type 0 where
  pub ts : List Tower
  pub us : List Tower
  pub result : IsNvmList nvm' ts us
  pub contents : Perm (keys (ts ++ us)) (texts ++ keys zs)
  pub same_size : nvm'.list.key_size ≡ nvm.list.key_size
  pub same_max : nvm'.list.k_max_height ≡ nvm.list.k_max_height
  pub grows : length (ts ++ us) ≡ length zs + length texts
  pub same_file :
      nvm'.allocator.pmemaddr + nvm'.allocator.mapped_len
      ≡ nvm.allocator.pmemaddr + nvm.allocator.mapped_len
  pub moved :
      nvm'.allocator.cur_index ≤ nvm.allocator.cur_index + need_all nvm.list.k_max_height texts

moved_on :
    (nvm nvm1 nvm' : NvmList) (key : List ℕ) (texts : List (List ℕ)) (ts us : List Tower)
    → InsertedIn nvm nvm1 key ts us
    → nvm'.allocator.cur_index ≤ nvm1.allocator.cur_index + need_all nvm1.list.k_max_height texts
    → nvm'.allocator.cur_index
      ≤ nvm.allocator.cur_index + need_all nvm.list.k_max_height (key ∷ texts)
moved_on nvm nvm1 nvm' key texts ts us i le = omega (
  arith,
  i.moved,
  i.fits,
  subst (λ m. nvm'.allocator.cur_index ≤ nvm1.allocator.cur_index + need_all m texts) i.same_max le,
)

module _ (behind junk : Ptr → List ℕ) (h : Heap) (nvm_fuel : ℕ) where
  pub read_key :
      (n : ℕ) (t : Tower)
      → (s : Holds n h t) → IsReadable behind junk t
      → from_c_str (s.stored.found.key ++ behind t.ptr) ≡ ok (read_as junk t)
  read_key n t s r =
      rw (s.stored.has_key, r.ends, sym (append_assoc t.key (junk t.ptr) (0 ∷ r.rest)))
        (from_c_str-append (read_as junk t) r.rest
          (All-append _ t.key (junk t.ptr) r.no_nul r.junk_no_nul))

  run_loop-Copied :
      (n fuel : ℕ) {q : Ptr} (zs : List Tower) (start : Ptr) (last : Last) (errors : ℕ)
      (nvm : NvmList) (ts us : List Tower)
      → Chain h 0 q zs
      → next q 0 h ≡ ok start
      → length zs < fuel
      → All (Holds n h) zs
      → All (λ t. 0 < t.height) zs
      → All (IsReadable behind junk) zs
      → IsNvmList nvm ts us
      → nvm.list.key_size ≡ n
      → length (ts ++ us) + length zs < nvm_fuel
      → nvm.allocator.cur_index + room_for junk nvm.list.k_max_height zs
        ≤ nvm.allocator.pmemaddr + nvm.allocator.mapped_len
      → (errors' : ℕ) × (nvm' : NvmList) × (run_loop behind h nvm_fuel fuel start last errors nvm
          ≡ ok (errors', nvm'))
        × Copied nvm nvm' (map (read_as junk) zs) (ts ++ us)
  unfolding run_loop
  run_loop-Copied n zero zs start last errors nvm ts us c e lt holds tall read w size enough room =
      absurd (omega arith)
  run_loop-Copied n (suc fuel) [] start last errors nvm ts us (stop e') e lt holds tall read w size
        enough room =
      (
        errors,
        nvm,
        ground arith,
        record {
          ts = ts;
          us = us;
          result = w;
          contents = Perm.refl _;
          same_size = refl;
          same_max = refl;
          grows = omega arith;
          same_file = refl;
          moved = omega arith;
        },
      )
  run_loop-Copied n (suc fuel) (t ∷ zs) start last errors nvm ts us (past le c) e lt holds tall read
        w size enough room =
      absurd (omega (arith, tall.0))
  run_loop-Copied n (suc fuel) (t ∷ zs) start last errors nvm ts us (through high e' c) e lt holds
        tall read w size enough room =
      let at : start ≡ t.ptr = ground arith in
      let (after, reads) = Chain-next c in
      let key : List ℕ = read_as junk t in
      let (in_order, last', printed) =
        print_key-ok key last (omega (arith, read.0.long, length-append t.key (junk t.ptr))) in
      let ik : IsKey nvm.list.key_size key =
        subst (λ m. IsKey m key) (sym size) (IsKey-append n t.key (junk t.ptr) holds.0.is_key) in
      let (nvm1, inserts, i) =
        insert-InsertedIn nvm nvm_fuel key ts us w ik (omega arith) (omega (arith, room)) in
      let x : Tower = tower nvm.allocator.cur_index key i.height in
      let (errors', nvm', run', done) =
        run_loop-Copied n fuel zs after last' (if in_order then errors else errors + 1) nvm1
          (i.before ++ (x ∷ [])) i.after c reads (omega arith) holds.1 tall.1 read.1 i.result
          (i.same_size ∙ size) (omega (arith, length-insert i.before i.after x, ap length i.same))
          (subst
            (λ m.
              nvm1.allocator.cur_index + room_for junk m zs
              ≤ nvm1.allocator.pmemaddr + nvm1.allocator.mapped_len)
            (sym i.same_max)
            (room_after nvm nvm1 key ts us (room_for junk nvm.list.k_max_height zs) i
              (omega (arith, room)))) in
      (
        errors',
        nvm',
        rw
            (
              at,
              ne→==_false _ _ holds.0.stored.ne_null,
              load-ok holds.0.stored,
              read_key n t holds.0 read.0,
              printed,
              inserts,
              reads,
            )
            run',
        record {
          ts = done.ts;
          us = done.us;
          result = done.result;
          contents = Perm.trans done.contents (
              Perm.trans
                (Perm.append_left (map (read_as junk) zs)
                  (inserted-perm i.before i.after (ts ++ us) x i.same))
                (perm_middle (map (read_as junk) zs) (keys (ts ++ us))));
          same_size = done.same_size ∙ i.same_size;
          same_max = done.same_max ∙ i.same_max;
          grows = omega (arith, done.grows, length-inserted i);
          same_file = done.same_file ∙ i.same_file;
          moved = moved_on nvm nvm1 nvm' key (map (read_as junk) zs) ts us i done.moved;
        },
      )

-- On a linked list in DRAM that is not empty and a well-formed list in NVM with the same key size,
-- with keys of at least 16 characters and no NUL, each with junk behind it that ends in a NUL, with
-- enough fuel and enough room in the file, `Run` succeeds. It frees the head and every node of the
-- list in DRAM and no other node, and leaves a well-formed list in NVM, whose keys are a permutation
-- of its old ones and of the keys in DRAM, each with the junk behind it.
pub run-Copied :
    (behind junk : Ptr → List ℕ) (nvm_fuel fuel : ℕ) (l : SkipList) (h : Heap) (nvm : NvmList)
    (zs ts us : List Tower)
    → IsLinked l h zs
    → zs ≢ []
    → All (IsReadable behind junk) zs
    → IsNvmList nvm ts us
    → nvm.list.key_size ≡ l.key_size
    → length zs < fuel
    → length (ts ++ us) + length zs < nvm_fuel
    → nvm.allocator.cur_index + room_for junk nvm.list.k_max_height zs
      ≤ nvm.allocator.pmemaddr + nvm.allocator.mapped_len
    → (h' : Heap) × (errors : ℕ) × (nvm' : NvmList) × (run behind nvm_fuel fuel (some l) h nvm
        ≡ ok (h', errors, nvm'))
      × Copied nvm nvm' (map (read_as junk) zs) (ts ++ us)
      × All (λ t. h' t.ptr ≡ none) zs
      × (h' l.head ≡ none)
      × ((r : Ptr) → r ≢ l.head → Apart r zs → h' r ≡ h r)
unfolding run
run-Copied behind junk nvm_fuel fuel l h nvm zs ts us w some_nodes read wn size lt enough room =
    let c = w.chains 0 (omega (arith, w.some_level, w.levels)) in
    let (start, reads) = Chain-next c in
    let ne : start ≢ null = start-ne_null zs c reads w.holds w.tall some_nodes in
    let (errors, nvm', copies, done) =
      run_loop-Copied behind junk h nvm_fuel l.key_size fuel zs start (0, 0) 0 nvm ts us c reads lt
        w.holds w.tall read wn size enough room in
    let (h', destroys, gone, gone_head, kept) = destroy-Freed l h zs fuel w lt in
    (
      h',
      errors,
      nvm',
      rw (reads, ne→==_false start null ne, copies, destroys) refl,
      done,
      gone,
      gone_head,
      kept,
    )
  where
    start-ne_null :
        {q start : Ptr} (ys : List Tower)
        → Chain h 0 q ys
        → next q 0 h ≡ ok start
        → All (Holds l.key_size h) ys
        → All (λ t. 0 < t.height) ys
        → ys ≢ []
        → start ≢ null
    start-ne_null [] (stop e') e holds tall ne = absurd (ne refl)
    start-ne_null (t ∷ ys) (past le c) e holds tall ne = absurd (omega (arith, tall.0))
    start-ne_null (t ∷ ys) (through high e' c) e holds tall ne =
        ground (arith, holds.0.stored.ne_null)
