-- ===== src/Driver/Flushed.antt =====
-- `Flush` in `write_to_dram`.
use mathlib.Core.List.{Perm}
use mathlib.Core.List.Perm
use persist_tree_test.Base.{
  ℕ, ◌+◌, ◌*◌, ◌^◌, ◌<◌, ◌≤◌, ◌≡◌, ◌≢◌, refl, ◌∙◌, sym, subst, arith, List, [], ◌∷◌, ◌++◌,
  All-append, length, length-append,
}
use persist_tree_test.Base.Outcome.{ok, fault}
use persist_tree_test.Node.{Ptr, null}
use persist_tree_test.Towers.{Tower, keys}
use persist_tree_test.MemorySkipList.Lifetime.{init-IsSkipList}
use persist_tree_test.Routes.{read_as-no_junk, room_each}
use persist_tree_test.Driver.{Options}
use persist_tree_test.Driver.Dram.{Dram, flush_list}
use persist_tree_test.Driver.Texts.{texts}
use persist_tree_test.Driver.Buffered.{Holding, texts-append, need_all-read_as}
use persist_tree_test.Driver.ListRun.{
  swapped, times_sum, length-read, run-empty, empty-IsLinked, buffered_room, run_list,
}

module _ (rest : Ptr → List ℕ) (fresh garbage : ℕ → Ptr) (fuel : ℕ) (o : Options)
    (some_address : (j : ℕ) → fresh j ≢ null) (different : (j k : ℕ) → j ≢ k → fresh j ≢ fresh k)
    (few_ops : o.ops_num ≤ 10 ^ 8) where
  abbrev v : ℕ
  v = o.value_size

  abbrev behind : Ptr → List ℕ
  behind p = 0 ∷ rest p

  pub flush_list-empty :
      (left free i : ℕ) (d : Dram) (flushed : List ℕ)
      → Holding fresh v o.ops_num left free d flushed []
      → flush_list behind fresh garbage fuel o i d ≡ fault
  unfolding flush_list
  flush_list-empty left free i d flushed w =
      rw
        (run-empty behind fuel d.buffer.list d.buffer.heap (record d.nvm { seed = d.buffer.seed })
          (empty-IsLinked rest fresh garbage fuel o some_address different few_ops left free d
            flushed w).0)
        refl

  -- The keys go to NVM, and a new list is made.
  pub flush_list-Holding :
      (left free i : ℕ) (d : Dram) (flushed ns : List ℕ)
      → Holding fresh v o.ops_num left free d flushed ns
      → free ≤ 2 * i + 1
      → 0 < length ns
      → 1 + length flushed + length ns ≤ 10 ^ 8
      → length flushed + length ns < fuel
      → (d' : Dram) × (flush_list behind fresh garbage fuel o i d ≡ ok d')
        × Holding fresh v o.ops_num left (2 * i + 2) d' (flushed ++ ns) []
        × (d'.cur_size ≡ 0)
  unfolding flush_list
  flush_list-Holding left free i d flushed ns w le some_ns few enough =
      let zs : List Tower = w.ts ++ w.us in
      let a : ℕ = 1 + length flushed in
      let max : ℕ = d.nvm.list.k_max_height in
      let (h, nvm', runs, copied, freed) =
        run_list rest fresh garbage fuel o some_address different few_ops left free d flushed ns w
          some_ns few enough in
      let (l, h', starts, new, size, _, at_head, elsewhere) =
        init-IsSkipList (fresh (2 * i + 1)) garbage 12 4 16 h (some_address (2 * i + 1))
          (omega arith) (omega arith) (omega arith) in
      (
        record {
          buffer = record { list = l; heap = h'; seed = nvm'.seed };
          cur_size = 0;
          nvm = nvm';
          errors = d.errors + 0;
        },
        rw (runs, starts) refl,
        record {
          ts = [];
          us = [];
          buffer = new;
          buffer_size = size;
          buffered = Perm.refl _;
          buffer_count = refl;
          nvm_ts = copied.ts;
          nvm_us = copied.us;
          nvm = copied.result;
          nvm_size = copied.same_size ∙ w.nvm_size;
          stored = subst (Perm _) (sym (texts-append v 1 flushed ns)) (
              Perm.trans
                (subst
                  (λ ks. Perm (keys (copied.ts ++ copied.us)) (ks ++ keys (w.nvm_ts ++ w.nvm_us)))
                  (read_as-no_junk zs) copied.contents)
                (Perm.trans (Perm.append w.buffered w.stored)
                  (swapped (texts v a ns) (texts v 1 flushed))));
          nvm_count = omega (
            arith,
            copied.grows,
            length-read zs,
            w.buffer_count,
            w.nvm_count,
            length-append flushed ns,
          );
          flushed_low = All-append _ flushed ns w.flushed_low w.ns_low;
          ns_low = tt;
          room =
              subst
                (λ m.
                  nvm'.allocator.cur_index + (left + 0) * room_each m (16 + v)
                  ≤ nvm'.allocator.pmemaddr + nvm'.allocator.mapped_len)
                (sym copied.same_max)
                (omega (
                  arith,
                  w.room,
                  buffered_room rest fresh garbage fuel o some_address different few_ops left free d
                      flushed ns w few max,
                  copied.moved,
                  copied.same_file,
                  need_all-read_as max zs,
                  times_sum left (length ns) (room_each max (16 + v)),
                  times_sum left 0 (room_each max (16 + v)),
                ));
          unused = λ j free_j.
              elsewhere (fresh j) (different j (2 * i + 1) (omega arith)) ∙ freed (fresh j);
          owned = λ r ne _. elsewhere r (λ e. ne (e ∙ sym at_head)) ∙ freed r;
          silent = omega (arith, w.silent);
        },
        refl,
      )
