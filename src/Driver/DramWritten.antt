-- ===== src/Driver/DramWritten.antt =====
-- What `write_to_dram` leaves in the list in NVM.
use mathlib.Core.List.{Perm}
use mathlib.Core.List.Perm
use native.Mathlib.Nat.{le-div_iff_mul-le}
use persist_tree_test.Base.{
  ℕ, ◌+◌, ◌*◌, ◌/◌, ◌%◌, sym, ◌^◌, ◌<◌, ◌≤◌, ◌≡◌, ◌≢◌, refl, subst, arith, ◌⊎◌, inl, inr, List, [],
  ◌∷◌, ◌++◌, none, All, length, length-append, ne→==_false,
}
use persist_tree_test.Base.Outcome.{Outcome, ok, fault}
use persist_tree_test.Node.{Ptr, null}
use persist_tree_test.Towers.{Tower, keys}
use persist_tree_test.MemorySkipList.WellFormed.{IsSkipList, IsLinked}
use persist_tree_test.MemorySkipList.Owned.{IsOwned}
use persist_tree_test.Routes.{room_each}
use persist_tree_test.PersistentSkipList.Insert.{IsNvmList}
use persist_tree_test.Driver.{Options}
use persist_tree_test.Driver.Dram.{Dram, max_size, dram_loop, write_to_dram}
use persist_tree_test.Driver.Texts.{texts}
use persist_tree_test.Driver.Buffered.{Holding}
use persist_tree_test.Driver.ListRun.{empty-IsLinked}
use persist_tree_test.Driver.Flushed.{flush_list-empty, flush_list-Holding}
use persist_tree_test.WriteBuffer.Count.{keys_per_list, Counted, none-Counted, Counted-mod}
use persist_tree_test.Driver.DramLoop.{dram_loop-Holding}

-- What `write_to_dram` is for: a well-formed list in NVM with one key for each round, with the random
-- numbers `ns`, no error printed, and nothing left in DRAM but the head of an empty list.
pub record Complete (v ops : ℕ) (d : Dram) : Type 0 where
  pub ns : List ℕ
  pub ts : List Tower
  pub us : List Tower
  pub rounds : length ns ≡ ops
  pub drawn : All (λ n. n < ops) ns
  pub result : IsNvmList d.nvm ts us
  pub contents : Perm (keys (ts ++ us)) (texts v 1 ns)
  pub silent : d.errors ≡ 0
  pub buffer : IsLinked d.buffer.list d.buffer.heap []
  pub owned : IsOwned d.buffer.list.head d.buffer.heap []

-- Two empty lists for keys of sixteen bytes, with room in the file for the rounds, nothing but the head
-- of the list in DRAM in memory, and no error printed. The addresses of the rounds are not that of the
-- head.
pub record IsNew (fresh : ℕ → Ptr) (v ops : ℕ) (d : Dram) : Type 0 where
  pub buffer : IsSkipList d.buffer.list d.buffer.heap [] []
  pub buffer_size : d.buffer.list.key_size ≡ 16
  pub no_size : d.cur_size ≡ 0
  pub nvm : IsNvmList d.nvm [] []
  pub nvm_size : d.nvm.list.key_size ≡ 16
  pub room :
      d.nvm.allocator.cur_index + ops * room_each d.nvm.list.k_max_height (16 + v)
      ≤ d.nvm.allocator.pmemaddr + d.nvm.allocator.mapped_len
  pub only_head : (r : Ptr) → r ≢ d.buffer.list.head → d.buffer.heap r ≡ none
  pub unused : (j : ℕ) → 2 ≤ j → fresh j ≢ d.buffer.list.head
  pub silent : d.errors ≡ 0

quotient_pos : (v : ℕ) → 0 < v → v ≤ 1024000 → (1024 * 1000) / v * 1000 ≢ 0
quotient_pos v pos le e =
    let some : 1 ≤ (1024 * 1000) / v = (le-div_iff_mul-le pos).1 (omega (arith, le)) in
    absurd (omega (arith, some, e))

module _ (rest : Ptr → List ℕ) (fresh garbage : ℕ → Ptr) (fuel : ℕ) (o : Options)
    (some_address : (j : ℕ) → fresh j ≢ null) (different : (j k : ℕ) → j ≢ k → fresh j ≢ fresh k)
    (some_ops : 0 < o.ops_num) (few_ops : o.ops_num < 10 ^ 8) (some_value : 0 < o.value_size)
    (small_value : o.value_size ≤ 1024000) (enough : o.ops_num + 1 ≤ fuel) where
  abbrev ops : ℕ
  ops = o.ops_num

  abbrev v : ℕ
  v = o.value_size

  -- The rounds of `write_to_dram`, without the last `Flush`.
  abbrev pub all_rounds : Dram → Outcome Dram
  all_rounds d = dram_loop (λ p. 0 ∷ rest p) fresh garbage fuel o ((1024 * 1000) / v * 1000) ops 1 d

  -- After the rounds, `waiting` keys are in the list in DRAM.
  pub Ends : Dram → ℕ → Type 0
  Ends d waiting =
      ((waiting ≢ 0)
        × (d' : Dram) × (write_to_dram (λ p. 0 ∷ rest p) fresh garbage fuel o d ≡ ok d')
        × Complete v ops d')
      ⊎ ((waiting ≡ 0)
          × (d' : Dram) × (all_rounds d ≡ ok d')
          × Complete v ops d'
          × (write_to_dram (λ p. 0 ∷ rest p) fresh garbage fuel o d ≡ fault))

  Holding-Complete :
      (left free : ℕ) (d : Dram) (ns : List ℕ)
      → Holding fresh v ops left free d ns []
      → length ns ≡ ops
      → Complete v ops d
  Holding-Complete left free d ns w rounds =
      let (linked, owned) =
        empty-IsLinked rest fresh garbage fuel o some_address different (omega (arith, few_ops))
          left free d ns w in
      record {
        ns = ns;
        ts = w.nvm_ts;
        us = w.nvm_us;
        rounds = rounds;
        drawn = w.flushed_low;
        result = w.nvm;
        contents = w.stored;
        silent = w.silent;
        buffer = linked;
        owned = owned;
      }

  last-Ends :
      (d d' : Dram) (flushed ns : List ℕ)
      → all_rounds d ≡ ok d'
      → Holding fresh v ops 0 (2 * (ops + 1)) d' flushed ns
      → length flushed + length ns ≡ ops
      → Ends d (length ns)
  unfolding write_to_dram Ends
  last-Ends d d' flushed [] runs held total = inr (
    refl,
    d',
    runs,
    Holding-Complete 0 _ d' flushed held (omega (arith, total)),
    rw (ne→==_false v 0 (omega (arith, some_value)), runs)
        (flush_list-empty rest fresh garbage fuel o some_address different (omega (arith, few_ops))
          0 _ (ops + 1) d' flushed held),
  )
  last-Ends d d' flushed (n ∷ ns) runs held total =
      let (e, flushes, held', _) =
        flush_list-Holding rest fresh garbage fuel o some_address different (omega (arith, few_ops))
          0 _ (ops + 1) d' flushed (n ∷ ns) held (omega arith) (omega arith)
          (omega (arith, total, few_ops)) (omega (arith, total, enough)) in
      inl (
        (λ z. absurd (omega (arith, z))),
        e,
        rw (ne→==_false v 0 (omega (arith, some_value)), runs) flushes,
        Holding-Complete 0 _ e (flushed ++ (n ∷ ns)) held'
            (omega (arith, length-append flushed (n ∷ ns), total)),
      )

  -- All rounds succeed.
  pub all_rounds-Holding :
      (d : Dram)
      → IsNew fresh v ops d
      → (d' : Dram) × (flushed' : List ℕ) × (ns' : List ℕ) × (all_rounds d ≡ ok d')
        × Holding fresh v ops 0 (2 * (ops + 1)) d' flushed' ns'
        × Counted (max_size o) (16 + v) d'.cur_size (length flushed') (length ns')
        × (length flushed' + length ns' ≡ ops)
  all_rounds-Holding d new =
      let begins : Holding fresh v ops ops (2 * 1) d [] [] = record {
        ts = [];
        us = [];
        buffer = new.buffer;
        buffer_size = new.buffer_size;
        buffered = Perm.refl _;
        buffer_count = refl;
        nvm_ts = [];
        nvm_us = [];
        nvm = new.nvm;
        nvm_size = new.nvm_size;
        stored = Perm.refl _;
        nvm_count = refl;
        flushed_low = tt;
        ns_low = tt;
        room =
            subst
              (λ k.
                d.nvm.allocator.cur_index + k * room_each d.nvm.list.k_max_height (16 + v)
                ≤ d.nvm.allocator.pmemaddr + d.nvm.allocator.mapped_len)
              (omega arith) new.room;
        unused = λ j le. new.only_head (fresh j) (new.unused j (omega (arith, le)));
        owned = λ r ne _. new.only_head r ne;
        silent = new.silent;
      } in
      let counted : Counted (max_size o) (16 + v) d.cur_size 0 0 =
        subst (λ k. Counted (max_size o) (16 + v) k 0 0) (sym new.no_size)
          (none-Counted (max_size o) (16 + v) (omega arith) (omega (arith, small_value))) in
      dram_loop-Holding rest fresh garbage fuel o some_address different some_ops few_ops
        small_value enough ((1024 * 1000) / v * 1000) ops 1 d [] []
        (quotient_pos v some_value small_value) begins counted (omega arith) (omega arith)

  pub write_to_dram-Ends :
      (d : Dram) → IsNew fresh v ops d → Ends d (ops % keys_per_list (max_size o) (16 + v))
  write_to_dram-Ends d new =
      let (d', flushed, ns, runs, held, counts, total) = all_rounds-Holding d new in
      subst (Ends d) (sym (Counted-mod ops (omega arith) counts total))
        (last-Ends d d' flushed ns runs held total)

-- From an empty list in DRAM and an empty list in NVM, both for keys of sixteen bytes, with an
-- `ops_num` from 1 to 10^8 - 1 and a `value_size` from 1 to 1024000, a NUL in memory behind each
-- key in DRAM, addresses that are not NULL, different and unused, nothing but the head of the list
-- in DRAM in memory, no error printed before, and with enough fuel and room in the file, all rounds
-- of `write_to_dram` succeed, however often the list in DRAM is full and flushed. When `ops_num` is
-- no multiple of the number of keys that fill a list, the last `Flush` succeeds too: the list in
-- NVM is well formed, its keys are a permutation of those of the rounds, for random numbers below
-- `ops_num`, no error has been printed, the list in DRAM is linked and empty, and nothing but its
-- head is left in memory. When it is a multiple, all this holds before the last `Flush` already,
-- and the last `Flush` fails.
pub write_to_dram-Complete :
    (rest : Ptr → List ℕ) (fresh garbage : ℕ → Ptr) (fuel : ℕ) (o : Options) (d : Dram)
    → ((j : ℕ) → fresh j ≢ null)
    → ((j k : ℕ) → j ≢ k → fresh j ≢ fresh k)
    → 0 < o.ops_num
    → o.ops_num < 10 ^ 8
    → 0 < o.value_size
    → o.value_size ≤ 1024000
    → o.ops_num + 1 ≤ fuel
    → IsNew fresh o.value_size o.ops_num d
    → ((o.ops_num % keys_per_list (max_size o) (16 + o.value_size) ≢ 0)
        × (d' : Dram) × (write_to_dram (λ p. 0 ∷ rest p) fresh garbage fuel o d ≡ ok d')
        × Complete o.value_size o.ops_num d')
      ⊎ ((o.ops_num % keys_per_list (max_size o) (16 + o.value_size) ≡ 0)
          × (d' : Dram) × (dram_loop
                (λ p. 0 ∷ rest p)
                fresh
                garbage
                fuel
                o
                ((1024 * 1000) / o.value_size * 1000)
                o.ops_num
                1
                d
              ≡ ok d')
          × Complete o.value_size o.ops_num d'
          × (write_to_dram (λ p. 0 ∷ rest p) fresh garbage fuel o d ≡ fault))
unfolding Ends
write_to_dram-Complete rest fresh garbage fuel o d some_address different some_ops few_ops
      some_value small_value enough new =
    write_to_dram-Ends rest fresh garbage fuel o some_address different some_ops few_ops some_value
      small_value enough d new
