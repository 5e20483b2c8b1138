-- ===== src/Driver/Schedule.antt =====
-- `write_to_dram` on the lists themselves against the steps of the write buffer.
pub mod Last
use mathlib.Core.List.{Perm}
use persist_tree_test.Base.{
  ℕ, zero, suc, ◌+◌, ◌*◌, ◌/◌, ◌%◌, ◌^◌, ◌<◌, ◌≤◌, ◌≡◌, ◌≢◌, refl, sym, ◌∙◌, ap, subst, arith, ◌⊎◌,
  inl, inr, true, false, some, List, [], ◌∷◌, ◌++◌, append-nil, All, All-append, length,
  length-append, leb, ltb, ne→==_false,
}
use persist_tree_test.Base.Outcome.{ok, fault}
use persist_tree_test.Node.{Ptr, null}
use persist_tree_test.Towers.{Tower, keys}
use persist_tree_test.MemorySkipList.WellFormed.{IsSkipList}
use persist_tree_test.PersistentSkipList.Insert.{IsNvmList}
use persist_tree_test.WriteBuffer.{
  Key, Batch, State, Config, Worker, outside, pushing, crashed, call_flush, work,
}
use persist_tree_test.WriteBuffer.Runs.{calls, idle, Run}
use persist_tree_test.WriteBuffer.Episodes.{state, silently}
use persist_tree_test.WriteBuffer.Count.{Counted, Counted-mod}
use persist_tree_test.WriteBuffer.InOrder.{
  quiet, flush_some, flush_none, Ordered, insert_all-Ordered,
}
use persist_tree_test.Driver.{Options}
use persist_tree_test.Driver.Dram.{Dram, max_size, dram_loop, write_to_dram}
use persist_tree_test.Driver.Texts.{texts, length-text, length-texts, texts-AllUnlike}
use persist_tree_test.Driver.Buffered.{Holding, texts-append, numbers_low}
use persist_tree_test.Driver.Flushed.{flush_list-empty, flush_list-Holding}
use persist_tree_test.Driver.DramWritten.{IsNew, all_rounds-Holding}

-- The parameters that `main` passes to the write buffer. With room in the mapped file, and a NUL behind
-- each key, `Run` returns for a list with keys (Driver/Flushed.antt).
abbrev pub config : Options → Config
config o = record {
  returns = λ _ _. true;
  key_size = 16;
  max_size = max_size o;
  max_num = o.skiplist_max_num;
}

-- The lists are those of a state of the write buffer in which no other thread has anything to do.
pub record Abstracts (d : Dram) (s : State) : Type 0 where
  pub batch : Batch
  pub ts : List Tower
  pub us : List Tower
  pub nvm_ts : List Tower
  pub nvm_us : List Tower
  pub buffer : IsSkipList d.buffer.list d.buffer.heap ts us
  pub skiplist : s.skiplist ≡ some batch
  pub buffered : Perm (keys (ts ++ us)) batch
  pub nvm : IsNvmList d.nvm nvm_ts nvm_us
  pub stored : Perm (keys (nvm_ts ++ nvm_us)) s.nvm
  pub same_size : d.cur_size ≡ s.cur_size
  pub no_queue : s.queue ≡ []
  pub no_task : s.tasks ≡ 0
  pub at_rest : s.place ≡ outside

texts-All :
    (v i : ℕ) (ns : List ℕ)
    → i + length ns ≤ 10 ^ 8
    → All (λ n. n < 10 ^ 8) ns
    → All (λ k. length k ≡ 16 + v) (texts v i ns)
texts-All v i [] le low = tt
texts-All v i (n ∷ ns) le low =
    (length-text v n i low.0 (omega arith), texts-All v (i + 1) ns (omega arith) low.1)

-- Two lists in parts of the same lengths have the same parts.
same_parts :
    {A : Type 0} (xs xs' ys ys' : List A)
    → xs ++ ys ≡ xs' ++ ys'
    → length xs ≡ length xs'
    → (xs ≡ xs') × (ys ≡ ys')
same_parts [] [] ys ys' e same = (refl, e)
same_parts [] (x' ∷ xs') ys ys' e same = absurd (omega (arith, same))
same_parts (x ∷ xs) [] ys ys' e same = absurd (omega (arith, same))
same_parts (x ∷ xs) (x' ∷ xs') ys ys' e same =
    let (head, rest) = parts x x' (xs ++ ys) (xs' ++ ys') e in
    let (front, back) = same_parts xs xs' ys ys' rest (omega (arith, same)) in
    (rw (head, front) refl, back)
  where
    parts : {A : Type 0} (x x' : A) (zs zs' : List A) → x ∷ zs ≡ x' ∷ zs' → (x ≡ x') × (zs ≡ zs')
    parts x x' zs zs' e = (cc, cc)

-- Counted lists are determined by how many keys there are.
Counted-same :
    {max size cur cur' flushed flushed' waiting waiting' : ℕ}
    → 0 < size
    → Counted max size cur flushed waiting
    → Counted max size cur' flushed' waiting'
    → flushed + waiting ≡ flushed' + waiting'
    → (flushed ≡ flushed') × (cur ≡ cur')
Counted-same {size} {flushed} {flushed'} {waiting} {waiting'} pos c c' e =
    let same : waiting ≡ waiting' =
      sym (Counted-mod (flushed + waiting) pos c refl)
      ∙ Counted-mod (flushed + waiting) pos c' (sym e) in
    (omega (arith, same, e), c.counted ∙ ap (λ k. k * size) same ∙ sym c'.counted)

-- A run of the write buffer in which the keys `to` are inserted leads to the lists, with both threads
-- of the pool without a task.
pub record Follows (c : Config) (to : List Key) (d : Dram) : Type 0 where
  pub s : State
  pub run : Run c [] 2 to s (idle 2)
  pub abstracts : Abstracts d s

pub Holding-Abstracts :
    {fresh : ℕ → Ptr} {v ops left free : ℕ} {d : Dram} {flushed ns : List ℕ}
    → Holding fresh v ops left free d flushed ns
    → Abstracts d (quiet (texts v (1 + length flushed) ns) d.cur_size (texts v 1 flushed))
Holding-Abstracts {v} {flushed} {ns} w = record {
  batch = texts v (1 + length flushed) ns;
  ts = w.ts;
  us = w.us;
  nvm_ts = w.nvm_ts;
  nvm_us = w.nvm_us;
  buffer = w.buffer;
  skiplist = refl;
  buffered = w.buffered;
  nvm = w.nvm;
  stored = w.stored;
  same_size = refl;
  no_queue = refl;
  no_task = refl;
  at_rest = refl;
}

module _ (rest : Ptr → List ℕ) (fresh garbage : ℕ → Ptr) (fuel : ℕ) (o : Options)
    (some_address : (j : ℕ) → fresh j ≢ null) (different : (j k : ℕ) → j ≢ k → fresh j ≢ fresh k)
    (some_ops : 0 < o.ops_num) (few_ops : o.ops_num < 10 ^ 8) (some_value : 0 < o.value_size)
    (small_value : o.value_size ≤ 1024000) (enough : o.ops_num + 1 ≤ fuel)
    (some_num : leb 1 o.skiplist_max_num ≡ true) where
  abbrev ops : ℕ
  ops = o.ops_num

  abbrev v : ℕ
  v = o.value_size

  -- The steps that lead to the lists after the rounds.
  pub rounds-Run :
      (d : Dram) (flushed ns : List ℕ)
      → Holding fresh v ops 0 (2 * (ops + 1)) d flushed ns
      → Counted (max_size o) (16 + v) d.cur_size (length flushed) (length ns)
      → length flushed + length ns ≡ ops
      → Run
          (config o)
          []
          2
          (texts v 1 (flushed ++ ns))
          (quiet (texts v (1 + length flushed) ns) d.cur_size (texts v 1 flushed))
          (idle 2)
  rounds-Run d flushed ns w c total =
      let low : All (λ n. n < 10 ^ 8) (flushed ++ ns) =
        All-append _ flushed ns (numbers_low ops flushed (omega (arith, few_ops)) w.flushed_low)
          (numbers_low ops ns (omega (arith, few_ops)) w.ns_low) in
      let r : Ordered (config o) [] some_num (λ _ _. refl) (16 + v) (omega arith)
          (omega (arith, small_value)) (texts v 1 (flushed ++ ns)) =
        insert_all-Ordered (config o) [] some_num (λ _ _. refl) (16 + v) (omega arith)
          (omega (arith, small_value)) (texts v 1 (flushed ++ ns))
          (texts-All v 1 (flushed ++ ns) (omega (arith, length-append flushed ns, total, few_ops))
            low)
          (omega
            (arith, length-texts v 1 (flushed ++ ns), length-append flushed ns, total, few_ops))
          (texts-AllUnlike v 1 (flushed ++ ns)
            (omega (arith, length-append flushed ns, total, few_ops)) low) in
      let split : r.written ++ r.waiting ≡ texts v 1 flushed ++ texts v (1 + length flushed) ns =
        r.all_keys ∙ texts-append v 1 flushed ns in
      let (same_count, same_cur) = Counted-same (omega arith) r.counts c (
        omega (
          arith,
          ap length r.all_keys,
          length-append r.written r.waiting,
          length-texts v 1 (flushed ++ ns),
          length-append flushed ns,
        )) in
      let (same_written, same_waiting) =
        same_parts r.written (texts v 1 flushed) r.waiting (texts v (1 + length flushed) ns) split
          (same_count ∙ sym (length-texts v 1 flushed)) in
      let to : List Key = texts v 1 (flushed ++ ns) in
      subst (λ ks. Run (config o) [] 2 to (quiet ks d.cur_size (texts v 1 flushed)) (idle 2))
        same_waiting
        (subst (λ n. Run (config o) [] 2 to (quiet r.waiting n (texts v 1 flushed)) (idle 2))
          same_cur
          (subst (λ ks. Run (config o) [] 2 to (quiet r.waiting r.cur_size ks) (idle 2))
            same_written r.run))
