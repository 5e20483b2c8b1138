-- ===== src/Driver/Schedule/Last.antt =====
-- The rounds of `write_to_dram` and its last `Flush` against the steps of the write buffer.
use persist_tree_test.Base.{
  ℕ, ◌+◌, ◌*◌, ◌/◌, ◌^◌, ◌<◌, ◌≤◌, ◌≡◌, ◌≢◌, refl, sym, subst, arith, ◌⊎◌, inl, inr, true, false,
  some, List, [], ◌∷◌, ◌++◌, length, length-append, leb, ne→==_false,
}
use persist_tree_test.Base.Outcome.{ok, fault}
use persist_tree_test.Node.{Ptr, null}
use persist_tree_test.WriteBuffer.{
  Key, Batch, State, Config, pushing, unused, running, held, crashed, call_flush, work,
}
use persist_tree_test.WriteBuffer.Runs.{calls, idle, From, start}
use persist_tree_test.WriteBuffer.Episodes.{state, silently}
use persist_tree_test.WriteBuffer.InOrder.{quiet, flush_some, flush_none}
use persist_tree_test.Driver.{Options}
use persist_tree_test.Driver.Dram.{Dram, dram_loop, write_to_dram}
use persist_tree_test.Driver.Texts.{texts, length-texts}
use persist_tree_test.Driver.Buffered.{Holding, texts-append}
use persist_tree_test.Driver.Flushed.{flush_list-empty, flush_list-Holding}
use persist_tree_test.Driver.DramWritten.{IsNew, all_rounds-Holding}
use persist_tree_test.Driver.Schedule.{config, Abstracts, Follows, rounds-Run, Holding-Abstracts}

-- The last `Flush` goes on from the state `s` in which the rounds have left the write buffer, without
-- another key, to lists that are those of `d`.
pub record Flushes (c : Config) (s : State) (d : Dram) : Type 0 where
  pub end : State
  pub run : From c s (idle 2) [] end (idle 2)
  pub abstracts : Abstracts d end

-- It goes on from `s`, without another key, to a state in which a thread of the pool is about to call
-- `Run` on a list with no key in it, which fails, with nothing written to NVM.
pub record Fails (c : Config) (s : State) : Type 0 where
  pub end : State
  pub run : From c s (idle 2) [] end (running (held []) ∷ unused ∷ [])
  pub no_queue : end.queue ≡ []
  pub same_nvm : end.nvm ≡ s.nvm
  pub fails : work c (running (held [])) end ≡ crashed

-- A call of `Flush` from outside.
called :
    {c : Config} (b : Batch) (size : ℕ) (nvm : List Key)
    → From c (quiet b size nvm) (idle 2) [] (state pushing (some b) size [] 0 false 0 nvm) (idle 2)
unfolding call_flush
called {c} b size nvm = silently c (quiet b size nvm) (idle 2) start (calls refl)

module _ (rest : Ptr → List ℕ) (fresh garbage : ℕ → Ptr) (fuel : ℕ) (o : Options)
    (some_address : (j : ℕ) → fresh j ≢ null) (different : (j k : ℕ) → j ≢ k → fresh j ≢ fresh k)
    (some_ops : 0 < o.ops_num) (few_ops : o.ops_num < 10 ^ 8) (some_value : 0 < o.value_size)
    (small_value : o.value_size ≤ 1024000) (enough : o.ops_num + 1 ≤ fuel)
    (some_num : leb 1 o.skiplist_max_num ≡ true) where
  abbrev ops : ℕ
  ops = o.ops_num

  abbrev v : ℕ
  v = o.value_size

  abbrev behind : Ptr → List ℕ
  behind p = 0 ∷ rest p

  -- The last `Flush` succeeds in both, or fails in both.
  pub Matches : Dram → State → Type 0
  Matches d s =
      ((d' : Dram) × (write_to_dram behind fresh garbage fuel o d ≡ ok d')
        × Flushes (config o) s d')
      ⊎ ((write_to_dram behind fresh garbage fuel o d ≡ fault) × Fails (config o) s)

  last-Matches :
      (d d' : Dram) (flushed ns : List ℕ)
      → dram_loop behind fresh garbage fuel o ((1024 * 1000) / v * 1000) ops 1 d ≡ ok d'
      → Holding fresh v ops 0 (2 * (ops + 1)) d' flushed ns
      → length flushed + length ns ≡ ops
      → Matches d (quiet (texts v (1 + length flushed) ns) d'.cur_size (texts v 1 flushed))
  unfolding write_to_dram Matches
  last-Matches d d' flushed [] runs holds total =
      let nvm : List Key = texts v 1 flushed in
      let from : State = quiet [] d'.cur_size nvm in
      let (end, run, no_queue, same_nvm, fails) =
        flush_none (config o) from (idle 2) some_num (λ _ _. refl) d'.cur_size nvm
          (called [] d'.cur_size nvm) in
      inr (
        rw (ne→==_false v 0 (omega (arith, some_value)), runs)
            (flush_list-empty rest fresh garbage fuel o some_address different
              (omega (arith, few_ops)) 0 _ (ops + 1) d' flushed holds),
        record { end = end; run = run; no_queue = no_queue; same_nvm = same_nvm; fails = fails },
      )
  last-Matches d d' flushed (n ∷ ns) runs holds total =
      let (e, flushes, held', no_size) =
        flush_list-Holding rest fresh garbage fuel o some_address different (omega (arith, few_ops))
          0 _ (ops + 1) d' flushed (n ∷ ns) holds (omega arith) (omega arith)
          (omega (arith, total, few_ops)) (omega (arith, total, enough)) in
      let left : List Key = texts v (1 + length flushed) (n ∷ ns) in
      let nvm : List Key = texts v 1 flushed in
      let from : State = quiet left d'.cur_size nvm in
      let run =
        flush_some (config o) from (idle 2) some_num (λ _ _. refl) left d'.cur_size nvm
          (omega (arith, length-texts v (1 + length flushed) (n ∷ ns)))
          (called left d'.cur_size nvm) in
      inl (
        e,
        rw (ne→==_false v 0 (omega (arith, some_value)), runs) flushes,
        record {
          end = quiet [] e.cur_size (texts v 1 (flushed ++ (n ∷ ns)));
          run =
              subst
                (λ k.
                  From (config o) from (idle 2) [] (quiet [] k (texts v 1 (flushed ++ (n ∷ ns))))
                    (idle 2))
                (sym no_size)
                (subst (λ ks. From (config o) from (idle 2) [] (quiet [] 0 ks) (idle 2))
                  (sym (texts-append v 1 flushed (n ∷ ns))) run);
          abstracts = Holding-Abstracts held';
        },
      )

  pub rounds-Follows :
      (d : Dram)
      → IsNew fresh v ops d
      → (d' : Dram) × (ns : List ℕ) × (length ns ≡ ops)
        × (dram_loop behind fresh garbage fuel o ((1024 * 1000) / v * 1000) ops 1 d ≡ ok d')
        × (f : Follows (config o) (texts v 1 ns) d') × Matches d f.s
  rounds-Follows d new =
      let (d', flushed, ns, runs, holds, counts, total) =
        all_rounds-Holding rest fresh garbage fuel o some_address different some_ops few_ops
          some_value small_value enough d new in
      let r =
        rounds-Run rest fresh garbage fuel o some_address different some_ops few_ops some_value
          small_value enough some_num d' flushed ns holds counts total in
      (
        d',
        flushed ++ ns,
        omega (arith, length-append flushed ns, total),
        runs,
        record { s = _; run = r; abstracts = Holding-Abstracts holds },
        last-Matches d d' flushed ns runs holds total,
      )

-- From an empty list in DRAM and an empty list in NVM, both for keys of sixteen bytes, with an
-- `ops_num` from 1 to 10^8 - 1, a `value_size` from 1 to 1024000, a `skiplist_max_num` of at least
-- 1, a NUL in memory behind each key in DRAM, addresses that are not NULL, different and unused,
-- nothing but the head of the list in DRAM in memory, no error printed before, and with enough fuel
-- and room in the file, what `write_to_dram` leaves is what a run of the write buffer with a pool of
-- two threads leaves. After the rounds, the lists in DRAM and in NVM hold, up to their order, what the
-- lists of a state hold that a run leads to which inserts the keys of the rounds, with the same size
-- so far, an empty queue and no thread at work. From this state, without another key, either the
-- last `Flush` succeeds, and steps lead to a state that holds, in the same sense, what it leaves; or
-- it fails, and steps lead to a state in which a thread of the pool is about to call `Run` on a list
-- with no key in it, which fails, with the queue empty and nothing more written to NVM.
pub write_to_dram-Follows :
    (rest : Ptr → List ℕ) (fresh garbage : ℕ → Ptr) (fuel : ℕ) (o : Options) (d : Dram)
    → ((j : ℕ) → fresh j ≢ null)
    → ((j k : ℕ) → j ≢ k → fresh j ≢ fresh k)
    → 0 < o.ops_num
    → o.ops_num < 10 ^ 8
    → 0 < o.value_size
    → o.value_size ≤ 1024000
    → o.ops_num + 1 ≤ fuel
    → 0 < o.skiplist_max_num
    → IsNew fresh o.value_size o.ops_num d
    → (d1 : Dram) × (ns : List ℕ) × (length ns ≡ o.ops_num)
      × (dram_loop
            (λ p. 0 ∷ rest p)
            fresh
            garbage
            fuel
            o
            ((1024 * 1000) / o.value_size * 1000)
            o.ops_num
            1
            d
          ≡ ok d1)
      × (f : Follows (config o) (texts o.value_size 1 ns) d1) × (((d2 : Dram) × (write_to_dram
                (λ p. 0 ∷ rest p)
                fresh
                garbage
                fuel
                o
                d
              ≡ ok d2)
            × Flushes (config o) f.s d2)
          ⊎ ((write_to_dram (λ p. 0 ∷ rest p) fresh garbage fuel o d ≡ fault)
              × Fails (config o) f.s))
unfolding Matches
write_to_dram-Follows rest fresh garbage fuel o d some_address different some_ops few_ops some_value
      small_value enough some_num new =
    rounds-Follows rest fresh garbage fuel o some_address different some_ops few_ops some_value
      small_value enough (ground (arith, some_num)) d new
