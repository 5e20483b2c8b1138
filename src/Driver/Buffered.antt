-- ===== src/Driver/Buffered.antt =====
-- What the list in DRAM and the list in NVM hold between two rounds of `write_to_dram`.
use mathlib.Core.List.{Perm, perm_middle}
use mathlib.Core.List.Perm
use persist_tree_test.Base.{
  ℕ, suc, ◌+◌, ◌*◌, ◌^◌, ◌<◌, ◌≤◌, ◌≡◌, ◌≢◌, refl, ◌∙◌, ap, sym, subst, arith, none, inl, inr, List,
  [], ◌∷◌, ◌++◌, append-nil, All, All-append, All-map, map, length, length-append,
}
use persist_tree_test.Base.Outcome.{ok}
use persist_tree_test.CString.Rank.{IsKey, rank}
use persist_tree_test.Node.{Ptr, null}
use persist_tree_test.Towers.{Tower, keys}
use persist_tree_test.Towers.Falls.{perm-All}
use persist_tree_test.MemorySkipList.{State, insert}
use persist_tree_test.MemorySkipList.WellFormed.{IsSkipList, AtFinger}
use persist_tree_test.MemorySkipList.Steps.{tower}
use persist_tree_test.MemorySkipList.Equal.{insert-InsertedAt}
use persist_tree_test.MemorySkipList.Owned.{IsOwned, insert-IsOwned}
use persist_tree_test.MemorySkipList.Fill.{inserted-perm, length-insert, not_AtFinger}
use persist_tree_test.PersistentSkipList.Insert.{IsNvmList}
use persist_tree_test.PersistentSkipList.Lifetime.{need_all}
use persist_tree_test.FlushNvm.Keys.{read_as, room_for}
use persist_tree_test.Routes.{IsText, no_junk, room_each}
use persist_tree_test.Driver.{Options}
use persist_tree_test.Driver.Dram.{Dram}
use persist_tree_test.Driver.Texts.{text, texts, length-text, text-no_nul, text-IsKey, text-Unlike}

pub texts-append :
    (v i : ℕ) (ns ms : List ℕ) → texts v i (ns ++ ms) ≡ texts v i ns ++ texts v (i + length ns) ms
texts-append v i [] ms = ap (λ j. texts v j ms) (omega arith)
texts-append v i (n ∷ ns) ms =
    ap (◌∷◌ (text v n i))
      (texts-append v (i + 1) ns ms ∙ ap (λ j. texts v (i + 1) ns ++ texts v j ms) (omega arith))

pub texts-IsText :
    (v i : ℕ) (ns : List ℕ)
    → i + length ns ≤ 10 ^ 8
    → All (λ n. n < 10 ^ 8) ns
    → All (IsText (16 + v)) (texts v i ns)
texts-IsText v i [] le low = tt
texts-IsText v i (n ∷ ns) le low =
    let len = length-text v n i low.0 (omega arith) in
    (
      (omega (arith, len), omega (arith, len), text-no_nul v n i low.0 (omega arith)),
      texts-IsText v (i + 1) ns (omega arith) low.1,
    )

-- The keys of earlier rounds have other ranks.
earlier-Unlike :
    (v n i a : ℕ) (ns : List ℕ)
    → n < 10 ^ 8
    → i < 10 ^ 8
    → a + length ns ≤ i
    → All (λ m. m < 10 ^ 8) ns
    → All (λ k. rank 16 k ≢ rank 16 (text v n i)) (texts v a ns)
earlier-Unlike v n i a [] hn hi le low = tt
earlier-Unlike v n i a (m ∷ ns) hn hi le low = (
  text-Unlike v m a n i low.0 (omega arith) hn hi (omega arith),
  earlier-Unlike v n i (a + 1) ns hn hi (omega arith) low.1,
)

behind_all : (ks : List (List ℕ)) (k : List ℕ) → Perm (k ∷ ks) (ks ++ (k ∷ []))
behind_all ks k =
    Perm.symm (subst (λ js. Perm (ks ++ (k ∷ [])) (k ∷ js)) (append-nil ks) (perm_middle ks []))

pub need_all-read_as :
    (max : ℕ) (zs : List Tower) → need_all max (map (read_as no_junk) zs) ≡ room_for no_junk max zs
need_all-read_as max [] = refl
need_all-read_as max (t ∷ zs) = omega (arith, need_all-read_as max zs)

-- The numbers of the rounds so far are `flushed`, whose keys are in NVM, and then `ns`, whose keys are
-- in DRAM. There is room in the file for these and for `left` rounds more, and the addresses from
-- `free` on are unused.
pub record Holding (fresh : ℕ → Ptr) (v ops left free : ℕ) (d : Dram) (flushed ns : List ℕ)
    : Type 0 where
  pub ts : List Tower
  pub us : List Tower
  pub buffer : IsSkipList d.buffer.list d.buffer.heap ts us
  pub buffer_size : d.buffer.list.key_size ≡ 16
  pub buffered : Perm (keys (ts ++ us)) (texts v (1 + length flushed) ns)
  pub buffer_count : length (ts ++ us) ≡ length ns
  pub nvm_ts : List Tower
  pub nvm_us : List Tower
  pub nvm : IsNvmList d.nvm nvm_ts nvm_us
  pub nvm_size : d.nvm.list.key_size ≡ 16
  pub stored : Perm (keys (nvm_ts ++ nvm_us)) (texts v 1 flushed)
  pub nvm_count : length (nvm_ts ++ nvm_us) ≡ length flushed
  pub flushed_low : All (λ n. n < ops) flushed
  pub ns_low : All (λ n. n < ops) ns
  pub room :
      d.nvm.allocator.cur_index + (left + length ns) * room_each d.nvm.list.k_max_height (16 + v)
      ≤ d.nvm.allocator.pmemaddr + d.nvm.allocator.mapped_len
  pub unused : (j : ℕ) → free ≤ j → d.buffer.heap (fresh j) ≡ none
  pub owned : IsOwned d.buffer.list.head d.buffer.heap (ts ++ us)
  pub silent : d.errors ≡ 0

-- Neither the seed nor unused addresses matter.
pub Holding-later :
    {fresh : ℕ → Ptr} {w ops left free free' : ℕ} {d : Dram} {flushed ns : List ℕ} (seed : ℕ)
    → free ≤ free'
    → Holding fresh w ops left free d flushed ns
    → Holding fresh w ops left free'
        (record d { buffer = record d.buffer { seed = seed } })
        flushed
        ns
Holding-later seed le h = record {
  ts = h.ts;
  us = h.us;
  buffer = h.buffer;
  buffer_size = h.buffer_size;
  buffered = h.buffered;
  buffer_count = h.buffer_count;
  nvm_ts = h.nvm_ts;
  nvm_us = h.nvm_us;
  nvm = h.nvm;
  nvm_size = h.nvm_size;
  stored = h.stored;
  nvm_count = h.nvm_count;
  flushed_low = h.flushed_low;
  ns_low = h.ns_low;
  room = h.room;
  unused = λ j from. h.unused j (omega arith);
  owned = h.owned;
  silent = h.silent;
}

pub numbers_low :
    (ops : ℕ) (ns : List ℕ) → ops ≤ 10 ^ 8 → All (λ n. n < ops) ns → All (λ n. n < 10 ^ 8) ns
numbers_low ops ns few a = All-map _ _ (λ n lt. omega (arith, lt, few)) ns a

module _ (rest : Ptr → List ℕ) (fresh garbage : ℕ → Ptr) (fuel : ℕ) (o : Options)
    (some_address : (j : ℕ) → fresh j ≢ null) (different : (j k : ℕ) → j ≢ k → fresh j ≢ fresh k)
    (few_ops : o.ops_num ≤ 10 ^ 8) where
  abbrev v : ℕ
  v = o.value_size

  -- The insertion of the key of a round in the list in DRAM.
  pub insert-Holding :
      (left i n cur_size : ℕ) (d : Dram) (flushed ns : List ℕ)
      → Holding fresh v o.ops_num (suc left) (2 * i) d flushed ns
      → n < o.ops_num
      → 1 + length flushed + length ns ≡ i
      → i < 10 ^ 8
      → i ≤ fuel
      → (s : State) × (insert d.buffer fuel (fresh (2 * i)) (text v n i) ≡ ok s)
        × Holding fresh v o.ops_num left
            (2 * i + 1)
            (record d { buffer = s; cur_size = cur_size })
            flushed
            (ns ++ (n ∷ []))
  insert-Holding left i n cur_size d flushed ns w small at few enough =
      let key : List ℕ = text v n i in
      let low : n < 10 ^ 8 = omega (arith, small, few_ops) in
      let zs : List Tower = w.ts ++ w.us in
      let old : List (List ℕ) = texts v (1 + length flushed) ns in
      let shape : texts v (1 + length flushed) (ns ++ (n ∷ [])) ≡ old ++ (key ∷ []) =
        texts-append v (1 + length flushed) ns (n ∷ []) ∙ ap (λ j. old ++ (text v n j ∷ [])) at in
      let other : All (λ t. rank 16 t.key ≢ rank 16 key) zs =
        perm-All (λ k. hlevel) zs old w.buffered
          (earlier-Unlike v n i (1 + length flushed) ns low few (omega (arith, at))
            (numbers_low o.ops_num ns few_ops w.ns_low)) in
      elim (insert-InsertedAt d.buffer fuel (fresh (2 * i)) key w.ts w.us w.buffer
        (subst (λ m. IsKey m key) (sym w.buffer_size) (text-IsKey v n i low few))
        (omega (arith, w.buffer_count, at, enough)) (some_address (2 * i))
        (w.unused (2 * i) (omega arith))) [
          | inr (_, finger) ↦ absurd (
              not_AtFinger 16 (rank 16 key) w.ts w.us other
                (subst (λ m. AtFinger m (rank m key) w.ts w.us) w.buffer_size finger))
          | inl (s, runs, ins) ↦ (
            s,
            runs,
            record {
              ts = ins.before ++ (tower (fresh (2 * i)) key ins.height ∷ []);
              us = ins.after;
              buffer = ins.result;
              buffer_size = ins.same_size ∙ w.buffer_size;
              buffered = subst (Perm _) (sym shape) (
                  Perm.trans
                    (inserted-perm ins.before ins.after zs (tower (fresh (2 * i)) key ins.height)
                      ins.same)
                    (Perm.trans (Perm.cons key w.buffered) (behind_all old key)));
              buffer_count = omega (
                arith,
                length-insert ins.before ins.after (tower (fresh (2 * i)) key ins.height),
                ap length ins.same,
                w.buffer_count,
                length-append ns (n ∷ []),
              );
              nvm_ts = w.nvm_ts;
              nvm_us = w.nvm_us;
              nvm = w.nvm;
              nvm_size = w.nvm_size;
              stored = w.stored;
              nvm_count = w.nvm_count;
              flushed_low = w.flushed_low;
              ns_low = All-append _ ns (n ∷ []) w.ns_low (small, tt);
              room =
                  subst
                    (λ k.
                      d.nvm.allocator.cur_index + k * room_each d.nvm.list.k_max_height (16 + v)
                      ≤ d.nvm.allocator.pmemaddr + d.nvm.allocator.mapped_len)
                    (omega (arith, length-append ns (n ∷ []))) w.room;
              unused = λ j le.
                  ins.untouched (fresh j) (different j (2 * i) (omega arith))
                    (w.unused j (omega arith));
              owned = insert-IsOwned ins w.owned;
              silent = w.silent;
            },
          )
        ]
