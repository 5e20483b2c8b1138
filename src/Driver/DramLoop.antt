-- ===== src/Driver/DramLoop.antt =====
-- The rounds of `write_to_dram`.
use native.Mathlib.Nat.{mod-lt}
use persist_tree_test.Base.{
  ℕ, zero, suc, ◌+◌, ◌*◌, ◌%◌, ◌^◌, ◌<◌, ◌≤◌, ◌≡◌, ◌≢◌, refl, sym, ap, true, false, subst, arith,
  inl, inr, Bool-cases, List, [], ◌∷◌, ◌++◌, length, length-append, leb, ne→==_false,
}
use persist_tree_test.Base.Outcome.{ok}
use persist_tree_test.Node.{Ptr, null}
use persist_tree_test.Random
use persist_tree_test.Driver.{Options}
use persist_tree_test.Driver.Dram.{Dram, max_size, insert_key, dram_loop}
use persist_tree_test.WriteBuffer.Count.{Counted, full-Counted, under-Counted}
use persist_tree_test.Driver.Texts.{text, length-text, key_text-text}
use persist_tree_test.Driver.Buffered.{Holding, Holding-later, insert-Holding}
use persist_tree_test.Driver.Flushed.{flush_list-Holding}

renumber :
    {max size cur cur' flushed flushed' waiting waiting' : ℕ}
    → cur ≡ cur'
    → flushed ≡ flushed'
    → waiting ≡ waiting'
    → Counted max size cur flushed waiting
    → Counted max size cur' flushed' waiting'
renumber e f g c = rw (sym e, sym f, sym g) c

module _ (rest : Ptr → List ℕ) (fresh garbage : ℕ → Ptr) (fuel : ℕ) (o : Options)
    (some_address : (j : ℕ) → fresh j ≢ null) (different : (j k : ℕ) → j ≢ k → fresh j ≢ fresh k)
    (some_ops : 0 < o.ops_num) (few_ops : o.ops_num < 10 ^ 8) (small_value : o.value_size ≤ 1024000)
    (enough : o.ops_num + 1 ≤ fuel) where
  abbrev v : ℕ
  v = o.value_size

  fits : v + 17 < 2 ^ 64
  fits = omega (arith, small_value)

  -- What is in DRAM and what has been flushed, by number.
  abbrev pub InLists : Dram → List ℕ → List ℕ → Type 0
  InLists d flushed ns = Counted (max_size o) (16 + v) d.cur_size (length flushed) (length ns)

  abbrev behind : Ptr → List ℕ
  behind p = 0 ∷ rest p

  few : o.ops_num ≤ 10 ^ 8
  few = omega (arith, few_ops)

  -- One round, whether the list is full or not.
  insert_key-Holding :
      (left i n : ℕ) (d : Dram) (flushed ns : List ℕ)
      → Holding fresh v o.ops_num (suc left) (2 * i) d flushed ns
      → InLists d flushed ns
      → n < o.ops_num
      → 1 + length flushed + length ns ≡ i
      → i ≤ o.ops_num
      → (d' : Dram) × (flushed' : List ℕ) × (ns' : List ℕ) × (insert_key behind fresh garbage fuel o
            i
            (text v n i)
            d
          ≡ ok d')
        × Holding fresh v o.ops_num left (2 * (i + 1)) d' flushed' ns'
        × InLists d' flushed' ns'
        × (1 + length flushed' + length ns' ≡ i + 1)
  unfolding insert_key
  insert_key-Holding left i n d flushed ns w c small at le =
      let len : length (text v n i) ≡ 16 + v =
        length-text v n i (omega (arith, small, few_ops)) (omega (arith, le, few_ops)) in
      let waiting : length ns < 10 ^ 8 = omega (arith, at, le, few_ops) in
      let size : ℕ = (d.cur_size + length (text v n i)) % 2 ^ 64 in
      let (s, runs, held) =
        insert-Holding rest fresh garbage fuel o some_address different few left i n size d flushed
          ns w small at (omega (arith, few_ops, le)) (omega (arith, enough, le)) in
      let longer : length (ns ++ (n ∷ [])) ≡ length ns + 1 =
        omega (arith, length-append ns (n ∷ [])) in
      elim (Bool-cases (leb (max_size o) size)) [
        | inl full ↦
            let (d', flushes, held', zero_size) =
              flush_list-Holding rest fresh garbage fuel o some_address different few left
                (2 * i + 1) i (record d { buffer = s; cur_size = size }) flushed (ns ++ (n ∷ []))
                held (omega arith) (omega (arith, longer)) (omega (arith, longer, at, le, few_ops))
                (omega (arith, longer, at, le, enough)) in
            (
              d',
              flushed ++ (ns ++ (n ∷ [])),
              [],
              rw (runs, full) flushes,
              subst (λ j. Holding fresh v o.ops_num left j d' (flushed ++ (ns ++ (n ∷ []))) [])
                  (omega arith) held',
              renumber (sym zero_size)
                  (omega (arith, length-append flushed (ns ++ (n ∷ [])), longer)) refl
                  (full-Counted (max_size o) (16 + v) (omega arith) (omega (arith, small_value))
                    d.cur_size (length flushed) (length ns) waiting c
                    (subst (λ k. leb (max_size o) ((d.cur_size + k) % 2 ^ 64) ≡ true) len full)),
              omega (arith, length-append flushed (ns ++ (n ∷ [])), longer, at),
            )
        | inr not_full ↦ (
          record d { buffer = s; cur_size = size },
          flushed,
          ns ++ (n ∷ []),
          rw (runs, not_full) refl,
          Holding-later s.seed (omega arith) held,
          renumber (ap (λ k. (d.cur_size + k) % 2 ^ 64) (sym len)) refl (omega (arith, longer)) (
              under-Counted (max_size o) (16 + v) (omega arith) (omega (arith, small_value))
                d.cur_size (length flushed) (length ns) waiting c
                (subst (λ k. leb (max_size o) ((d.cur_size + k) % 2 ^ 64) ≡ false) len not_full)),
          omega (arith, longer, at),
        )
      ]

  pub dram_loop-Holding :
      (per_1g rounds i : ℕ) (d : Dram) (flushed ns : List ℕ)
      → per_1g ≢ 0
      → Holding fresh v o.ops_num rounds (2 * i) d flushed ns
      → InLists d flushed ns
      → 1 + length flushed + length ns ≡ i
      → i + rounds ≡ o.ops_num + 1
      → (d' : Dram) × (flushed' : List ℕ) × (ns' : List ℕ) × (dram_loop behind fresh garbage fuel o
            per_1g rounds i d
          ≡ ok d')
        × Holding fresh v o.ops_num 0 (2 * (o.ops_num + 1)) d' flushed' ns'
        × InLists d' flushed' ns'
        × (length flushed' + length ns' ≡ o.ops_num)
  unfolding dram_loop
  dram_loop-Holding per_1g zero i d flushed ns ne w c at total = (
    d,
    flushed,
    ns,
    refl,
    Holding-later d.buffer.seed (omega (arith, total)) w,
    c,
    omega (arith, at, total),
  )
  dram_loop-Holding per_1g (suc rounds) i d flushed ns ne w c at total =
      let seed : ℕ = (Random.next d.buffer.seed).1 in
      let n : ℕ = (Random.next d.buffer.seed).0 % o.ops_num in
      let small : n < o.ops_num = mod-lt (Random.next d.buffer.seed).0 some_ops in
      let drawn : Dram = record d { buffer = record d.buffer { seed = seed } } in
      let (d1, flushed1, ns1, runs, held, c1, at1) =
        insert_key-Holding rounds i n drawn flushed ns (Holding-later seed (omega arith) w) c small
          at (omega (arith, total)) in
      let (d', flushed', ns', runs', held', c', total') =
        dram_loop-Holding per_1g rounds (i + 1) d1 flushed1 ns1 ne held c1 at1
          (omega (arith, total)) in
      (
        d',
        flushed',
        ns',
        rw
            (
              key_text-text v n i (omega (arith, small, few_ops)) (omega (arith, total, few_ops))
                  fits,
              runs,
              ne→==_false per_1g 0 ne,
            )
            runs',
        held',
        c',
        total',
      )
