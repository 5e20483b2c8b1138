-- ===== src/Driver/Rounds.antt =====
-- The rounds of `write_to_nvm`.
use mathlib.Core.List.Perm
use native.Mathlib.Nat.{mod-lt}
use persist_tree_test.Base.{
  ℕ, zero, suc, ◌+◌, ◌*◌, ◌%◌, ◌^◌, ◌<◌, ◌≤◌, ◌≡◌, ◌≢◌, refl, ◌∙◌, sym, arith, List, [], ◌∷◌, ◌++◌,
  All, length, subst, ne→==_false,
}
use persist_tree_test.Base.Outcome.{ok}
use persist_tree_test.CString.Rank.{IsKey}
use persist_tree_test.Random
use persist_tree_test.Towers.{Tower}
use persist_tree_test.PersistentSkipList.{NvmList, node_size}
use persist_tree_test.PersistentSkipList.Insert.{IsNvmList, insert-InsertedIn}
use persist_tree_test.PersistentSkipList.Lifetime.{
  Filled, Filled-insert, room_after, length-inserted,
}
use persist_tree_test.Driver.{write_loop}
use persist_tree_test.Driver.Texts.{texts, text, length-text, text-IsKey, key_text-text}

-- What one round may need of the mapped file.
abbrev pub round_size : ℕ → ℕ → ℕ
round_size k_max_height value_size = node_size k_max_height + (16 + value_size)

suc_times : (r c : ℕ) → suc r * c ≡ c + r * c
suc_times r c = grind arith

module _ (fuel v ops per_1g : ℕ) (some_ops : 0 < ops) (few_ops : ops ≤ 10 ^ 8)
    (fits : v + 17 < 2 ^ 64) (divides : per_1g ≢ 0) where
  pub write_loop-Filled :
      (rounds i : ℕ) (s : NvmList) (ts us : List Tower)
      → i + rounds ≤ 10 ^ 8
      → IsNvmList s ts us
      → s.list.key_size ≡ 16
      → length (ts ++ us) + rounds < fuel
      → s.allocator.cur_index + rounds * round_size s.list.k_max_height v
        ≤ s.allocator.pmemaddr + s.allocator.mapped_len
      → (s' : NvmList) × (ns : List ℕ) × (write_loop fuel v ops per_1g rounds i s ≡ ok s')
        × (length ns ≡ rounds)
        × All (λ n. n < ops) ns
        × Filled s.list.key_size s' (ts ++ us) (texts v i ns)
  unfolding write_loop
  write_loop-Filled zero i s ts us le w size enough room = (
    s,
    [],
    refl,
    refl,
    tt,
    record {
      ts = ts;
      us = us;
      result = w;
      contents = Perm.refl _;
      grows = omega arith;
      same_size = refl;
    },
  )
  write_loop-Filled (suc rounds) i s ts us le w size enough room =
      let seed : ℕ = (Random.next s.seed).1 in
      let n : ℕ = (Random.next s.seed).0 % ops in
      let small : n < ops = mod-lt (Random.next s.seed).0 some_ops in
      let drawn : NvmList = record s { seed = seed } in
      let wd : IsNvmList drawn ts us = record {
        list = w.list;
        unused = w.unused;
        mapped = w.mapped;
        in_space = w.in_space;
        some_ops = w.some_ops;
      } in
      let key : List ℕ = text v n i in
      let len : length key ≡ 16 + v = length-text v n i (omega arith) (omega arith) in
      let (s1, run, ins) =
        insert-InsertedIn drawn fuel key ts us wd
          (subst (λ m. IsKey m key) (sym size) (text-IsKey v n i (omega arith) (omega arith)))
          (omega arith)
          (omega (arith, room, len, suc_times rounds (round_size s.list.k_max_height v))) in
      let (s', ns, run', length_ns, drawn_ns, done) =
        write_loop-Filled rounds (i + 1) s1 _ ins.after (omega arith) ins.result
          (ins.same_size ∙ size) (omega (arith, length-inserted ins))
          (subst
            (λ max.
              s1.allocator.cur_index + rounds * round_size max v
              ≤ s1.allocator.pmemaddr + s1.allocator.mapped_len)
            (sym ins.same_max)
            (room_after drawn s1 key ts us (rounds * round_size s.list.k_max_height v) ins
              (omega (arith, room, len, suc_times rounds (round_size s.list.k_max_height v))))) in
      (
        s',
        n ∷ ns,
        rw (key_text-text v n i (omega arith) (omega arith) fits, run, ne→==_false per_1g 0 divides)
            run',
        omega (arith, length_ns),
        (small, drawn_ns),
        Filled-insert ins done,
      )
