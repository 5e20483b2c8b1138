-- ===== src/WriteBuffer/InOrder.antt =====
-- The interleaving in which a thread of the pool writes each list before the next step of the thread
-- that inserts.
use persist_tree_test.Base.{
  ℕ, suc, ◌+◌, ◌%◌, ◌^◌, ◌<◌, ◌≤◌, ◌≡◌, refl, sym, ◌∙◌, ap, arith, subst, true, false, Bool-cases,
  inl, inr, some, List, [], ◌∷◌, ◌++◌, append-nil, append_assoc, length, length-append, leb, ltb,
  All, All-right, ne→==_false,
}
use persist_tree_test.WriteBuffer.{
  Key, Batch, State, Config, outside, pushing, choosing, Worker, unused, ending, looping, popping,
  notifying, running, no_list, deleted, held, crashed, init, insert, insert_at, has_equal,
  overwrites, flush_step, push, work, pop, run_flush,
}
use persist_tree_test.WriteBuffer.Runs.{inserts, flushes, works, idle, From, Run, start, more}
use persist_tree_test.WriteBuffer.Episodes.{
  state, waits, flushing, silently, choose, take_list, write_batch,
}
use persist_tree_test.WriteBuffer.Count.{Counted, none-Counted, full-Counted, under-Counted}
use persist_tree_test.CString.Rank.{rank}
use persist_tree_test.Towers.Falls.{Unlike, AllUnlike, AllUnlike-left, AllUnlike-right}

-- A key that is unlike those of a list is not written over one of them.
overwrites-unlike :
    (n : ℕ) (key : Key) (seen b : Batch)
    → has_equal n key seen ≡ false
    → AllUnlike n (b ++ (key ∷ []))
    → overwrites n key seen b ≡ false
unfolding has_equal overwrites
overwrites-unlike n key seen [] e a = refl
overwrites-unlike n key seen (l ∷ []) e a =
    let ne : Unlike n l key = a.0.0 in
    rw (ne→==_false (rank n key) (rank n l) (λ e'. ne (sym e')), e) refl
overwrites-unlike n key seen (k ∷ l ∷ b) e a =
    let ne : Unlike n k key = (All-right (Unlike n k) (l ∷ b) (key ∷ []) a.0).0 in
    overwrites-unlike n key (k ∷ seen) (l ∷ b)
      (rw (ne→==_false (rank n key) (rank n k) (λ e'. ne (sym e'))) e) a.1

-- All is quiet: no list in the queue, no task, and no thread of the pool at work.
abbrev pub quiet : (list : Batch) (size : ℕ) (nvm : List Key) → State
quiet list size nvm = state outside (some list) size [] 0 false 0 nvm

module _ (c : Config) (s0 : State) (ws0 : List Worker) (some_num : leb 1 c.max_num ≡ true)
    (returns : (b : Batch) (nvm : List Key) → c.returns b nvm ≡ true) where
  -- `Flush` of a list, up to the test of `is_running_` and the call of a thread.
  take_batch :
      {keys : List Key} (b : Batch) (size : ℕ) (nvm : List Key)
      → From c s0 ws0 keys (state pushing (some b) size [] 0 false 0 nvm) (idle 2)
      → From c s0 ws0 keys (waits (b ∷ []) 1 true 0 nvm) (popping no_list ∷ unused ∷ [])
  unfolding flush_step push
  take_batch {keys} b size nvm r =
      let r1 = silently c s0 ws0 r (flushes refl) in
      let r2 : From c s0 ws0 keys (flushing choosing size (b ∷ []) 1 false 0 nvm) (idle 2) =
        silently c s0 ws0 r1 (flushes (ground (arith, some_num))) in
      let r3 = choose c s0 ws0 (b ∷ []) 1 false 0 size nvm r2 in
      take_list c s0 ws0 [] (unused ∷ []) b [] 1 false 0 nvm r3

  -- `Flush` of a list with a key in it.
  flush_batch :
      {keys : List Key} (key : Key) (rest : Batch) (size : ℕ) (nvm : List Key)
      → From c s0 ws0 keys (state pushing (some (key ∷ rest)) size [] 0 false 0 nvm) (idle 2)
      → From c s0 ws0 keys (quiet [] 0 (nvm ++ (key ∷ rest))) (idle 2)
  unfolding work
  flush_batch key rest size nvm r =
      let one : List Worker = unused ∷ [] in
      let r1 = take_batch (key ∷ rest) size nvm r in
      let r2 =
        write_batch c s0 ws0 [] one no_list key rest outside (some []) 0 true 0 nvm refl
          (returns (key ∷ rest) nvm) r1 in
      let r3 = silently c s0 ws0 r2 (works [] one (looping deleted) ending refl) in
      silently c s0 ws0 r3 (works [] one ending unused refl)

  -- `Flush` of a list without a key.
  pub flush_none :
      {keys : List Key} (size : ℕ) (nvm : List Key)
      → From c s0 ws0 keys (state pushing (some []) size [] 0 false 0 nvm) (idle 2)
      → (s : State) × From c s0 ws0 keys s (running (held []) ∷ unused ∷ [])
        × (s.queue ≡ [])
        × (s.nvm ≡ nvm)
        × (work c (running (held [])) s ≡ crashed)
  unfolding work pop run_flush
  flush_none size nvm r =
      let one : List Worker = unused ∷ [] in
      let r1 = take_batch [] size nvm r in
      let r2 = silently c s0 ws0 r1 (works [] one (popping no_list) (notifying (held [])) refl) in
      let r3 = silently c s0 ws0 r2 (works [] one (notifying (held [])) (running (held [])) refl) in
      (_, r3, refl, refl, refl)

  pub flush_some :
      {keys : List Key} (b : Batch) (size : ℕ) (nvm : List Key)
      → 0 < length b
      → From c s0 ws0 keys (state pushing (some b) size [] 0 false 0 nvm) (idle 2)
      → From c s0 ws0 keys (quiet [] 0 (nvm ++ b)) (idle 2)
  flush_some [] size nvm pos r = absurd (omega arith)
  flush_some (key ∷ rest) size nvm pos r = flush_batch key rest size nvm r

module _ (c : Config) (old : List Key) (some_num : leb 1 c.max_num ≡ true)
    (returns : (b : Batch) (nvm : List Key) → c.returns b nvm ≡ true) where
  -- `Insert` of a key that does not fill the list, and of one that does.
  insert_under :
      {keys : List Key} (key : Key) (b : Batch) (size : ℕ) (nvm : List Key)
      → overwrites c.key_size key [] b ≡ false
      → leb c.max_size ((size + length key) % 2 ^ 64) ≡ false
      → Run c old 2 keys (quiet b size nvm) (idle 2)
      → Run c old 2
          (keys ++ (key ∷ []))
          (quiet (b ++ (key ∷ [])) ((size + length key) % 2 ^ 64) nvm)
          (idle 2)
  unfolding insert insert_at
  insert_under key b size nvm is_new under r =
      let below : ltb ((size + length key) % 2 ^ 64) c.max_size ≡ true = ground (arith, under) in
      more r (inserts key (rw (is_new, below) refl))

  insert_full :
      {keys : List Key} (key : Key) (b : Batch) (size : ℕ) (nvm : List Key)
      → overwrites c.key_size key [] b ≡ false
      → leb c.max_size ((size + length key) % 2 ^ 64) ≡ true
      → Run c old 2 keys (quiet b size nvm) (idle 2)
      → Run c old 2 (keys ++ (key ∷ [])) (quiet [] 0 (nvm ++ (b ++ (key ∷ [])))) (idle 2)
  unfolding insert insert_at
  insert_full {keys} key b size nvm is_new full r =
      let size' : ℕ = (size + length key) % 2 ^ 64 in
      let reached : ltb size' c.max_size ≡ false = ground (arith, full) in
      let r1 : Run c old 2 (keys ++ (key ∷ []))
          (state pushing (some (b ++ (key ∷ []))) size' [] 0 false 0 nvm) (idle 2) =
        more r (inserts key (rw (is_new, reached) refl)) in
      flush_some c (init old) (idle 2) some_num returns (b ++ (key ∷ [])) size' nvm
        (omega (arith, length-append b (key ∷ []))) r1

  module _ (size : ℕ) (some_size : 0 < size) (small_size : size ≤ 2 ^ 21) where
    -- The keys so far are `written` to NVM, or `waiting` in the list in DRAM.
    pub record Ordered (keys : List Key) : Type 0 where
      pub written : List Key
      pub waiting : List Key
      pub cur_size : ℕ
      pub all_keys : written ++ waiting ≡ keys
      pub counts : Counted c.max_size size cur_size (length written) (length waiting)
      pub run : Run c old 2 keys (quiet waiting cur_size (old ++ written)) (idle 2)

    insert_one :
        (keys : List Key) (key : Key)
        → length key ≡ size
        → length keys < 10 ^ 8
        → AllUnlike c.key_size (keys ++ (key ∷ []))
        → Ordered keys
        → Ordered (keys ++ (key ∷ []))
    unfolding has_equal
    insert_one keys key len few unlike o =
        let few' : length o.waiting < 10 ^ 8 =
          omega (arith, few, length-append o.written o.waiting, ap length o.all_keys) in
        let longer : length (o.waiting ++ (key ∷ [])) ≡ suc (length o.waiting) =
          omega (arith, length-append o.waiting (key ∷ [])) in
        let same : o.written ++ (o.waiting ++ (key ∷ [])) ≡ keys ++ (key ∷ []) =
          sym (append_assoc o.written o.waiting (key ∷ []))
          ∙ ap (λ ks. ks ++ (key ∷ [])) o.all_keys in
        let is_new : overwrites c.key_size key [] o.waiting ≡ false =
          overwrites-unlike c.key_size key [] o.waiting refl (
            AllUnlike-right c.key_size o.written (o.waiting ++ (key ∷ []))
              (subst (AllUnlike c.key_size) (sym same) unlike)) in
        elim (Bool-cases (leb c.max_size ((o.cur_size + length key) % 2 ^ 64))) [
          | inl full ↦ record {
            written = o.written ++ (o.waiting ++ (key ∷ []));
            waiting = [];
            cur_size = 0;
            all_keys = append-nil (o.written ++ (o.waiting ++ (key ∷ []))) ∙ same;
            counts =
                subst (λ k. Counted c.max_size size 0 k 0)
                  (omega (arith, longer, length-append o.written (o.waiting ++ (key ∷ []))))
                  (full-Counted c.max_size size some_size small_size o.cur_size (length o.written)
                    (length o.waiting) few' o.counts
                    (subst (λ k. leb c.max_size ((o.cur_size + k) % 2 ^ 64) ≡ true) len full));
            run =
                subst (λ nvm. Run c old 2 (keys ++ (key ∷ [])) (quiet [] 0 nvm) (idle 2))
                  (append_assoc old o.written (o.waiting ++ (key ∷ [])))
                  (insert_full key o.waiting o.cur_size (old ++ o.written) is_new full o.run);
          }
          | inr under ↦ record {
            written = o.written;
            waiting = o.waiting ++ (key ∷ []);
            cur_size = (o.cur_size + length key) % 2 ^ 64;
            all_keys = same;
            counts =
                subst
                  (λ k.
                    Counted c.max_size size ((o.cur_size + length key) % 2 ^ 64) (length o.written)
                      k)
                  (sym longer)
                  (subst
                    (λ k.
                      Counted c.max_size size ((o.cur_size + k) % 2 ^ 64) (length o.written)
                        (suc (length o.waiting)))
                    (sym len)
                    (under-Counted c.max_size size some_size small_size o.cur_size
                      (length o.written) (length o.waiting) few' o.counts
                      (subst (λ k. leb c.max_size ((o.cur_size + k) % 2 ^ 64) ≡ false) len under)));
            run = insert_under key o.waiting o.cur_size (old ++ o.written) is_new under o.run;
          }
        ]

    insert_rest :
        (rest keys : List Key)
        → All (λ key. length key ≡ size) rest
        → length keys + length rest ≤ 10 ^ 8
        → AllUnlike c.key_size (keys ++ rest)
        → Ordered keys
        → Ordered (keys ++ rest)
    insert_rest [] keys a few unlike o = subst Ordered (sym (append-nil keys)) o
    insert_rest (key ∷ rest) keys a few unlike o =
        let unlike' : AllUnlike c.key_size ((keys ++ (key ∷ [])) ++ rest) =
          subst (AllUnlike c.key_size) (sym (append_assoc keys (key ∷ []) rest)) unlike in
        subst Ordered (append_assoc keys (key ∷ []) rest) (
          insert_rest rest (keys ++ (key ∷ [])) a.1
            (omega (arith, few, length-append keys (key ∷ []))) unlike'
            (insert_one keys key a.0 (omega arith)
              (AllUnlike-left c.key_size (keys ++ (key ∷ [])) rest unlike') o))

    -- Different keys of one length, in the interleaving in which each full list is written at once.
    pub insert_all-Ordered :
        (keys : List Key)
        → All (λ key. length key ≡ size) keys
        → length keys ≤ 10 ^ 8
        → AllUnlike c.key_size keys
        → Ordered keys
    unfolding init
    insert_all-Ordered keys a few unlike =
        insert_rest keys [] a (omega (arith, few)) unlike (record {
          written = [];
          waiting = [];
          cur_size = 0;
          all_keys = refl;
          counts = none-Counted c.max_size size some_size small_size;
          run =
              subst (λ nvm. Run c old 2 [] (quiet [] 0 nvm) (idle 2)) (sym (append-nil old)) start;
        })
