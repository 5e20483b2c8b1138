-- ===== src/PersistentSkipList/Lifetime.antt =====
-- The constructor of `Persistent_SkipList`, and runs of `Insert`, as the driver makes them.
use persist_tree_test.Base.{
  ℕ, suc, ◌+◌, ◌*◌, ◌/◌, ◌%◌, ◌^◌, ◌<◌, ◌≤◌, ◌≡◌, ◌≢◌, refl, ◌∙◌, sym, ap, arith, none, List, [],
  ◌∷◌, ◌++◌, All, subst, length, ne→==_false, le→ltb_false,
}
use mathlib.Core.List.{Perm, perm_middle}
use mathlib.Core.List.Perm
use persist_tree_test.Base.Outcome.{Outcome, ok, ◌>>=◌}
use persist_tree_test.CString.Rank.{IsKey}
use persist_tree_test.Node.{Ptr, null}
use persist_tree_test.Node.Laws.{Stored, allocate-Stored}
use persist_tree_test.Towers.{keys, Tower}
use persist_tree_test.Towers.Chain.{stop}
use persist_tree_test.Random.{k_max_next}
use persist_tree_test.MemorySkipList.Steps.{tower}
use persist_tree_test.MemorySkipList.Lifetime.{init_loop-Started}
use persist_tree_test.MemorySkipList.Fill.{inserted-perm, length-insert}
use persist_tree_test.PersistentAllocator.{Allocator, bump}
use persist_tree_test.PersistentSkipList.{NvmList, node_size, insert, init}
use persist_tree_test.PersistentSkipList.Insert.{
  IsNvmList, InsertedIn, insert-InsertedIn, need, new_node-ok,
}

-- On a mapped file that ends below 2^64 with room for the head, its key and `prev_`, and for a gigabyte of at least one
-- operation, a height from 1 to 2^16 - 1 and a branching factor that is not 0 modulo 2^16, the
-- constructor succeeds with a well-formed empty list of the given key size and height; the cursor
-- of the allocator has moved by these three blocks, and the mapping is the same.
pub init-IsNvmList :
    (a : Allocator) (garbage : ℕ → Ptr)
    (max_height branching_factor key_size opt_num per_1g_num seed : ℕ)
    → 0 < a.cur_index
    → a.cur_index + (node_size max_height + 1 + 8 * max_height) ≤ a.pmemaddr + a.mapped_len
    → a.pmemaddr + a.mapped_len < 2 ^ 64
    → 0 < max_height
    → max_height < 2 ^ 16
    → 0 < branching_factor % 2 ^ 16
    → 0 < per_1g_num
    → (s : NvmList) × (init a garbage max_height branching_factor key_size opt_num per_1g_num seed
        ≡ ok s)
      × IsNvmList s [] []
      × (s.list.key_size ≡ key_size)
      × (s.list.k_max_height ≡ max_height)
      × (s.allocator
          ≡ record a { cur_index = a.cur_index + (node_size max_height + 1 + 8 * max_height) })
unfolding init bump
init-IsNvmList a garbage max_height branching_factor key_size opt_num per_1g_num seed mapped room
      space pos small divides some_ops =
    let head : Ptr = a.cur_index in
    let ne : head ≢ null = omega (arith, mapped) in
    let (h1, run1, s, same) = allocate-Stored head (b' ' ∷ []) max_height (λ _. none) ne in
    let e : max_height % 2 ^ 16 ≡ max_height = omega arith in
    let (prev, h2, run2, s', st) =
      init_loop-Started head (b' ' ∷ []) max_height (max_height % 2 ^ 16) 0 garbage h1 s
        (omega arith) in
    let node = new_node-ok a (b' ' ∷ []) max_height (λ _. none) (omega (arith, room)) space run1 in
    let cursor : ℕ = a.cur_index + node_size max_height + 1 + 8 * (max_height % 2 ^ 16) in
    let no_wrap : cursor % 2 ^ 64 ≡ cursor = omega (arith, e, room, space) in
    let s'' : NvmList = record {
      list = record {
        head = head;
        prev = prev;
        prev_height = 1;
        k_max_height = max_height % 2 ^ 16;
        k_branching = branching_factor % 2 ^ 16;
        k_scaled_inverse_branching = (k_max_next + 1) % 2 ^ 32 / (branching_factor % 2 ^ 16);
        key_size = key_size;
        max_height = 1;
      };
      counters = record {
        cnt_time = 0;
        all_cnt = 0;
        head_cnt = 0;
        suit_cnt = 0;
        opt_num = opt_num;
        opt_1g_num = 0;
        per_1g_num = per_1g_num;
      };
      allocator = record a { cur_index = cursor };
      heap = h2;
      seed = seed;
    } in
    (
      s'',
      rw
          (
            ne→==_false (branching_factor % 2 ^ 16) 0 (omega arith),
            node,
            no_wrap,
            le→ltb_false (a.pmemaddr + a.mapped_len) cursor (omega (arith, room)),
            run2,
          )
          refl,
      record {
        list = record {
          linked = record {
            head_stored = subst (Stored h2 head (b' ' ∷ [])) (sym e) s';
            holds = tt;
            tall = tt;
            low = tt;
            some_level = omega arith;
            levels = omega arith;
            small = omega arith;
            chains = λ i lt. stop (st.slots i (omega arith) (omega arith)).0;
            apart = tt;
            distinct = tt;
            ascending = tt;
          };
          fingers = λ i lt. (st.slots i (omega arith) (omega arith)).1;
        };
        unused = λ r le. st.elsewhere r (omega (arith, le)) ∙ same r (omega (arith, le));
        mapped = omega (arith, mapped);
        in_space = space;
        some_ops = some_ops;
      },
      refl,
      e,
      ap (λ c. record a { cur_index = c }) (omega (arith, e)),
    )

-- A run of `Insert` calls.
pub insert_keys : NvmList → ℕ → List (List ℕ) → Outcome NvmList
insert_keys s fuel [] = ok s
insert_keys s fuel (key ∷ ks) = do s' ← insert s fuel key; insert_keys s' fuel ks

-- What the run may need of the mapped file.
abbrev pub need_all : ℕ → List (List ℕ) → ℕ
need_all max [] = 0
need_all max (key ∷ ks) = node_size max + length key + need_all max ks

-- What a run of insertions leads to; `n` is the size of the keys.
pub record Filled (n : ℕ) (s' : NvmList) (zs : List Tower) (ks : List (List ℕ)) : Type 0 where
  pub ts : List Tower
  pub us : List Tower
  pub result : IsNvmList s' ts us
  pub contents : Perm (keys (ts ++ us)) (ks ++ keys zs)
  pub grows : length (ts ++ us) ≡ length zs + length ks
  pub same_size : s'.list.key_size ≡ n

-- The list has one node more after one insertion.
pub length-inserted :
    {s s1 : NvmList} {key : List ℕ} {ts us : List Tower} (i : InsertedIn s s1 key ts us)
    → length ((i.before ++ (tower s.allocator.cur_index key i.height ∷ [])) ++ i.after)
      ≡ suc (length (ts ++ us))
length-inserted {s} {key} i =
    length-insert i.before i.after (tower s.allocator.cur_index key i.height)
    ∙ ap (λ zs. suc (length zs)) i.same

-- One insertion, and then a run.
pub Filled-insert :
    {s s1 s' : NvmList} {key : List ℕ} {ks : List (List ℕ)} {ts us : List Tower}
    (i : InsertedIn s s1 key ts us)
    → Filled s1.list.key_size s'
        ((i.before ++ (tower s.allocator.cur_index key i.height ∷ [])) ++ i.after)
        ks
    → Filled s.list.key_size s' (ts ++ us) (key ∷ ks)
Filled-insert {s} {key} {ks} {ts} {us} i done = record {
  ts = done.ts;
  us = done.us;
  result = done.result;
  contents = Perm.trans done.contents (
      Perm.trans
        (Perm.append_left ks (
          inserted-perm i.before i.after (ts ++ us) (tower s.allocator.cur_index key i.height)
            i.same))
        (perm_middle ks (keys (ts ++ us))));
  grows = omega (arith, done.grows, length-inserted i);
  same_size = done.same_size ∙ i.same_size;
}

-- What is left of the file after one insertion.
pub room_after :
    (s s1 : NvmList) (key : List ℕ) (ts us : List Tower) (rest : ℕ)
    → InsertedIn s s1 key ts us
    → s.allocator.cur_index + (need s.list key + rest)
      ≤ s.allocator.pmemaddr + s.allocator.mapped_len
    → s1.allocator.cur_index + rest ≤ s1.allocator.pmemaddr + s1.allocator.mapped_len
room_after s s1 key ts us rest i le = omega (arith, i.moved, i.same_file, i.fits)

-- On a well-formed list, with enough fuel and room in the file for nodes of the full height and for
-- the keys, valid keys inserted in any order, equal ones among them, end up in one ascending list,
-- whose keys are a permutation of the old keys and of these.
pub insert_keys-Filled :
    (fuel : ℕ) (ks : List (List ℕ)) (s : NvmList) (ts us : List Tower)
    → IsNvmList s ts us
    → length (ts ++ us) + length ks < fuel
    → All (IsKey s.list.key_size) ks
    → s.allocator.cur_index + need_all s.list.k_max_height ks
      ≤ s.allocator.pmemaddr + s.allocator.mapped_len
    → (s' : NvmList) × (insert_keys s fuel ks ≡ ok s') × Filled s.list.key_size s' (ts ++ us) ks
unfolding insert_keys
insert_keys-Filled fuel [] s ts us w lt ik room = (
  s,
  refl,
  record {
    ts = ts;
    us = us;
    result = w;
    contents = Perm.refl _;
    grows = omega arith;
    same_size = refl;
  },
)
insert_keys-Filled fuel (key ∷ ks) s ts us w lt ik room =
    let (s1, run, i) =
      insert-InsertedIn s fuel key ts us w ik.0 (omega arith) (omega (arith, room)) in
    let x : Tower = tower s.allocator.cur_index key i.height in
    let (s', run', done) =
      insert_keys-Filled fuel ks s1 (i.before ++ (x ∷ [])) i.after i.result
        (omega (arith, length-inserted i)) (subst (λ n. All (IsKey n) ks) (sym i.same_size) ik.1)
        (subst
          (λ max.
            s1.allocator.cur_index + need_all max ks
            ≤ s1.allocator.pmemaddr + s1.allocator.mapped_len)
          (sym i.same_max)
          (room_after s s1 key ts us (need_all s.list.k_max_height ks) i (omega (arith, room)))) in
    (s', rw run run', Filled-insert i done)
