-- ===== src/Routes.antt =====
-- The two ways of a key to NVM: through a list in DRAM, as `SkiplistWriteNVM` takes it between two
-- flushes (log_batch_wrapper.cc), or straight to the list in NVM (persistent_skiplist_wrapper.cc).
pub mod Agree
use mathlib.Core.List.{Perm, map-append}
use mathlib.Core.List.Perm
use native.Mathlib.Bridge.{le_prop}
use persist_tree_test.Base.{
  ℕ, zero, suc, ◌+◌, ◌*◌, ◌<◌, ◌≤◌, ◌≡◌, ◌≢◌, refl, ◌∙◌, ap, sym, subst, arith, some, List, [], ◌∷◌,
  ◌++◌, append-nil, All, All-map, map, length,
}
use persist_tree_test.Base.Outcome.{Outcome, ok, ◌>>=◌}
use persist_tree_test.CString.Rank.{IsKey, rank}
use persist_tree_test.Node.{Ptr, Heap}
use persist_tree_test.Towers.{Tower, keys, Ascending}
use persist_tree_test.Towers.Falls.{AllUnlike, perm-All}
use persist_tree_test.MemorySkipList.{State}
use persist_tree_test.MemorySkipList.WellFormed.{IsSkipList}
use persist_tree_test.MemorySkipList.Fill.{
  Items, insert_all, insert_all-Filled, item_keys, AreFresh, AreNew,
}
use persist_tree_test.PersistentSkipList.{NvmList, node_size}
use persist_tree_test.PersistentSkipList.Insert.{IsNvmList}
use persist_tree_test.PersistentSkipList.Lifetime.{insert_keys, insert_keys-Filled, need_all}
use persist_tree_test.FlushNvm.{run}
use persist_tree_test.FlushNvm.Keys.{read_as, IsReadable, room_for}
use persist_tree_test.FlushNvm.Run.{run-Copied}

-- `Insert` of keys in a list in DRAM, and then `FlushNVM::Run` on it.
pub through_dram :
    (behind : Ptr → List ℕ) (fuel nvm_fuel : ℕ)
    → State
    → Items
    → NvmList
    → Outcome (Heap × ℕ × NvmList)
through_dram behind fuel nvm_fuel s items nvm = do
  s' ← insert_all s fuel items
  run behind nvm_fuel fuel (some s'.list) s'.heap nvm

-- A key with sixteen bytes or more, `most` at most, none of them NUL.
abbrev pub IsText : ℕ → List ℕ → Type 0
IsText most key = (16 ≤ length key) × (length key ≤ most) × All (λ c. 0 < c) key

AllPositive-prop : (k : List ℕ) → IsProp (All (λ c. 0 < c) k)
AllPositive-prop [] = hlevel
AllPositive-prop (c ∷ k) = hlevel (le_prop, AllPositive-prop k)

pub IsText-prop : (most : ℕ) (k : List ℕ) → IsProp (IsText most k)
IsText-prop most k = hlevel (le_prop, AllPositive-prop k)

pub All-item_keys :
    (P : List ℕ → Type 0) (items : Items) → All P (item_keys items) → All (λ i. P i.1) items
All-item_keys P [] a = tt
All-item_keys P (i ∷ items) a = (a.0, All-item_keys P items a.1)

-- Keys with ranks of their own are new to an empty list.
pub AllUnlike-AreNew : (n : ℕ) (items : Items) → AllUnlike n (item_keys items) → AreNew n [] items
AllUnlike-AreNew n [] a = tt
AllUnlike-AreNew n ((p, k) ∷ items) a = (
  tt,
  All-map (λ i. rank n k ≢ rank n i.1) (λ i. rank n i.1 ≢ rank n k) (λ i ne e. ne (sym e)) items
      (All-item_keys _ items a.0),
  AllUnlike-AreNew n items a.1,
)

abbrev pub no_junk : Ptr → List ℕ
no_junk p = []

pub read_as-no_junk : (zs : List Tower) → map (read_as no_junk) zs ≡ keys zs
read_as-no_junk [] = refl
read_as-no_junk (t ∷ zs) =
    ap (λ k. k ∷ map (read_as no_junk) zs) (append-nil t.key) ∙ ap (◌∷◌ t.key) (read_as-no_junk zs)

module _ (rest : Ptr → List ℕ) (most : ℕ) where
  pub texts-IsReadable :
      (zs : List Tower)
      → All (λ t. IsText most t.key) zs
      → All (IsReadable (λ p. 0 ∷ rest p) no_junk) zs
  texts-IsReadable [] a = tt
  texts-IsReadable (t ∷ zs) a = (
    record { long = a.0.0; no_nul = a.0.2; junk_no_nul = tt; rest = rest t.ptr; ends = refl },
    texts-IsReadable zs a.1,
  )

-- What a key of at most `most` bytes may need of the mapped file.
abbrev pub room_each : ℕ → ℕ → ℕ
room_each max most = node_size max + most

suc_each : (r c : ℕ) → suc r * c ≡ c + r * c
suc_each r c = grind arith

pub room_for-bound :
    (max most : ℕ) (zs : List Tower)
    → All (λ t. IsText most t.key) zs
    → room_for no_junk max zs ≤ length zs * room_each max most
room_for-bound max most [] a = omega arith
room_for-bound max most (t ∷ zs) a = omega (
  arith,
  room_for-bound max most zs a.1,
  a.0.1,
  suc_each (length zs) (room_each max most),
  ap length (append-nil t.key),
)

pub need_all-bound :
    (max most : ℕ) (items : Items)
    → All (IsText most) (item_keys items)
    → need_all max (item_keys items) ≤ length items * room_each max most
need_all-bound max most [] a = omega arith
need_all-bound max most ((p, k) ∷ items) a =
    omega (
      arith,
      need_all-bound max most items a.1,
      a.0.1,
      suc_each (length items) (room_each max most),
    )

pub length-item_keys : (items : Items) → length (item_keys items) ≡ length items
length-item_keys [] = refl
length-item_keys (i ∷ items) = omega (arith, length-item_keys items)
