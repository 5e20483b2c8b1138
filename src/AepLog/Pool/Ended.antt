-- ===== src/AepLog/Pool/Ended.antt =====
-- A log in the pool from its constructor to `Delete`.
use persist_tree_test.Base.{
  ℕ, ◌+◌, ◌%◌, ◌^◌, ◌<◌, ◌≤◌, ◌≡◌, ◌≢◌, refl, sym, ◌∙◌, ap, arith, inl, inr, List, [], ◌∷◌, none,
  All, map, ◌++◌, length,
}
use persist_tree_test.Base.Outcome.{ok, fault, ok-injective}
use persist_tree_test.Node.{Ptr, null}
use persist_tree_test.AepLog
use persist_tree_test.AepLog.{Log}
use persist_tree_test.AepLog.Contents.{contents, concat, put_all, put_all-appends, init-Fits}
use persist_tree_test.AepLog.Pool.{Pool, PoolLog, init, put, get, delete}
use persist_tree_test.AepLog.Pool.Chain.{Slot}
use persist_tree_test.AepLog.Pool.Represents.{Represents, shown}
use persist_tree_test.AepLog.Pool.Removal.{get-counts, delete-Deleted, put-dangling}
use persist_tree_test.AepLog.Pool.Lifetime.{puts, puts-Represents}

length-map : {A B : Type 0} (f : A → B) (xs : List A) → length (map f xs) ≡ length xs
length-map f [] = refl
length-map f (x ∷ xs) = omega (arith, length-map f xs)

fits :
    (entry_size : ℕ) (keys : List (List ℕ))
    → All (λ key. length key ≤ entry_size) keys
    → All (λ key. length key ≤ (AepLog.init entry_size).entry_size) keys
unfolding AepLog.init
fits entry_size keys le = le

new_contents : (entry_size : ℕ) → contents (AepLog.init entry_size) ≡ []
unfolding AepLog.init AepLog.new_entry
new_contents entry_size = refl

-- What a log of keys in the pool represents, and what `Get` and `Delete` do with it: `l` is the log
-- that `before` and `last` show.
pub record Ended (keys : List (List ℕ)) (fuel : ℕ) (s : PoolLog) (l : Log) : Type 0 where
  pub before : List Slot
  pub last : Slot
  pub represents : Represents s before last
  pub shows : l ≡ shown before last s.entry_size
  pub holds : contents l ≡ concat keys
  pub counts : get fuel s ≡ ok ((length l.before_tail + 1) % 2 ^ 64)
  pub left : PoolLog
  pub deletes : delete fuel s ≡ ok left
  pub no_head : left.head ≡ null
  pub no_entries : (r : Ptr) → left.pool.entries r ≡ none
  pub no_arrays : (r : Ptr) → left.pool.arrays r ≡ none
  pub unusable : (key : List ℕ) (e a : Ptr) → put key e a left ≡ fault

-- In a pool with nothing in it, with addresses that are not null and different, with keys no longer than
-- an entry, an entry size below 2^64 and enough fuel, the constructor and a `Put` of each key succeed;
-- the entries that are linked in the pool, with the bytes of their arrays, are those of the log that
-- holds the keys one after the other; `Get` counts its entries; `Delete` frees every entry and
-- every array; and a `Put` after `Delete` fails, for the tail still points to a deleted entry.
pub log-Ended :
    (entry array : ℕ → Ptr) (entry_size fuel : ℕ) (pool : Pool) (keys : List (List ℕ))
    → ((j : ℕ) → entry j ≢ null)
    → ((j k : ℕ) → j ≢ k → entry j ≢ entry k)
    → ((j k : ℕ) → j ≢ k → array j ≢ array k)
    → ((r : Ptr) → pool.entries r ≡ none)
    → ((r : Ptr) → pool.arrays r ≡ none)
    → entry_size < 2 ^ 64
    → All (λ key. length key ≤ entry_size) keys
    → length keys + 1 < fuel
    → (s : PoolLog) × (l : Log) × (puts entry array 1 keys
          (init (entry 0) (array 0) entry_size pool)
        ≡ ok s)
      × (put_all keys (AepLog.init entry_size) ≡ ok l)
      × Ended keys fuel s l
log-Ended entry array entry_size fuel pool keys some_entry different_entries different_arrays
      no_entries no_arrays small le enough =
    let (l, runs, adds, _) =
      put_all-appends keys (AepLog.init entry_size) (init-Fits entry_size small)
        (fits entry_size keys le) in
    elim (puts-Represents entry array entry_size pool keys some_entry different_entries
      different_arrays no_entries no_arrays) [
        | inl (_, fails) ↦ absurd (not_both l (sym runs ∙ fails))
        | inr (s, before, last, runs', shows, w, few) ↦
            let same : l ≡ shown before last s.entry_size = ok-injective _ _ (sym runs ∙ shows) in
            let (left, deletes, gone) =
              delete-Deleted fuel s before last w (omega (arith, few, enough)) in
            (
              s,
              l,
              runs',
              runs,
              record {
                before = before;
                last = last;
                represents = w;
                shows = same;
                holds = adds ∙ ap (λ xs. xs ++ concat keys) (new_contents entry_size);
                counts =
                    get-counts fuel s before last w (omega (arith, few, enough))
                    ∙ ap (λ n. ok ((n + 1) % 2 ^ 64))
                        (sym (length-map (λ x. x.entry) before)
                          ∙ ap (λ j. length j.before_tail) (sym same));
                left = left;
                deletes = deletes;
                no_head = gone.no_head;
                no_entries = gone.no_entries;
                no_arrays = gone.no_arrays;
                unusable = λ key e a. put-dangling key e a left (gone.no_entries left.tail);
              },
            )
      ]
  where
    not_both : (l : Log) → ok l ≡ fault → ⊥
    not_both l e = cc
