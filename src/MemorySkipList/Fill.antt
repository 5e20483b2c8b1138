-- ===== src/MemorySkipList/Fill.antt =====
-- A run of `Insert` calls, as `write_to_dram` of motivation1_main.cc makes them between two flushes.
use persist_tree_test.Base.{
  ℕ, suc, ◌+◌, ◌<◌, ◌≡◌, ◌≢◌, refl, ◌∙◌, sym, ap, inl, inr, arith, none, List, [], ◌∷◌, ◌++◌, All,
  All-left, All-right, subst, length, length-append, map, append_assoc,
}
use mathlib.Core.List.{Perm, perm_middle, map-append}
use mathlib.Core.List.Perm
use persist_tree_test.Base.Outcome.{Outcome, ok, ◌>>=◌}
use persist_tree_test.CString.Rank.{IsKey, rank}
use persist_tree_test.Node.{Ptr, null, Heap}
use persist_tree_test.Towers.{Tower, keys}
use persist_tree_test.Towers.Splice.{All-insert}
use persist_tree_test.MemorySkipList.{State, insert}
use persist_tree_test.MemorySkipList.WellFormed.{IsSkipList, AtFinger}
use persist_tree_test.MemorySkipList.Steps.{tower}
use persist_tree_test.MemorySkipList.Equal.{insert-InsertedAt}

-- The keys to insert, each with the address that the allocation of its node returns.
abbrev pub Items : Type 0
Items = List (Ptr × List ℕ)

unfoldable pub insert_all : State → ℕ → Items → Outcome State
insert_all s fuel [] = ok s
insert_all s fuel ((fresh, key) ∷ items) = do s' ← insert s fuel fresh key; insert_all s' fuel items

abbrev pub item_keys : Items → List (List ℕ)
item_keys = map (λ (p, k). k)

-- The allocations return addresses that are not in use, all different.
abbrev pub AreFresh : Heap → Items → Type 0
AreFresh h [] = Unit
AreFresh h ((p, k) ∷ items) =
    (p ≢ null) × (h p ≡ none) × All (λ i. i.0 ≢ p) items × AreFresh h items

-- No key has the rank of another one, or of a tower's.
abbrev pub AreNew : ℕ → List Tower → Items → Type 0
AreNew n ts [] = Unit
AreNew n ts ((p, k) ∷ items) =
    All (λ t. rank n t.key ≢ rank n k) ts
    × All (λ i. rank n i.1 ≢ rank n k) items
    × AreNew n ts items

-- The keys of the list after one insertion are the old ones and the new one.
pub inserted-perm :
    (before after zs : List Tower) (x : Tower)
    → before ++ after ≡ zs
    → Perm (keys ((before ++ (x ∷ [])) ++ after)) (x.key ∷ keys zs)
inserted-perm before after zs x e =
    subst (λ ks. Perm ks (x.key ∷ keys zs))
      (sym (ap keys (append_assoc before (x ∷ []) after) ∙ map-append _ before (x ∷ after)))
      (subst (λ ks. Perm (keys before ++ (x.key ∷ keys after)) (x.key ∷ ks))
        (sym (map-append _ before after) ∙ ap keys e) (perm_middle (keys before) (keys after)))

AreFresh-mono :
    (h h' : Heap) (p : Ptr) (items : Items)
    → ((r : Ptr) → r ≢ p → h r ≡ none → h' r ≡ none)
    → All (λ i. i.0 ≢ p) items
    → AreFresh h items
    → AreFresh h' items
AreFresh-mono h h' p [] keep ne f = tt
AreFresh-mono h h' p ((q, k) ∷ items) keep ne f =
    (f.0, keep q ne.0 f.1, f.2, AreFresh-mono h h' p items keep ne.1 f.3)

AreNew-insert :
    (n : ℕ) (before after zs : List Tower) (x : Tower) (items : Items)
    → before ++ after ≡ zs
    → All (λ i. rank n i.1 ≢ rank n x.key) items
    → AreNew n zs items
    → AreNew n ((before ++ (x ∷ [])) ++ after) items
AreNew-insert n before after zs x [] e ne f = tt
AreNew-insert n before after zs x ((q, k) ∷ items) e ne f = (
  subst (All (λ t. rank n t.key ≢ rank n k)) (sym (append_assoc before (x ∷ []) after)) (
      All-insert _ before after x (subst (All (λ t. rank n t.key ≢ rank n k)) (sym e) f.0)
        (λ e'. ne.0 (sym e'))),
  f.1,
  AreNew-insert n before after zs x items e ne.1 f.2,
)

pub not_AtFinger :
    (n r : ℕ) (ts us : List Tower) → All (λ t. rank n t.key ≢ r) (ts ++ us) → ¬ (AtFinger n r ts us)
not_AtFinger n r ts us a (inl (front, t, e, same)) =
    (All-right _ front (t ∷ []) (subst (All (λ u. rank n u.key ≢ r)) e (All-left _ ts us a))).0 same
not_AtFinger n r ts us a (inr (t, back, e, same)) =
    (subst (All (λ u. rank n u.key ≢ r)) e (All-right _ ts us a)).0 same

pub length-insert :
    (before after : List Tower) (x : Tower)
    → length ((before ++ (x ∷ [])) ++ after) ≡ suc (length (before ++ after))
length-insert before after x = omega (
  arith,
  length-append (before ++ (x ∷ [])) after,
  length-append before (x ∷ []),
  length-append before after,
)

-- What a run of insertions leads to.
pub record Filled (s s' : State) (zs : List Tower) (items : Items) : Type 0 where
  pub ts : List Tower
  pub us : List Tower
  pub result : IsSkipList s'.list s'.heap ts us
  pub contents : Perm (keys (ts ++ us)) (item_keys items ++ keys zs)
  pub same_size : s'.list.key_size ≡ s.list.key_size
  pub grows : length (ts ++ us) ≡ length zs + length items

-- Keys of different ranks, inserted in any order, end up in one ascending list of just these keys.
pub insert_all-Filled :
    (fuel : ℕ) (items : Items) (s : State) (ts us : List Tower)
    → IsSkipList s.list s.heap ts us
    → length (ts ++ us) + length items < fuel
    → All (λ i. IsKey s.list.key_size i.1) items
    → AreFresh s.heap items
    → AreNew s.list.key_size (ts ++ us) items
    → (s' : State) × (insert_all s fuel items ≡ ok s') × Filled s s' (ts ++ us) items
unfolding insert_all
insert_all-Filled fuel [] s ts us w lt ik f new = (
  s,
  refl,
  record {
    ts = ts;
    us = us;
    result = w;
    contents = Perm.refl _;
    same_size = refl;
    grows = omega arith;
  },
)
insert_all-Filled fuel ((p, key) ∷ items) s ts us w lt ik f new =
    elim (insert-InsertedAt s fuel p key ts us w ik.0 (omega arith) f.0 f.1) [
      | inr (_, at) ↦
          absurd (not_AtFinger s.list.key_size (rank s.list.key_size key) ts us new.0 at)
      | inl (s1, run, i) ↦
          let x = tower p key i.height in
          let (s', run', done) =
            insert_all-Filled fuel items s1 (i.before ++ (x ∷ [])) i.after i.result
              (omega (arith, length-insert i.before i.after x, ap length i.same))
              (subst (λ n. All (λ i. IsKey n i.1) items) (sym i.same_size) ik.1)
              (AreFresh-mono s.heap s1.heap p items i.untouched f.2 f.3)
              (subst (λ n. AreNew n ((i.before ++ (x ∷ [])) ++ i.after) items) (sym i.same_size)
                (AreNew-insert s.list.key_size i.before i.after (ts ++ us) x items i.same new.1
                  new.2)) in
          (
            s',
            rw run run',
            record {
              ts = done.ts;
              us = done.us;
              result = done.result;
              contents = Perm.trans done.contents (
                  Perm.trans
                    (Perm.append_left (item_keys items)
                      (inserted-perm i.before i.after (ts ++ us) x i.same))
                    (perm_middle (item_keys items) (keys (ts ++ us))));
              same_size = done.same_size ∙ i.same_size;
              grows = omega (arith, done.grows, length-insert i.before i.after x, ap length i.same);
            },
          )
    ]
