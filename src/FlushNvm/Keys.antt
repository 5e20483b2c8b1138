-- ===== src/FlushNvm/Keys.antt =====
-- The keys that `FlushNVM::Run` reads.
use persist_tree_test.Base.{
  ℕ, zero, suc, ◌+◌, ◌<◌, ◌≤◌, ◌≡◌, refl, arith, Bool, List, [], ◌∷◌, ◌++◌, All, length,
  length-append, ◌==◌, ◌||◌, ◌&&◌, ltb,
}
use persist_tree_test.Base.Outcome.{ok}
use persist_tree_test.CString.Rank.{IsKey, HasChars, Leads}
use persist_tree_test.Node.{Ptr}
use persist_tree_test.Towers.{Tower}
use persist_tree_test.PersistentSkipList.{node_size}
use persist_tree_test.PrintKey.{Last, digits, print_buffer}
use persist_tree_test.FlushNvm.{print_key}

digits-ok :
    (count : ℕ) (str : List ℕ) (num : ℕ)
    → count ≤ length str
    → (v : ℕ) × (rest : List ℕ) × (digits count str num ≡ ok (v, rest))
      × (length rest + count ≡ length str)
unfolding digits
digits-ok zero str num le = (num, str, refl, omega arith)
digits-ok (suc count) [] num le = absurd (omega arith)
digits-ok (suc count) (c ∷ str) num le =
    let (v, rest, e, len) = digits-ok count str _ (omega arith) in (v, rest, e, omega arith)

pub print_key-ok :
    (key : List ℕ) (last : Last)
    → 16 ≤ length key
    → (in_order : Bool) × (last' : Last) × (print_key key last ≡ ok (in_order, last'))
unfolding print_key print_buffer
print_key-ok key (num, seq) le =
    let (v, rest, e, len) =
      digits-ok 8 (key ++ (0 ∷ [])) 0 (omega (arith, length-append key (0 ∷ []))) in
    let (v', rest', e', _) = digits-ok 8 rest 0 (omega (arith, len, length-append key (0 ∷ []))) in
    (ltb num v || (num == v && ltb seq v'), (v, v'), rw (e, e') refl)

-- What the nodes of the list in DRAM are read as, with `junk p` up to the first NUL behind the key
-- of node `p`.
abbrev pub read_as : (Ptr → List ℕ) → Tower → List ℕ
read_as junk t = t.key ++ junk t.ptr

-- The key is long enough for `PrintKey`, and what is behind it is the junk, a NUL and more.
pub record IsReadable (behind junk : Ptr → List ℕ) (t : Tower) : Type 0 where
  pub long : 16 ≤ length t.key
  pub no_nul : All (λ c. 0 < c) t.key
  pub junk_no_nul : All (λ c. 0 < c) (junk t.ptr)
  pub rest : List ℕ
  pub ends : behind t.ptr ≡ junk t.ptr ++ (0 ∷ rest)

HasChars-append : (n : ℕ) (k j : List ℕ) → HasChars n k → HasChars n (k ++ j)
HasChars-append zero k j h = tt
HasChars-append (suc n) [] j h = absurd h
HasChars-append (suc n) (x ∷ k) j h = (h.0, h.1, HasChars-append n k j h.2)

Leads-append : (k j : List ℕ) → Leads k → Leads (k ++ j)
Leads-append [] j h = absurd h
Leads-append (x ∷ k) j h = h

pub IsKey-append : (n : ℕ) (k j : List ℕ) → IsKey n k → IsKey n (k ++ j)
IsKey-append n k j h = record {
  some_size = h.some_size;
  chars = HasChars-append n k j h.chars;
  leads = Leads-append k j h.leads;
}

-- What copying the towers may need of the mapped file.
abbrev pub room_for : (Ptr → List ℕ) → ℕ → List Tower → ℕ
room_for junk max [] = 0
room_for junk max (t ∷ ts) = node_size max + length (read_as junk t) + room_for junk max ts
