-- ===== src/CString/Rank.antt =====
-- On keys, `strncmp` compares numbers: the first `n` bytes read in base 256.
use Prim.Native.Nat.{compare, Ordering}
use persist_tree_test.Base.{
  ℕ, zero, suc, ◌+◌, ◌*◌, ◌<◌, ◌≡◌, refl, arith, List, [], ◌∷◌, ◌++◌, append-nil, subst, All,
}
use persist_tree_test.Base.Outcome.{ok}
use persist_tree_test.CString.{strncmp, c_str, from_c_str}

abbrev pub radix : ℕ → ℕ
radix zero = 1
radix (suc n) = 256 * radix n

-- The first `n` bytes in base 256.
unfoldable pub rank : ℕ → List ℕ → ℕ
rank zero k = 0
rank (suc n) [] = 0
rank (suc n) (x ∷ k) = x * radix n + rank n k

-- The first `n` places hold bytes other than NUL.
abbrev pub HasChars : ℕ → List ℕ → Type 0
HasChars zero k = Unit
HasChars (suc n) [] = ⊥
HasChars (suc n) (x ∷ k) = (0 < x) × (x < 256) × HasChars n k

-- The first byte comes after the space.
abbrev pub Leads : List ℕ → Type 0
Leads [] = ⊥
Leads (x ∷ k) = 32 < x

-- A key that both skip lists can order, with `key_size_` being `n`.
pub record IsKey (n : ℕ) (k : List ℕ) : Type 0 where
  pub some_size : 0 < n
  pub chars : HasChars n k
  pub leads : Leads k

pub rank-lt-radix : (n : ℕ) (k : List ℕ) → HasChars n k → rank n k < radix n
unfolding rank
rank-lt-radix zero k h = omega arith
rank-lt-radix (suc n) [] h = absurd h
rank-lt-radix (suc n) (x ∷ k) h = grind (arith, rank-lt-radix n k)

pub lt_of_digit : (x y r s p : ℕ) → x < y → r < p → x * p + r < y * p + s
lt_of_digit x y r s p h l = grind arith

strncmp-rank_any :
    (n : ℕ) (a b s t : List ℕ)
    → HasChars n a
    → HasChars n b
    → strncmp (a ++ s) (b ++ t) n ≡ ok (compare (rank n a) (rank n b))
unfolding strncmp rank
strncmp-rank_any zero a b s t ha hb = refl
strncmp-rank_any (suc n) [] b s t ha hb = absurd ha
strncmp-rank_any (suc n) (x ∷ a) [] s t ha hb = absurd hb
strncmp-rank_any (suc n) (x ∷ a) (y ∷ b) s t ha hb = ground (
  arith,
  strncmp-rank_any n a b s t ha.2 hb.2,
  rank-lt-radix n a ha.2,
  rank-lt-radix n b hb.2,
  lt_of_digit x y (rank n a) (rank n b) (radix n),
  lt_of_digit y x (rank n b) (rank n a) (radix n),
)

module _ (n : ℕ) (a b : List ℕ) (ha : IsKey n a) (hb : IsKey n b) where
  -- The comparison of a string with the key of a node, and the other way round.
  pub strncmp-rank : strncmp (c_str a) b n ≡ ok (compare (rank n a) (rank n b))
  strncmp-rank =
      subst (λ t. strncmp (c_str a) t n ≡ ok (compare (rank n a) (rank n b))) (append-nil b)
        (strncmp-rank_any n a b (0 ∷ []) [] ha.chars hb.chars)

  pub strncmp-rank_swap : strncmp a (c_str b) n ≡ ok (compare (rank n a) (rank n b))
  strncmp-rank_swap =
      subst (λ t. strncmp t (c_str b) n ≡ ok (compare (rank n a) (rank n b))) (append-nil a)
        (strncmp-rank_any n a b [] (0 ∷ []) ha.chars hb.chars)

-- Every key comes after the key `" "` of a head node.
pub strncmp-space :
    (n : ℕ) (a : List ℕ) → IsKey n a → strncmp (c_str a) (b' ' ∷ []) n ≡ ok Ordering.gt
unfolding strncmp
strncmp-space zero a h = absurd (omega (arith, h.some_size))
strncmp-space (suc n) [] h = absurd h.leads
strncmp-space (suc n) (x ∷ a) h = ground (arith, h.leads)

-- A string without NUL is read back from a buffer up to the NUL behind it.
pub from_c_str-append : (k rest : List ℕ) → All (λ x. 0 < x) k → from_c_str (k ++ (0 ∷ rest)) ≡ ok k
unfolding from_c_str
from_c_str-append [] rest h = refl
from_c_str-append (x ∷ k) rest h = ground (arith, from_c_str-append k rest h.1)
