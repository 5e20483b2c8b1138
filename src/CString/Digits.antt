-- ===== src/CString/Digits.antt =====
-- Keys that begin with decimal digits: their order is that of the numbers that they show.
use Prim.Native.Nat.{compare, Ordering}
use native.Mathlib.Bridge.{le_prop}
use persist_tree_test.Base.{
  ℕ, zero, suc, ◌+◌, ◌-◌, ◌*◌, ◌<◌, ◌≤◌, ◌≡◌, refl, ap, inl, inr, compare_cases, arith, List, [],
  ◌∷◌,
}
use persist_tree_test.CString.Rank.{rank, radix, HasChars, Leads, IsKey, rank-lt-radix, lt_of_digit}

abbrev pub pow10 : ℕ → ℕ
pow10 zero = 1
pow10 (suc n) = 10 * pow10 n

compare-lt : {a b : ℕ} → a < b → compare a b ≡ Ordering.lt
compare-lt h = ground arith

compare-gt : {a b : ℕ} → b < a → compare a b ≡ Ordering.gt
compare-gt h = ground arith

compare-add_left : (k r s : ℕ) → compare (k + r) (k + s) ≡ compare r s
compare-add_left k r s = ground arith

-- The first `n` places hold digits.
abbrev pub HasDigits : ℕ → List ℕ → Type 0
HasDigits zero k = Unit
HasDigits (suc n) [] = ⊥
HasDigits (suc n) (x ∷ k) = (b'0' ≤ x) × (x ≤ b'9') × HasDigits n k

-- The number that the first `n` places show.
unfoldable pub number : ℕ → List ℕ → ℕ
number zero k = 0
number (suc n) [] = 0
number (suc n) (x ∷ k) = (x - b'0') * pow10 n + number n k

pub number-zero : (k : List ℕ) → number zero k ≡ 0
unfolding number
number-zero k = refl

pub number-suc : (n x : ℕ) (k : List ℕ) → number (suc n) (x ∷ k) ≡ (x - b'0') * pow10 n + number n k
unfolding number
number-suc n x k = refl

abbrev pub skip : ℕ → List ℕ → List ℕ
skip zero k = k
skip (suc n) [] = []
skip (suc n) (x ∷ k) = skip n k

pub HasDigits-HasChars : (n : ℕ) (k : List ℕ) → HasDigits n k → HasChars n k
HasDigits-HasChars zero k h = tt
HasDigits-HasChars (suc n) [] h = absurd h
HasDigits-HasChars (suc n) (x ∷ k) h = (omega arith, omega arith, HasDigits-HasChars n k h.2)

pub number-lt-pow10 : (n : ℕ) (k : List ℕ) → HasDigits n k → number n k < pow10 n
unfolding number
number-lt-pow10 zero k h = omega arith
number-lt-pow10 (suc n) [] h = absurd h
number-lt-pow10 (suc n) (x ∷ k) h = grind (arith, number-lt-pow10 n k)

compare-digit :
    (x y r s p : ℕ)
    → r < p
    → s < p
    → compare (x * p + r) (y * p + s) ≡ elim (compare x y) [
      | Ordering.lt ↦ Ordering.lt
      | Ordering.gt ↦ Ordering.gt
      | Ordering.eq ↦ compare r s
    ]
compare-digit x y r s p hr hs = elim (compare_cases x y) [
  | inl (e, lt) ↦ rw e (compare-lt (lt_of_digit x y r s p lt hr))
  | inr (inl (e, same)) ↦ rw (e, same) (compare-add_left (y * p) r s)
  | inr (inr (e, gt)) ↦ rw e (compare-gt (lt_of_digit y x s r p gt hs))
]

-- The numbers compare as the keys do.
pub compare-number :
    (n : ℕ) (a b : List ℕ)
    → HasDigits n a
    → HasDigits n b
    → compare (number n a) (number n b) ≡ compare (rank n a) (rank n b)
unfolding number rank
compare-number zero a b ha hb = refl
compare-number (suc n) [] b ha hb = absurd ha
compare-number (suc n) (x ∷ a) [] ha hb = absurd hb
compare-number (suc n) (x ∷ a) (y ∷ b) ha hb =
    let same : compare (x - b'0') (y - b'0') ≡ compare x y = ground arith in
    rw
      (
        compare-digit (x - b'0') (y - b'0') (number n a) (number n b) (pow10 n)
            (number-lt-pow10 n a ha.2) (number-lt-pow10 n b hb.2),
        compare-digit x y (rank n a) (rank n b) (radix n)
            (rank-lt-radix n a (HasDigits-HasChars n a ha.2))
            (rank-lt-radix n b (HasDigits-HasChars n b hb.2)),
        same,
      )
      (ap
        (λ o. elim (compare x y) [
          | Ordering.lt ↦ Ordering.lt
          | Ordering.gt ↦ Ordering.gt
          | Ordering.eq ↦ o
        ])
        (compare-number n a b ha.2 hb.2))

suc_plus : (n m : ℕ) → suc n + m ≡ suc (n + m)
suc_plus n m = omega arith

zero_plus : (m : ℕ) → 0 + m ≡ m
zero_plus m = omega arith

pow10-add : (n m : ℕ) → pow10 (n + m) ≡ pow10 n * pow10 m
pow10-add zero m = rw (zero_plus m) (omega arith)
pow10-add (suc n) m = rw (suc_plus n m, pow10-add n m) (grind arith)

digit_carry : (x p n q r : ℕ) → x * (p * q) + (n * q + r) ≡ (x * p + n) * q + r
digit_carry x p n q r = grind arith

-- The number in two parts.
pub number-split :
    (n m : ℕ) (k : List ℕ)
    → HasDigits (n + m) k
    → number (n + m) k ≡ number n k * pow10 m + number m (skip n k)
unfolding number
number-split zero m k h = rw (zero_plus m) (omega arith)
number-split (suc n) m [] h = absurd (rw (suc_plus n m) at h)
number-split (suc n) m (x ∷ k) h =
    rw (suc_plus n m, pow10-add n m, number-split n m k (rw (suc_plus n m) at h).2)
      (digit_carry (x - b'0') (pow10 n) (number n k) (pow10 m) (number m (skip n k)))

-- The digits of the two parts.
pub HasDigits-left : (n m : ℕ) (k : List ℕ) → HasDigits (n + m) k → HasDigits n k
HasDigits-left zero m k h = tt
HasDigits-left (suc n) m [] h = absurd (rw (suc_plus n m) at h)
HasDigits-left (suc n) m (x ∷ k) h =
    let h' : HasDigits (suc (n + m)) (x ∷ k) = (rw (suc_plus n m) at h) in
    (h'.0, h'.1, HasDigits-left n m k h'.2)

pub HasDigits-right : (n m : ℕ) (k : List ℕ) → HasDigits (n + m) k → HasDigits m (skip n k)
HasDigits-right zero m k h = rw (zero_plus m) at h
HasDigits-right (suc n) m [] h = absurd (rw (suc_plus n m) at h)
HasDigits-right (suc n) m (x ∷ k) h =
    let h' : HasDigits (suc (n + m)) (x ∷ k) = (rw (suc_plus n m) at h) in
    HasDigits-right n m k h'.2

pub HasDigits-append :
    (n m : ℕ) (k : List ℕ) → HasDigits n k → HasDigits m (skip n k) → HasDigits (n + m) k
HasDigits-append zero m k h h' = rw (zero_plus m) h'
HasDigits-append (suc n) m [] h h' = absurd h
HasDigits-append (suc n) m (x ∷ k) h h' =
    rw (suc_plus n m) (h.0, h.1, HasDigits-append n m k h.2 h')

-- Keys of digits are keys that both skip lists can order.
pub HasDigits-IsKey : (n : ℕ) (k : List ℕ) → 0 < n → HasDigits n k → IsKey n k
HasDigits-IsKey n k pos h = record {
  some_size = pos;
  chars = HasDigits-HasChars n k h;
  leads = leads n k pos h;
}
  where
    leads : (n' : ℕ) (k' : List ℕ) → 0 < n' → HasDigits n' k' → Leads k'
    leads zero k' pos' h' = absurd (omega arith)
    leads (suc n') [] pos' h' = absurd h'
    leads (suc n') (x ∷ k') pos' h' = omega arith

pub HasDigits-prop : (n : ℕ) (k : List ℕ) → IsProp (HasDigits n k)
HasDigits-prop zero k = hlevel
HasDigits-prop (suc n) [] = hlevel
HasDigits-prop (suc n) (x ∷ k) = hlevel (le_prop, HasDigits-prop n k)

pub pow10-pos : (n : ℕ) → 0 < pow10 n
pow10-pos zero = omega arith
pow10-pos (suc n) = omega (arith, pow10-pos n)
