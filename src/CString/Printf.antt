-- ===== src/CString/Printf.antt =====
-- The conversions `%0wd` of the C library's printf.
use native.Mathlib.Nat.{div-add-mod', mod-lt}
use persist_tree_test.Base.{
  ℕ, zero, suc, ◌+◌, ◌-◌, ◌*◌, ◌/◌, ◌%◌, ◌^◌, ◌<◌, ◌≡◌, refl, ◌∙◌, arith, List, [], ◌∷◌, ◌++◌, All,
  length, ltb, lt→ltb, if◌then◌else◌,
}
use persist_tree_test.CString.Digits.{
  HasDigits, number, number-zero, number-suc, pow10, pow10-pos, skip,
}

-- The last `w` decimal digits of a number.
unfoldable pub decimal : ℕ → ℕ → List ℕ
decimal zero n = []
decimal (suc w) n = (b'0' + n / pow10 w) ∷ decimal w (n % pow10 w)

-- The number of places for `n`, `least` at the least. Ten places hold any `int`.
width : ℕ → ℕ → ℕ → ℕ
width zero least n = least
width (suc more) least n =
    let wider = width more (suc least) n in if ltb n (pow10 least) then least else wider

-- `%08d` for a value that is passed as a uint64_t: its low 32 bits are read as an int.
unfoldable pub print_08 : ℕ → List ℕ
unfolding width decimal
print_08 n =
    let low = n % 2 ^ 32 in
    if ltb low (2 ^ 31)
    then decimal (width 2 8 low) low
    else b'-' ∷ decimal (width 3 7 (2 ^ 32 - low)) (2 ^ 32 - low)

first_digit : (n p : ℕ) → 0 < p → n < 10 * p → n / p < 10
first_digit n p pos lt = grind (arith, div-add-mod' n p)

pub decimal-HasDigits : (w n : ℕ) (s : List ℕ) → n < pow10 w → HasDigits w (decimal w n ++ s)
unfolding decimal
decimal-HasDigits zero n s lt = tt
decimal-HasDigits (suc w) n s lt =
    let d : n / pow10 w < 10 = first_digit n (pow10 w) (pow10-pos w) lt in
    (omega arith, omega arith, decimal-HasDigits w (n % pow10 w) s (mod-lt n (pow10-pos w)))

pub decimal-no_nul : (w n : ℕ) → All (λ c. 0 < c) (decimal w n)
unfolding decimal
decimal-no_nul zero n = tt
decimal-no_nul (suc w) n = (omega arith, decimal-no_nul w (n % pow10 w))

-- The digits show the number.
pub number-decimal : (w n : ℕ) (s : List ℕ) → n < pow10 w → number w (decimal w n ++ s) ≡ n
unfolding decimal
number-decimal zero n s lt = omega (arith, number-zero s)
number-decimal (suc w) n s lt =
    let d : b'0' + n / pow10 w - b'0' ≡ n / pow10 w = omega arith in
    number-suc w (b'0' + n / pow10 w) (decimal w (n % pow10 w) ++ s)
    ∙ rw (d, number-decimal w (n % pow10 w) s (mod-lt n (pow10-pos w))) (div-add-mod' n (pow10 w))

pub skip-decimal : (w n : ℕ) (s : List ℕ) → skip w (decimal w n ++ s) ≡ s
unfolding decimal
skip-decimal zero n s = refl
skip-decimal (suc w) n s = skip-decimal w (n % pow10 w) s

pub length-decimal : (w n : ℕ) → length (decimal w n) ≡ w
unfolding decimal
length-decimal zero n = refl
length-decimal (suc w) n = omega (arith, length-decimal w (n % pow10 w))

-- A number of at most eight digits is printed with eight.
pub print_08-decimal : (n : ℕ) → n < 10 ^ 8 → print_08 n ≡ decimal 8 n
unfolding print_08
print_08-decimal n lt =
    let low : n % 2 ^ 32 ≡ n = omega arith in
    rw (low, lt→ltb n (2 ^ 31) (omega arith), lt→ltb n (10 ^ 8) lt) refl
