-- ===== src/PrintKey/Order.antt =====
-- `PrintKey` on keys that begin with sixteen digits.
use persist_tree_test.Base.{
  ℕ, zero, suc, ◌+◌, ◌-◌, ◌*◌, ◌%◌, ◌^◌, ◌<◌, ◌≤◌, ◌≡◌, ◌∙◌, sym, ap, arith, List, [], ◌∷◌, ◌++◌,
  ltb,
}
use persist_tree_test.Base.Outcome.{ok}
use persist_tree_test.CString.Digits.{
  HasDigits, number, number-zero, number-suc, skip, pow10, pow10-pos, number-lt-pow10, number-split,
  HasDigits-left, HasDigits-right,
}
use persist_tree_test.PrintKey.{Last, digit, digits, print_buffer}

no_overflow :
    (d acc p : ℕ)
    → d ≤ 9
    → 0 < p
    → (acc + 1) * (10 * p) ≤ 2 ^ 64
    → ((d + 10 * acc + 1) * p ≤ 2 ^ 64) × (d + 10 * acc < 2 ^ 64)
no_overflow d acc p h pos le =
    let whole : (acc + 1) * (10 * p) ≡ 10 * (acc * p) + 10 * p = grind arith in
    let parts : (d + 10 * acc + 1) * p ≡ d * p + 10 * (acc * p) + p = grind arith in
    let small : d * p ≤ 9 * p = grind arith in
    let factor : d + 10 * acc + 1 ≤ (d + 10 * acc + 1) * p = grind arith in
    (omega arith, omega arith)

regroup : (d acc p r : ℕ) → (d + 10 * acc) * p + r ≡ acc * (10 * p) + (d * p + r)
regroup d acc p r = grind arith

-- The loops of `PrintKey` read the number that the digits show.
pub digits-number :
    (n : ℕ) (k s : List ℕ) (acc : ℕ)
    → HasDigits n k
    → (acc + 1) * pow10 n ≤ 2 ^ 64
    → digits n (k ++ s) acc ≡ ok (acc * pow10 n + number n k, skip n k ++ s)
unfolding digits digit
digits-number zero k s acc h le = ap (λ n. ok (n, k ++ s)) (omega (arith, number-zero k))
digits-number (suc n) [] s acc h le = absurd h
digits-number (suc n) (x ∷ k) s acc h le =
    let (le', small) = no_overflow (x - b'0') acc (pow10 n) (omega arith) (pow10-pos n) le in
    let step : (digit x + 10 * acc) % 2 ^ 64 ≡ (x - b'0') + 10 * acc = ground arith in
    rw (step, digits-number n k s ((x - b'0') + 10 * acc) h.2 le')
      (ap (λ v. ok (v, skip n k ++ s))
        (regroup (x - b'0') acc (pow10 n) (number n k)
          ∙ ap (λ v. acc * (10 * pow10 n) + v) (sym (number-suc n x k))))

digits-number_from_zero :
    (k s : List ℕ) → HasDigits 8 k → digits 8 (k ++ s) 0 ≡ ok (number 8 k, skip 8 k ++ s)
digits-number_from_zero k s h =
    digits-number 8 k s 0 h (omega arith) ∙ ap (λ v. ok (v, skip 8 k ++ s)) (omega arith)

-- The two numbers as one.
abbrev pub value : Last → ℕ
value (num, seq_num) = num * 10 ^ 8 + seq_num

-- On a key that begins with sixteen digits, `PrintKey` compares the number that they show with the
-- last one, and keeps it.
pub print_buffer-number :
    (k s : List ℕ) (last : Last)
    → HasDigits 16 k
    → last.1 < 10 ^ 8
    → (last' : Last) × (print_buffer (k ++ s) last ≡ ok (ltb (value last) (number 16 k), last'))
      × (value last' ≡ number 16 k)
      × (last'.1 < 10 ^ 8)
unfolding print_buffer
print_buffer-number k s (num, seq) h small =
    let left : HasDigits 8 k = HasDigits-left 8 8 k h in
    let right : HasDigits 8 (skip 8 k) = HasDigits-right 8 8 k h in
    let whole : number 16 k ≡ number 8 k * pow10 8 + number 8 (skip 8 k) = number-split 8 8 k h in
    let small' : number 8 (skip 8 k) < pow10 8 = number-lt-pow10 8 (skip 8 k) right in
    let first = digits-number_from_zero k s left in
    let second = digits-number_from_zero (skip 8 k) s right in
    (
      (number 8 k, number 8 (skip 8 k)),
      rw (first, second)
          (ap (λ b. ok (b, (number 8 k, number 8 (skip 8 k)))) (ground (arith, whole))),
      omega (arith, whole),
      small',
    )
