-- ===== src/Driver/Texts.antt =====
-- The keys that the driver writes.
use Prim.Native.Nat.{compare, Ordering}
use persist_tree_test.Base.{
  ℕ, zero, suc, ◌+◌, ◌-◌, ◌*◌, ◌%◌, ◌^◌, ◌<◌, ◌≤◌, ◌≡◌, ◌≢◌, refl, ◌∙◌, sym, arith, List, [], ◌∷◌,
  ◌++◌, All, All-append, length, length-append, length-replicate, replicate, take_all, subst,
}
use persist_tree_test.Base.Outcome.{ok}
use persist_tree_test.CString.Rank.{IsKey, from_c_str-append}
use persist_tree_test.CString.Digits.{
  HasDigits, HasDigits-IsKey, HasDigits-append, number, number-split, compare-number,
}
use persist_tree_test.CString.Printf.{
  decimal, decimal-HasDigits, number-decimal, skip-decimal, length-decimal, print_08-decimal,
  decimal-no_nul,
}
use persist_tree_test.Towers.Falls.{Unlike, AllUnlike}
use persist_tree_test.Driver.{key_text}

-- The key of round `i` with the number `n`.
pub text : (value_size n i : ℕ) → List ℕ
text value_size n i = decimal 8 n ++ (decimal 8 i ++ replicate value_size b'v')

module _ (v n i : ℕ) (small_n : n < 10 ^ 8) (small_i : i < 10 ^ 8) where
  pub length-text : length (text v n i) ≡ 16 + v
  unfolding text
  length-text = omega (
    arith,
    length-append (decimal 8 n) (decimal 8 i ++ replicate v b'v'),
    length-append (decimal 8 i) (replicate v b'v'),
    length-decimal 8 n,
    length-decimal 8 i,
    length-replicate {A = ℕ} v b'v',
  )

  pub text-HasDigits : HasDigits 16 (text v n i)
  unfolding text
  text-HasDigits =
      HasDigits-append 8 8 (decimal 8 n ++ (decimal 8 i ++ replicate v b'v'))
        (decimal-HasDigits 8 n _ small_n)
        (subst (HasDigits 8) (sym (skip-decimal 8 n (decimal 8 i ++ replicate v b'v')))
          (decimal-HasDigits 8 i _ small_i))

  pub number-text : number 16 (text v n i) ≡ n * 10 ^ 8 + i
  unfolding text
  number-text =
      let rest = decimal 8 i ++ replicate v b'v' in
      number-split 8 8 (decimal 8 n ++ rest) text-HasDigits
      ∙ rw
          (
            number-decimal 8 n rest small_n,
            skip-decimal 8 n rest,
            number-decimal 8 i (replicate v b'v') small_i,
          )
          refl

  pub text-IsKey : IsKey 16 (text v n i)
  text-IsKey = HasDigits-IsKey 16 (text v n i) (omega arith) text-HasDigits

  pub text-no_nul : All (λ c. 0 < c) (text v n i)
  unfolding text
  text-no_nul =
      All-append _ (decimal 8 n) (decimal 8 i ++ replicate v b'v') (decimal-no_nul 8 n)
        (All-append _ (decimal 8 i) (replicate v b'v') (decimal-no_nul 8 i) (replicate-no_nul v))
    where
      replicate-no_nul : (w : ℕ) → All (λ c. 0 < c) (replicate w b'v')
      replicate-no_nul zero = tt
      replicate-no_nul (suc w) = (omega arith, replicate-no_nul w)

  -- What the driver puts into its buffer and reads from it.
  pub key_text-text : v + 17 < 2 ^ 64 → key_text v n i ≡ ok (text v n i)
  unfolding key_text text
  key_text-text fits =
      rw
        (
          print_08-decimal n small_n,
          print_08-decimal i small_i,
          take_all ((16 + v + 1) % 2 ^ 64 - 1) (text v n i) (omega (arith, length-text)),
        )
        (from_c_str-append (text v n i) [] text-no_nul)

-- Keys of different rounds have different ranks.
pub text-Unlike :
    (v n i m j : ℕ)
    → n < 10 ^ 8
    → i < 10 ^ 8
    → m < 10 ^ 8
    → j < 10 ^ 8
    → i ≢ j
    → Unlike 16 (text v n i) (text v m j)
text-Unlike v n i m j hn hi hm hj ne e =
    let a = text v n i in
    let b = text v m j in
    let same : number 16 a ≡ number 16 b = eq_of_compare (
      compare-number 16 a b (text-HasDigits v n i hn hi) (text-HasDigits v m j hm hj)
      ∙ compare_of_eq e) in
    ne (omega (arith, number-text v n i hn hi, number-text v m j hm hj, same))
  where
    eq_of_compare : {x y : ℕ} → compare x y ≡ Ordering.eq → x ≡ y
    eq_of_compare c = ground arith

    compare_of_eq : {x y : ℕ} → x ≡ y → compare x y ≡ Ordering.eq
    compare_of_eq c = ground arith

-- The keys of the rounds from `i` on, with these numbers.
abbrev pub texts : ℕ → ℕ → List ℕ → List (List ℕ)
texts v i [] = []
texts v i (n ∷ ns) = text v n i ∷ texts v (i + 1) ns

pub length-texts : (v i : ℕ) (ns : List ℕ) → length (texts v i ns) ≡ length ns
length-texts v i [] = refl
length-texts v i (n ∷ ns) = omega (arith, length-texts v (i + 1) ns)

module _ (v : ℕ) where
  later-Unlike :
      (n i j : ℕ) (ns : List ℕ)
      → n < 10 ^ 8
      → i < j
      → j + length ns ≤ 10 ^ 8
      → All (λ m. m < 10 ^ 8) ns
      → All (Unlike 16 (text v n i)) (texts v j ns)
  later-Unlike n i j [] hn lt le h = tt
  later-Unlike n i j (m ∷ ns) hn lt le h = (
    text-Unlike v n i m j hn (omega arith) h.0 (omega arith) (omega arith),
    later-Unlike n i (j + 1) ns hn (omega arith) (omega arith) h.1,
  )

  pub texts-AllUnlike :
      (i : ℕ) (ns : List ℕ)
      → i + length ns ≤ 10 ^ 8
      → All (λ m. m < 10 ^ 8) ns
      → AllUnlike 16 (texts v i ns)
  texts-AllUnlike i [] le h = tt
  texts-AllUnlike i (n ∷ ns) le h = (
    later-Unlike n i (i + 1) ns h.0 (omega arith) (omega arith) h.1,
    texts-AllUnlike (i + 1) ns (omega arith) h.1,
  )

  -- Every key shows a number above 0 with its digits.
  pub texts-shown :
      (i : ℕ) (ns : List ℕ)
      → 0 < i
      → i + length ns ≤ 10 ^ 8
      → All (λ m. m < 10 ^ 8) ns
      → All (λ k. HasDigits 16 k × (0 < number 16 k)) (texts v i ns)
  texts-shown i [] pos le h = tt
  texts-shown i (n ∷ ns) pos le h = (
    (text-HasDigits v n i h.0 (omega arith), omega (arith, number-text v n i h.0 (omega arith))),
    texts-shown (i + 1) ns (omega arith) (omega arith) h.1,
  )
