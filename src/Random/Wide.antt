-- ===== src/Random/Wide.antt =====
-- random.h, class `Random64`, over the generator and the distribution of the C++ library. Nothing calls it.
use native.Mathlib.Nat.{pow-le-pow_right}
use persist_tree_test.Base.{ℕ, ◌+◌, ◌-◌, ◌%◌, ◌^◌, ◌<◌, ◌≤◌, arith, Bool, ◌==◌}

-- `generator` is a call of the `mt19937_64`, and `distribution n` one of a
-- `uniform_int_distribution(0, n)`, each with the state that it leaves.
module _ {ℓ} {S : Type ℓ} (generator : S → ℕ × S) (distribution : ℕ → S → ℕ × S) where
  next : S → ℕ × S
  next s = generator s

  -- `Uniform(n)` for n > 0
  uniform : ℕ → S → ℕ × S
  uniform n s = distribution ((n + 2 ^ 64 - 1) % 2 ^ 64) s

  one_in : ℕ → S → Bool × S
  one_in n s = let (v, s') = uniform n s in (v == 0, s')

  -- `Skewed(max_log)`, for max_log up to 63
  skewed : ℕ → S → ℕ × S
  skewed max_log s = let (k, s') = uniform (max_log + 1) s in uniform (2 ^ k) s'

  -- The distribution stays in its range.
  module _ (in_range : (n : ℕ) (s : S) → (distribution n s).0 ≤ n) where
    uniform_below : (n : ℕ) (s : S) → 0 < n → n < 2 ^ 64 → (uniform n s).0 < n
    unfolding uniform
    uniform_below n s pos lt = omega (arith, in_range ((n + 2 ^ 64 - 1) % 2 ^ 64) s)

    -- A skewed number is below 2^max_log.
    skewed_below : (max_log : ℕ) (s : S) → max_log < 64 → (skewed max_log s).0 < 2 ^ max_log
    unfolding skewed
    skewed_below max_log s lt =
        let k : ℕ = (uniform (max_log + 1) s).0 in
        let le : k < max_log + 1 = uniform_below (max_log + 1) s (omega arith) (omega arith) in
        let two : 0 < 2 = omega arith in
        let some : 2 ^ 0 ≤ 2 ^ k = pow-le-pow_right two {i = 0} {j = k} (omega arith) in
        let few : 2 ^ k ≤ 2 ^ 63 = pow-le-pow_right two {i = k} {j = 63} (omega (arith, le, lt)) in
        let below : 2 ^ k ≤ 2 ^ max_log =
          pow-le-pow_right two {i = k} {j = max_log} (omega (arith, le)) in
        omega (
          arith,
          below,
          uniform_below (2 ^ k) (uniform (max_log + 1) s).1 (omega (arith, some))
              (omega (arith, few)),
        )
