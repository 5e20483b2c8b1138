-- ===== src/Random/Cycle.antt =====
-- `Next` is multiplication by 16807 modulo 2^31 - 1, and it permutes the seeds 1, …, 2^31 - 2.
use persist_tree_test.Base.{ℕ, ◌*◌, ◌%◌, ◌^◌, ◌≤◌, ◌<◌, ◌≡◌, ◌≢◌, sym, ap, ◌∙◌, arith}
use persist_tree_test.Random.{m, a, good_seed, next_seed, next}

-- The seeds that the class allows.
pub record IsSeed (s : ℕ) : Type 0 where
  pub pos : 0 < s
  pub below : s < m

-- A seed is nonzero and at most M after construction.
pub good_seed_range : (s : ℕ) → (0 < good_seed s) × (good_seed s ≤ m)
unfolding good_seed
good_seed_range s = ground arith

pub next_seed-mod : (s : ℕ) → s ≤ m → 0 < s → s ≢ m → next_seed s ≡ (s * a) % m
unfolding next_seed
next_seed-mod s h p ne = ground arith

mul-mod_pos : (s : ℕ) → IsSeed s → 0 < (s * a) % m
mul-mod_pos s h = omega arith

-- 1407677000 is the inverse of 16807 modulo 2^31 - 1.
mul-mod_cancel : (s : ℕ) → s < m → (((s * a) % m) * 1407677000) % m ≡ s
mul-mod_cancel s h = omega arith

-- `Next` steps the seed to 16807 * seed modulo 2^31 - 1, and keeps it a seed.
pub next_seed-step : (s : ℕ) → IsSeed s → (next_seed s ≡ (s * a) % m) × IsSeed (next_seed s)
next_seed-step s h =
    let e = next_seed-mod s (omega arith) h.pos (omega arith) in
    (e, rw e (record { pos = mul-mod_pos s h; below = omega arith }))

-- Two different seeds never meet.
pub next_seed-injective : (s t : ℕ) → IsSeed s → IsSeed t → next_seed s ≡ next_seed t → s ≡ t
next_seed-injective s t hs ht e =
    sym (mul-mod_cancel s hs.below)
    ∙ ap (λ x. (x * 1407677000) % m) (sym (next_seed-step s hs).0 ∙ e ∙ (next_seed-step t ht).0)
    ∙ mul-mod_cancel t ht.below

-- The construction accepts the seed M, on which `Next` stands still.
pub next_seed-stuck :
    (s : ℕ) → s % 2 ^ 31 ≡ m → (good_seed s ≡ m) × (next (good_seed s) ≡ (m, good_seed s))
unfolding good_seed next
next_seed-stuck s h = ground arith
