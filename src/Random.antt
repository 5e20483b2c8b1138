-- ===== src/Random.antt =====
-- random.h and random.cc, class `Random`: the generator behind the heights of both skip lists. A
-- generator is its `seed_`; the operations return the new seed.
pub mod Cycle
pub mod Wide
use persist_tree_test.Base.{
  ℕ, ◌+◌, ◌-◌, ◌*◌, ◌/◌, ◌%◌, ◌^◌, Bool, Option, none, some, ltb, ◌==◌, if◌then◌else◌,
}

-- `M = 2147483647L`, which is 2^31 - 1
abbrev pub m : ℕ
m = 2147483647

abbrev pub a : ℕ
a = 16807

abbrev pub k_max_next : ℕ
k_max_next = m

-- `s & M` keeps the low 31 bits.
unfoldable pub good_seed : ℕ → ℕ
good_seed s = if (s % 2 ^ 31) == 0 then 1 else s % 2 ^ 31

unfoldable pub reset : ℕ → ℕ
unfolding good_seed
reset s = good_seed s

-- `product` is a uint64_t, and the sum is cast to uint32_t.
pub next_seed : ℕ → ℕ
next_seed seed =
    let product = (seed * a) % 2 ^ 64 in
    let reduced = (product / 2 ^ 31 + product % 2 ^ 31) % 2 ^ 32 in
    if ltb m reduced then reduced - m else reduced

-- `Next()`: the value returned is the new seed.
unfoldable pub next : ℕ → ℕ × ℕ
unfolding next_seed
next seed = (next_seed seed, next_seed seed)

-- `Uniform(n)` for n > 0
uniform : ℕ → ℕ → ℕ × ℕ
uniform n seed = let (v, seed') = next seed in (v % n, seed')

unfoldable pub one_in : ℕ → ℕ → Bool × ℕ
one_in n seed = let (v, seed') = next seed in ((v % n) == 0, seed')

-- `Skewed(max_log)`, `1 << k` an int: for k up to 30
pub skewed : ℕ → ℕ → ℕ × ℕ
unfolding uniform
skewed max_log seed = let (k, seed') = uniform (max_log + 1) seed in uniform (2 ^ k) seed'

-- `GetTLSInstance`: `instance` is the state of the generator that the static pointer shows, `none` before
-- the first call, and `hash` what the library's hash makes of the id of the thread that calls. Without
-- ROCKSDB_SUPPORT_THREAD_LOCAL, which the build does not define, all threads share the pointer.
unfoldable pub get_tls_instance : (hash : ℕ) → (instance : Option ℕ) → ℕ
unfolding good_seed
get_tls_instance hash none = good_seed (hash % 2 ^ 32)
get_tls_instance hash (some seed) = seed
