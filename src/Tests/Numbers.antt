-- ===== src/Tests/Numbers.antt =====
-- `Random` and the encodings.
use persist_tree_test.Base.{
  ℕ, ◌*◌, ◌%◌, ◌≤◌, ◌<◌, ◌≡◌, refl, arith, List, [], ◌∷◌, ◌++◌, some, length, All,
}
use persist_tree_test.Random.{m, a, good_seed, next_seed, next}
use persist_tree_test.Random.Cycle.{IsSeed, next_seed-step, next_seed-injective, next_seed-stuck}
use persist_tree_test.Varint.{encode_varint32, put_varint32, put_length_prefixed_slice, or_b, byte}
use persist_tree_test.Varint.RoundTrip.{
  groups, read_varint, read_slice, encode_varint32-eq-groups, encode_varint32_bounds,
  read-put_varint32, read-put_length_prefixed_slice,
}

first_draws : next (good_seed 301) ≡ (5058907, 5058907)
unfolding next good_seed
first_draws = refl

encode_300 : encode_varint32 300 ≡ 0xac ∷ 0x02 ∷ []
unfolding encode_varint32 or_b byte
encode_300 = refl

encode_max : encode_varint32 0xffff_ffff ≡ 0xff ∷ 0xff ∷ 0xff ∷ 0xff ∷ 0x0f ∷ []
unfolding encode_varint32 or_b byte
encode_max = refl

two-IsSeed : IsSeed 2
two-IsSeed = record { pos = omega arith; below = omega arith }

next_seed-step_example : (next_seed 2 ≡ (2 * a) % m) × IsSeed (next_seed 2)
next_seed-step_example = next_seed-step 2 two-IsSeed

next_seed-injective_example : ◌≡◌ {A = ℕ} 2 2
next_seed-injective_example = next_seed-injective 2 2 two-IsSeed two-IsSeed refl

next_seed-stuck_example : (good_seed m ≡ m) × (next (good_seed m) ≡ (m, good_seed m))
next_seed-stuck_example = next_seed-stuck m (omega arith)

encode_varint32-eq-groups_example : encode_varint32 300 ≡ groups 5 300
encode_varint32-eq-groups_example = encode_varint32-eq-groups 300 (omega arith)

encode_varint32_bounds_example :
    (1 ≤ length (encode_varint32 0xffff_ffff))
    × (length (encode_varint32 0xffff_ffff) ≤ 5)
    × All (λ x. x < 256) (encode_varint32 0xffff_ffff)
encode_varint32_bounds_example = encode_varint32_bounds 0xffff_ffff (omega arith)

read-put_varint32_example :
    (tail : List ℕ) × (put_varint32 (7 ∷ []) 300 ≡ (7 ∷ []) ++ tail)
    × (read_varint (tail ++ (9 ∷ [])) ≡ some (300, 9 ∷ []))
read-put_varint32_example = read-put_varint32 (7 ∷ []) (9 ∷ []) 300 (omega arith)

read-put_length_prefixed_slice_example :
    (tail : List ℕ) × (put_length_prefixed_slice (7 ∷ []) (1 ∷ 2 ∷ []) ≡ (7 ∷ []) ++ tail)
    × (read_slice (tail ++ (9 ∷ [])) ≡ some (1 ∷ 2 ∷ [], 9 ∷ []))
read-put_length_prefixed_slice_example =
    read-put_length_prefixed_slice (7 ∷ []) (1 ∷ 2 ∷ []) (9 ∷ []) (omega arith)
