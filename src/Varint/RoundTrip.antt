-- ===== src/Varint/RoundTrip.antt =====
-- A reader for the encodings, independent of the code, and what it makes of what the code writes.
use persist_tree_test.Base.{
  ℕ, suc, zero, ◌+◌, ◌-◌, ◌*◌, ◌/◌, ◌%◌, ◌^◌, ◌≤◌, ◌<◌, ◌≡◌, refl, arith, ◌⊎◌, inr, List, [], ◌∷◌,
  ◌++◌, Option, none, some, ltb, if◌then◌else◌, length, append_assoc, All,
}
use persist_tree_test.Varint.{byte, or_b, encode_varint32, put_varint32, put_length_prefixed_slice}

-- Reads one number: 7 bits of each byte, lowest first, up to the first byte below 128.
pub read_varint : List ℕ → Option (ℕ × List ℕ)
read_varint [] = none
read_varint (x ∷ xs) =
    if ltb x 128
    then some (x, xs)
    else elim (read_varint xs) [ none ↦ none | some (v, rest) ↦ some (x - 128 + 128 * v, rest) ]

-- `n` bytes and what follows them.
pub split : ℕ → List ℕ → Option (List ℕ × List ℕ)
split zero xs = some ([], xs)
split (suc n) [] = none
split (suc n) (x ∷ xs) = elim (split n xs) [
  | none ↦ none
  | some (taken, rest) ↦ some (x ∷ taken, rest)
]

-- Reads a length and that many bytes.
pub read_slice : List ℕ → Option (List ℕ × List ℕ)
read_slice xs = elim (read_varint xs) [ none ↦ none | some (n, rest) ↦ split n rest ]

-- The encoding group by group: `k` groups at most.
pub groups : ℕ → ℕ → List ℕ
groups zero v = []
groups (suc k) v = if ltb v 128 then v ∷ [] else (128 + v % 128) ∷ groups k (v / 128)

-- What `k` groups can hold.
abbrev pub room : ℕ → ℕ
room zero = 1
room (suc k) = 128 * room k

low_byte : (v : ℕ) → byte (or_b v) ≡ 128 + v % 128
unfolding byte or_b
low_byte v = ground arith

last_byte : (v : ℕ) → v < 256 → byte v ≡ v
unfolding byte
last_byte v h = omega arith

-- The unrolled writer is the loop over groups of 7 bits.
pub encode_varint32-eq-groups : (v : ℕ) → v < 2 ^ 32 → encode_varint32 v ≡ groups 5 v
unfolding encode_varint32 groups
encode_varint32-eq-groups v h = simp low_byte (
    ground (
      arith,
      last_byte v,
      last_byte (v / 2 ^ 7),
      last_byte (v / 2 ^ 14),
      last_byte (v / 2 ^ 21),
      last_byte (v / 2 ^ 28),
    ))

groups_bounds : (k v : ℕ) → v < room k → (length (groups k v) ≤ k) × All (λ x. x < 256) (groups k v)
unfolding groups
groups_bounds zero v h = omega arith
groups_bounds (suc k) v h = ground (arith, groups_bounds k (v / 128))

-- The writer fills 1 to 5 places, each with a byte, so it stays inside `char buf[5]`.
pub encode_varint32_bounds :
    (v : ℕ)
    → v < 2 ^ 32
    → (1 ≤ length (encode_varint32 v))
      × (length (encode_varint32 v) ≤ 5)
      × All (λ x. x < 256) (encode_varint32 v)
unfolding groups
encode_varint32_bounds v h =
    let b = groups_bounds 5 v (omega arith) in
    rw (encode_varint32-eq-groups v h) (ground arith, b.0, b.1)

read_varint-groups :
    (k v : ℕ) (rest : List ℕ)
    → v < room k
    → (0 < v) ⊎ (0 < k)
    → read_varint (groups k v ++ rest) ≡ some (v, rest)
unfolding read_varint groups
read_varint-groups zero v rest h o = absurd (omega arith)
read_varint-groups (suc k) v rest h o = ground (arith, read_varint-groups k (v / 128) rest)

split-append : (xs rest : List ℕ) → split (length xs) (xs ++ rest) ≡ some (xs, rest)
unfolding split
split-append [] rest = refl
split-append (x ∷ xs) rest = ground (arith, split-append xs rest)

-- Whatever is written behind `dst` is read back: a reader that has come past `dst` finds the
-- value, and what follows it untouched.
pub read-put_varint32 :
    (dst rest : List ℕ) (v : ℕ)
    → v < 2 ^ 32
    → (tail : List ℕ) × (put_varint32 dst v ≡ dst ++ tail)
      × (read_varint (tail ++ rest) ≡ some (v, rest))
unfolding put_varint32
read-put_varint32 dst rest v h = (
  encode_varint32 v,
  refl,
  rw (encode_varint32-eq-groups v h)
      (read_varint-groups 5 v rest (omega arith) (inr (omega arith))),
)

-- A slice shorter than 2^32 bytes that is written behind `dst` is read back whole.
pub read-put_length_prefixed_slice :
    (dst value rest : List ℕ)
    → length value < 2 ^ 32
    → (tail : List ℕ) × (put_length_prefixed_slice dst value ≡ dst ++ tail)
      × (read_slice (tail ++ rest) ≡ some (value, rest))
unfolding put_length_prefixed_slice put_varint32 read_slice
read-put_length_prefixed_slice dst value rest h = (
  encode_varint32 (length value) ++ value,
  rw fits (append_assoc dst _ value),
  rw (append_assoc, encode_varint32-eq-groups (length value) h, whole, read_slice)
      (split-append value rest),
)
  where
    fits : length value % 2 ^ 32 ≡ length value
    fits = omega arith

    whole :
        read_varint (groups 5 (length value) ++ (value ++ rest))
        ≡ some (length value, value ++ rest)
    whole = read_varint-groups 5 (length value) (value ++ rest) (omega arith) (inr (omega arith))
