-- ===== src/Varint.antt =====
-- The encodings at the top of log_batch.cc: a 32-bit number as 1 to 5 bytes of 7 bits each, lowest
-- first, and a byte string behind its length. A string is the list of its bytes.
pub mod RoundTrip
use persist_tree_test.Base.{
  ℕ, ◌+◌, ◌/◌, ◌%◌, ◌^◌, ◌++◌, ◌==◌, List, [], ◌∷◌, ltb, if◌then◌else◌, length,
}

-- `B = 128`
abbrev b : ℕ
b = 128

-- `v | B`: bit 7 is set, the other bits stay.
unfoldable pub or_b : ℕ → ℕ
or_b v = if (v / 128 % 2) == 1 then v else v + b

-- A store through `unsigned char *` keeps the low 8 bits.
unfoldable pub byte : ℕ → ℕ
byte v = v % 2 ^ 8

-- The bytes that `EncodeVarint32` writes at `dst`; their number is the result minus `dst`.
unfoldable pub encode_varint32 : ℕ → List ℕ
encode_varint32 v =
    if ltb v (2 ^ 7)
    then byte v ∷ []
    else if ltb v (2 ^ 14)
    then byte (or_b v) ∷ byte (v / 2 ^ 7) ∷ []
    else if ltb v (2 ^ 21)
    then byte (or_b v) ∷ byte (or_b (v / 2 ^ 7)) ∷ byte (v / 2 ^ 14) ∷ []
    else if ltb v (2 ^ 28)
    then byte (or_b v) ∷ byte (or_b (v / 2 ^ 7)) ∷ byte (or_b (v / 2 ^ 14)) ∷ byte (v / 2 ^ 21) ∷ []
    else byte (or_b v)
      ∷ byte (or_b (v / 2 ^ 7))
      ∷ byte (or_b (v / 2 ^ 14))
      ∷ byte (or_b (v / 2 ^ 21))
      ∷ byte (v / 2 ^ 28)
      ∷ []

pub put_varint32 : List ℕ → ℕ → List ℕ
put_varint32 dst v = dst ++ encode_varint32 v

-- `value.size()` is passed as a uint32_t.
pub put_length_prefixed_slice : List ℕ → List ℕ → List ℕ
unfolding put_varint32
put_length_prefixed_slice dst value = put_varint32 dst (length value % 2 ^ 32) ++ value
