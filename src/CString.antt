-- ===== src/CString.antt =====
-- C strings as the program uses them: a buffer is the list of its bytes, and reading behind its end
-- is undefined behaviour.
pub mod Rank
pub mod Digits
pub mod Printf
use Prim.Native.Nat.{compare, Ordering, lt, eq, gt}
use persist_tree_test.Base.{ℕ, zero, suc, ◌++◌, ◌==◌, List, [], ◌∷◌, if◌then◌else◌}
use persist_tree_test.Base.Outcome.{Outcome, ok, fault, ◌>>=◌}

-- `c_str()` of a `std::string`: its bytes and a NUL
abbrev pub c_str : List ℕ → List ℕ
c_str s = s ++ (0 ∷ [])

-- `strncmp(a, b, n)` of the C library: the sign of its result.
unfoldable pub strncmp : List ℕ → List ℕ → ℕ → Outcome Ordering
strncmp a b zero = ok eq
strncmp [] b (suc n) = fault
strncmp (x ∷ a) [] (suc n) = fault
strncmp (x ∷ a) (y ∷ b) (suc n) =
    let rest = strncmp a b n in
    elim (compare x y) [ lt ↦ ok lt | gt ↦ ok gt | eq ↦ if x == 0 then ok eq else rest ]

-- `std::string(p)` for a `char *`: the bytes up to the first NUL.
pub from_c_str : List ℕ → Outcome (List ℕ)
from_c_str [] = fault
from_c_str (x ∷ s) = let rest = from_c_str s in if x == 0 then ok [] else (do t ← rest; ok (x ∷ t))
