-- ===== src/PersistentAllocator/Blocks.antt =====
-- The blocks that a run of `Allocate` calls hands out.
use persist_tree_test.Base.{ℕ, ◌+◌, ◌%◌, ◌^◌, ◌<◌, ◌≤◌, ◌≡◌, ◌∙◌, ap, subst, arith, List, [], ◌∷◌}
use persist_tree_test.PersistentAllocator.{Allocator, Address, bump}

-- The address and the size of a block.
abbrev pub Block : Type 0
Block = Address × ℕ

pub bump_all : Allocator → List ℕ → List Block × Allocator
bump_all a [] = ([], a)
bump_all a (n ∷ sizes) =
    let (p, a') = bump a n in let (blocks, a'') = bump_all a' sizes in ((p, n) ∷ blocks, a'')

-- The blocks lie one behind the other between two addresses.
abbrev pub Between : Address → List Block → Address → Type 0
Between lo [] hi = lo ≤ hi
Between lo ((p, n) ∷ blocks) hi = (lo ≤ p) × Between (p + n) blocks hi

abbrev pub total : List ℕ → ℕ
total [] = 0
total (n ∷ sizes) = n + total sizes

-- When the cursor and the sizes add up to less than 2^64, the blocks of a run do not overlap: each
-- begins where the ones before it have ended, the first at the cursor. The cursor moves by the sum of
-- the sizes, to the end of the last or behind it, and nothing else of the allocator changes.
pub bump_all-Between :
    (a : Allocator) (sizes : List ℕ)
    → a.cur_index + total sizes < 2 ^ 64
    → Between a.cur_index (bump_all a sizes).0 (a.cur_index + total sizes)
      × ((bump_all a sizes).1 ≡ record a { cur_index = a.cur_index + total sizes })
unfolding bump_all bump
bump_all-Between a [] few = (omega arith, ap (λ c. record a { cur_index = c }) (omega arith))
bump_all-Between a (n ∷ sizes) few =
    let moved : (a.cur_index + n) % 2 ^ 64 ≡ a.cur_index + n = omega (arith, few) in
    let (blocks, after) =
      bump_all-Between (record a { cur_index = a.cur_index + n }) sizes (omega (arith, few)) in
    let end : a.cur_index + n + total sizes ≡ a.cur_index + (n + total sizes) = omega arith in
    rw moved (
      (
        omega arith,
        subst
            (λ c.
              Between (a.cur_index + n)
                (bump_all (record a { cur_index = a.cur_index + n }) sizes).0 c)
            end blocks,
      ),
      after ∙ ap (λ c. record a { cur_index = c }) end,
    )
