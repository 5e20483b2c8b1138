-- ===== src/WriteBuffer/Count.antt =====
-- How many keys fill a list in DRAM.
use native.Mathlib.Nat.{le-div_iff_mul-le, mul-add-mod_self_right, mod-eq_of_lt}
use persist_tree_test.Base.{
  ℕ, zero, suc, ◌+◌, ◌-◌, ◌*◌, ◌/◌, ◌%◌, ◌^◌, ◌==◌, ◌<◌, ◌≤◌, ◌≡◌, ◌∙◌, ap, sym, arith, inl, inr,
  leb, true, false, if◌then◌else◌, lt_cases, ne→==_false,
}

-- The least number of keys of `size` bytes, but one at least, that take `max` bytes.
abbrev pub keys_per_list : ℕ → ℕ → ℕ
keys_per_list max size = if max == 0 then 1 else (max + size - 1) / size

pub keys_per_list-pos : (max size : ℕ) → 0 < size → 0 < keys_per_list max size
keys_per_list-pos zero size pos = omega arith
keys_per_list-pos (suc max) size pos =
    rw (ne→==_false (suc max) 0 (omega arith)) ((le-div_iff_mul-le pos).1 (omega arith))

suc_times : (k c : ℕ) → suc k * c ≡ k * c + c
suc_times k c = grind arith

-- Fewer keys do not fill a list.
pub keys_per_list-lt :
    (max size k : ℕ) → 0 < size → k < keys_per_list max size → 0 < k → k * size < max
keys_per_list-lt zero size k pos lt some = absurd (omega (arith, lt, some))
keys_per_list-lt (suc max) size k pos lt some =
    let lt' : suc k ≤ (suc max + size - 1) / size =
      rw (ne→==_false (suc max) 0 (omega arith)) at lt in
    let whole : suc k * size ≤ suc max + size - 1 = (le-div_iff_mul-le pos).0 lt' in
    omega (arith, whole, suc_times k size)

-- So many keys fill a list.
pub keys_per_list-le : (max size k : ℕ) → 0 < size → keys_per_list max size ≤ k → max ≤ k * size
keys_per_list-le zero size k pos le = omega arith
keys_per_list-le (suc max) size k pos le = elim (lt_cases (k * size) (suc max)) [
  | inr full ↦ full
  | inl lt ↦
      let more : suc k ≤ (suc max + size - 1) / size =
        (le-div_iff_mul-le pos).1 (omega (arith, lt, suc_times k size)) in
      let le' : (suc max + size - 1) / size ≤ k =
        rw (ne→==_false (suc max) 0 (omega arith)) at le in
      absurd (omega (arith, more, le'))
]

-- Full lists have been flushed, and the list in DRAM is not full.
pub record Counted (max size cur flushed waiting : ℕ) : Type 0 where
  pub lists : ℕ
  pub whole : flushed ≡ lists * keys_per_list max size
  pub under : waiting < keys_per_list max size
  pub counted : cur ≡ waiting * size

times_le : (a b c d : ℕ) → a ≤ b → c ≤ d → a * c ≤ b * d
times_le a b c d le le' = grind arith

module _ (max size : ℕ) (some_size : 0 < size) (small_size : size ≤ 2 ^ 21) where
  pub none-Counted : Counted max size 0 0 0
  none-Counted = record {
    lists = 0;
    whole = omega arith;
    under = keys_per_list-pos max size some_size;
    counted = omega arith;
  }

  module _ (cur flushed waiting : ℕ) (few : waiting < 10 ^ 8)
      (c : Counted max size cur flushed waiting) where
    abbrev cur' : ℕ
    cur' = (cur + size) % 2 ^ 64

    cur'-eq : cur' ≡ suc waiting * size
    cur'-eq = omega (
      arith,
      c.counted,
      suc_times waiting size,
      times_le (suc waiting) (10 ^ 8) size (2 ^ 21) (omega (arith, few)) small_size,
    )

    -- The list is full, and is flushed.
    pub full-Counted : leb max cur' ≡ true → Counted max size 0 (flushed + suc waiting) 0
    full-Counted full = elim (lt_cases (suc waiting) (keys_per_list max size)) [
      | inl lt ↦ absurd (
          ground (
            arith,
            full,
            cur'-eq,
            keys_per_list-lt max size (suc waiting) some_size lt (omega arith),
          ))
      | inr le ↦ record {
        lists = suc c.lists;
        whole = omega (arith, c.whole, c.under, le, suc_times c.lists (keys_per_list max size));
        under = keys_per_list-pos max size some_size;
        counted = omega arith;
      }
    ]

    -- The list is not full.
    pub under-Counted : leb max cur' ≡ false → Counted max size cur' flushed (suc waiting)
    under-Counted under = elim (lt_cases (suc waiting) (keys_per_list max size)) [
      | inl lt ↦ record { lists = c.lists; whole = c.whole; under = lt; counted = cur'-eq }
      | inr le ↦
          absurd
            (ground (arith, under, cur'-eq, keys_per_list-le max size (suc waiting) some_size le))
    ]

-- What is left in DRAM at the end.
pub Counted-mod :
    {max size cur flushed waiting : ℕ} (ops : ℕ)
    → 0 < size
    → Counted max size cur flushed waiting
    → flushed + waiting ≡ ops
    → ops % keys_per_list max size ≡ waiting
Counted-mod {max} {size} {flushed} {waiting} ops pos c e =
    ap (λ n. n % keys_per_list max size) (sym e ∙ ap (λ n. n + waiting) c.whole)
    ∙ mul-add-mod_self_right c.lists (keys_per_list max size) waiting
    ∙ mod-eq_of_lt c.under
