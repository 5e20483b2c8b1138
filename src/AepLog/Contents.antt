-- ===== src/AepLog/Contents.antt =====
-- What `AEP_LOG::Put` leaves in the log.
use persist_tree_test.Base.{
  ℕ, zero, suc, ◌+◌, ◌-◌, ◌%◌, ◌^◌, ◌<◌, ◌≤◌, ◌≡◌, refl, ◌∙◌, sym, ap, arith, List, [], ◌∷◌, ◌++◌,
  append_assoc, append-nil, length, ltb, update, Bool-cases, inl, inr, le→ltb_false, All,
  All-append, subst,
}
use persist_tree_test.Base.Outcome.{Outcome, ok, ◌>>=◌}
use persist_tree_test.AepLog.{Entry, Log, new_entry, init, copy, write, put}

-- The first bytes of an array.
abbrev pub read : ℕ → (ℕ → ℕ) → List ℕ
read zero bytes = []
read (suc n) bytes = read n bytes ++ (bytes n ∷ [])

read-update : (n m x : ℕ) (bytes : ℕ → ℕ) → n ≤ m → read n (update bytes m x) ≡ read n bytes
read-update zero m x bytes le = refl
read-update (suc n) m x bytes le =
    rw (read-update n m x bytes (omega arith)) (ap (λ y. read n bytes ++ (y ∷ [])) (ground arith))

plus_zero : (n : ℕ) → n + 0 ≡ n
plus_zero n = omega arith

plus_one : (n : ℕ) → n + 1 ≡ suc n
plus_one n = omega arith

read-copy :
    (key : List ℕ) (oft : ℕ) (bytes : ℕ → ℕ)
    → read (oft + length key) (copy key oft bytes) ≡ read oft bytes ++ key
unfolding copy
read-copy [] oft bytes = ap (λ n. read n bytes) (plus_zero oft) ∙ sym (append-nil (read oft bytes))
read-copy (x ∷ key) oft bytes =
    let at : oft + suc (length key) ≡ (oft + 1) + length key = omega arith in
    let split : read (oft + 1) (update bytes oft x) ≡ read oft bytes ++ (x ∷ []) =
      ap (λ n. read n (update bytes oft x)) (plus_one oft)
      ∙ rw (read-update oft oft x bytes (omega arith))
          (ap (λ y. read oft bytes ++ (y ∷ [])) (ground arith)) in
    ap (λ n. read n (copy key (oft + 1) (update bytes oft x))) at
    ∙ read-copy key (oft + 1) (update bytes oft x)
    ∙ ap (λ xs. xs ++ key) split
    ∙ append_assoc (read oft bytes) (x ∷ []) key

-- The bytes that were written to the entries, in their order.
abbrev pub written : Entry → List ℕ
written e = read e.w_oft e.bytes

abbrev pub all_written : List Entry → List ℕ
all_written [] = []
all_written (e ∷ es) = written e ++ all_written es

abbrev pub contents : Log → List ℕ
contents l = all_written l.before_tail ++ written l.tail

all_written-append :
    (es : List Entry) (e : Entry) → all_written (es ++ (e ∷ [])) ≡ all_written es ++ written e
all_written-append [] e = append-nil (written e)
all_written-append (d ∷ es) e =
    ap (λ xs. written d ++ xs) (all_written-append es e)
    ∙ sym (append_assoc (written d) (all_written es) (written e))

-- Nothing is written behind the arrays of the log.
pub record Fits (l : Log) : Type 0 where
  pub tail_fits : l.tail.w_oft ≤ l.tail.size
  pub tail_size : l.tail.size ≡ l.entry_size
  pub before_fit : All (λ e. e.w_oft ≤ e.size) l.before_tail
  pub small : l.entry_size < 2 ^ 64

write-written :
    (key : List ℕ) (e : Entry)
    → e.w_oft + length key ≤ e.size
    → e.size < 2 ^ 64
    → (e' : Entry) × (write key e ≡ ok e')
      × (written e' ≡ written e ++ key)
      × (e'.w_oft ≤ e'.size)
      × (e'.size ≡ e.size)
unfolding write
write-written key e le small =
    let at : (e.w_oft + length key) % 2 ^ 64 ≡ e.w_oft + length key = omega arith in
    (
      record e { bytes = copy key e.w_oft e.bytes; w_oft = (e.w_oft + length key) % 2 ^ 64 },
      rw (le→ltb_false e.size (e.w_oft + length key) le) refl,
      ap (λ n. read n (copy key e.w_oft e.bytes)) at ∙ read-copy key e.w_oft e.bytes,
      omega (arith, at),
      refl,
    )

-- `Put` of a key that is no longer than an entry succeeds, in the tail or in a new entry: the bytes of
-- the log are the old ones and then the key, and nothing is written behind an array.
pub put-appends :
    (key : List ℕ) (l : Log)
    → Fits l
    → length key ≤ l.entry_size
    → (l' : Log) × (put key l ≡ ok l')
      × (contents l' ≡ contents l ++ key)
      × Fits l'
      × (l'.entry_size ≡ l.entry_size)
unfolding put new_entry
put-appends key l f le =
    elim (Bool-cases (ltb (length key) ((l.tail.size + 2 ^ 64 - l.tail.w_oft) % 2 ^ 64))) [
      | inl t ↦
          let (e, run, adds, fits, size) =
            write-written key l.tail (ground (arith, f.tail_fits, f.small, f.tail_size))
              (omega (arith, f.small, f.tail_size)) in
          (
            record l { tail = e },
            rw (t, run) refl,
            ap (λ xs. all_written l.before_tail ++ xs) adds
                ∙ sym (append_assoc (all_written l.before_tail) (written l.tail) key),
            record {
              tail_fits = fits;
              tail_size = size ∙ f.tail_size;
              before_fit = f.before_fit;
              small = f.small;
            },
            refl,
          )
      | inr t ↦
          let (e, run, adds, fits, size) =
            write-written key (new_entry l.entry_size) (omega (arith, le)) f.small in
          (
            record l { before_tail = l.before_tail ++ (l.tail ∷ []); tail = e },
            rw (t, run) refl,
            ap (λ xs. xs ++ written e) (all_written-append l.before_tail l.tail)
                ∙ ap (λ xs. (all_written l.before_tail ++ written l.tail) ++ xs) adds,
            record {
              tail_fits = fits;
              tail_size = size;
              before_fit = All-append _ l.before_tail (l.tail ∷ []) f.before_fit (f.tail_fits, tt);
              small = f.small;
            },
            refl,
          )
    ]

-- A run of `Put` calls.
unfoldable pub put_all : List (List ℕ) → Log → Outcome Log
put_all [] l = ok l
put_all (key ∷ keys) l = do l' ← put key l; put_all keys l'

abbrev pub concat : List (List ℕ) → List ℕ
concat [] = []
concat (key ∷ keys) = key ++ concat keys

-- From any log in which nothing is written behind an array, keys that are no longer than an entry can
-- all be put: the log then holds its old bytes and then the keys one after the other, in their order,
-- and nothing is written behind an array.
pub put_all-appends :
    (keys : List (List ℕ)) (l : Log)
    → Fits l
    → All (λ key. length key ≤ l.entry_size) keys
    → (l' : Log) × (put_all keys l ≡ ok l') × (contents l' ≡ contents l ++ concat keys) × Fits l'
unfolding put_all
put_all-appends [] l f le = (l, refl, sym (append-nil (contents l)), f)
put_all-appends (key ∷ keys) l f le =
    let (l1, run, adds, f1, size) = put-appends key l f le.0 in
    let (l', run', adds', f') =
      put_all-appends keys l1 f1 (subst (λ n. All (λ k. length k ≤ n) keys) (sym size) le.1) in
    (
      l',
      rw run run',
      adds' ∙ ap (λ xs. xs ++ concat keys) adds ∙ append_assoc (contents l) key (concat keys),
      f',
    )

-- A new log is empty.
pub init-Fits : (entry_size : ℕ) → entry_size < 2 ^ 64 → Fits (init entry_size)
unfolding init new_entry
init-Fits entry_size small = record {
  tail_fits = omega arith;
  tail_size = refl;
  before_fit = tt;
  small = small;
}
