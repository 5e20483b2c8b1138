-- ===== src/Tests/Log.antt =====
-- The log of keys, and the files of the lists in DRAM.
use persist_tree_test.Base.{ℕ, ◌+◌, ◌*◌, ◌≡◌, refl, arith, List, [], ◌∷◌, none}
use persist_tree_test.Base.Outcome.{ok}
use persist_tree_test.Node.{Ptr}
use persist_tree_test.AepLog.{Log, init}
use persist_tree_test.WriteBuffer.LogFile.{file_name, file_name_same}
use persist_tree_test.AepLog.Contents.{Fits, contents, put_all, put_all-appends, init-Fits}
use persist_tree_test.AepLog.Pool
use persist_tree_test.AepLog.Pool.{Pool, PoolLog}
use persist_tree_test.AepLog.Pool.Lifetime.{puts, Same, puts-Represents}
use persist_tree_test.AepLog.Pool.Ended.{Ended, log-Ended}

-- Entries of four bytes: the second key does not fit behind the first.
put_all-appends_example :
    (l' : Log) × (put_all ((1 ∷ 2 ∷ []) ∷ (3 ∷ 4 ∷ 5 ∷ []) ∷ []) (init 4) ≡ ok l')
    × (contents l' ≡ 1 ∷ 2 ∷ 3 ∷ 4 ∷ 5 ∷ [])
    × Fits l'
unfolding init
put_all-appends_example =
    put_all-appends ((1 ∷ 2 ∷ []) ∷ (3 ∷ 4 ∷ 5 ∷ []) ∷ []) (init 4) (init-Fits 4 (omega arith))
      (omega arith)

abbrev no_objects : Pool
no_objects = record { entries = λ _. none; arrays = λ _. none }

abbrev two_keys : List (List ℕ)
two_keys = (1 ∷ 2 ∷ []) ∷ (3 ∷ 4 ∷ 5 ∷ []) ∷ []

abbrev entry : ℕ → Ptr
entry j = 100 + 2 * j

abbrev array : ℕ → Ptr
array j = 101 + 2 * j

puts-Represents_example :
    Same 2
      (puts entry array 1 two_keys (Pool.init 100 101 4 no_objects))
      (put_all two_keys (init 4))
puts-Represents_example =
    puts-Represents entry array 4 no_objects two_keys (λ j. omega arith) (λ j k ne. omega arith)
      (λ j k ne. omega arith) (λ r. refl) (λ r. refl)

log-Ended_example :
    (s : PoolLog) × (l : Log) × (puts entry array 1 two_keys (Pool.init 100 101 4 no_objects)
      ≡ ok s)
    × (put_all two_keys (init 4) ≡ ok l)
    × Ended two_keys 4 s l
log-Ended_example =
    log-Ended entry array 4 4 no_objects two_keys (λ j. omega arith) (λ j k ne. omega arith)
      (λ j k ne. omega arith) (λ r. refl) (λ r. refl) (omega arith) (omega arith) (omega arith)

abbrev path : List ℕ
path = b'd' ∷ []

-- The files of the first and of the second list have one name.
one_name : file_name path 1 ≡ file_name path 2
one_name = file_name_same path 1 2 (omega arith) (omega arith) refl
