-- ===== src/Tests/Routes.antt =====
-- Two keys on both ways to an empty list in NVM.
use persist_tree_test.Base.{ℕ, List, [], ◌∷◌}
use persist_tree_test.Node.{Ptr}
use persist_tree_test.MemorySkipList.{State}
use persist_tree_test.MemorySkipList.Fill.{Items}
use persist_tree_test.PersistentSkipList.{NvmList}
use persist_tree_test.Routes.Agree.{Agree}
use persist_tree_test.Tests.NvmList.{list, heap_0, long_key}

abbrev other_key : List ℕ
other_key =
    b'0' ∷ b'0' ∷ b'0' ∷ b'0' ∷ b'0' ∷ b'0' ∷ b'4' ∷ b'1' ∷ b'0' ∷ b'0' ∷ b'0' ∷ b'0' ∷ b'0' ∷ b'0'
    ∷ b'0' ∷ b'9' ∷ []

abbrev items : Items
items = (11, long_key) ∷ (12, other_key) ∷ []

abbrev empty_dram : State
empty_dram = record { list = list 16 (λ _. 1); heap = heap_0; seed = 1 }

abbrev behind : Ptr → List ℕ
behind p = b'x' ∷ []
