-- ===== src/Routes/Agree.antt =====
-- The list in NVM that both ways lead to.
use mathlib.Core.List.{Perm}
use mathlib.Core.List.Perm
use persist_tree_test.Base.{ℕ, ◌≡◌, List, ◌++◌}
use persist_tree_test.Towers.{Tower, keys}
use persist_tree_test.PersistentSkipList.{NvmList}
use persist_tree_test.PersistentSkipList.Insert.{IsNvmList}

-- Two lists in NVM that are well formed and have the same keys, in the same order.
pub record Agree (nvm nvm' : NvmList) (ks : List (List ℕ)) : Type 0 where
  pub ts : List Tower
  pub us : List Tower
  pub ts' : List Tower
  pub us' : List Tower
  pub result : IsNvmList nvm ts us
  pub result' : IsNvmList nvm' ts' us'
  pub same : keys (ts ++ us) ≡ keys (ts' ++ us')
  pub contents : Perm (keys (ts ++ us)) ks
