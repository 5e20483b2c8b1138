-- ===== src/WriteBuffer/Conservation.antt =====
-- No key is lost or written twice.
use persist_tree_test.Base.{ℕ, ◌+◌, Bool, Option, none, some, List, [], ◌∷◌, count}
use persist_tree_test.WriteBuffer.{
  Key, Batch, State, Worker, unused, entering, testing_first, ending, looping, popping, notifying,
  running, Flush, stale, held,
}

module _ (test : Key → Bool) where
  abbrev pub queued : List Batch → ℕ
  queued [] = 0
  queued (b ∷ queue) = count test b + queued queue

  abbrev pub current : Option Batch → ℕ
  current none = 0
  current (some b) = count test b

  abbrev pub in_flush : Flush → ℕ
  in_flush (stale f) = 0
  in_flush (held b) = count test b

  -- What a thread has taken from the queue and not yet written.
  abbrev pub taken : Worker → ℕ
  taken unused = 0
  taken entering = 0
  taken testing_first = 0
  taken ending = 0
  taken (looping f) = 0
  taken (popping f) = 0
  taken (notifying f) = in_flush f
  taken (running f) = in_flush f

  abbrev pub all_taken : List Worker → ℕ
  all_taken [] = 0
  all_taken (w ∷ ws) = taken w + all_taken ws

  -- The keys that the object has, in NVM, in the queue or in DRAM.
  abbrev pub kept : State → ℕ
  kept s = count test s.nvm + (queued s.queue + current s.skiplist)
