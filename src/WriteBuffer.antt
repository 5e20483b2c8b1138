-- ===== src/WriteBuffer.antt =====
-- log_batch_wrapper.h and .cc, class `SkiplistWriteNVM`, built with DRAM_CANCEL_LOG: keys are inserted
-- in a skip list in DRAM, and full lists are queued for `CallThread`, which runs in a thread pool.
-- The threads interleave. A step is a critical section, or a statement that reads or writes shared
-- data. A list in DRAM stands for the keys inserted in it. `FlushNVM::Run` is one step, from the
-- call to the return, that moves the keys to those in NVM; the bytes that it copies behind a key are left
-- out.
pub mod Runs
pub mod Conservation
pub mod Backlog
pub mod Episodes
pub mod Deadlock
pub mod Stuck
pub mod Crash
pub mod Emptied
pub mod Count
pub mod InOrder
pub mod LogFile
pub mod LateTask
pub mod OneThread
use persist_tree_test.Base.{
  ℕ, zero, suc, ◌+◌, ◌-◌, ◌%◌, ◌^◌, ◌==◌, ◌&&◌, Bool, true, false, Option, none, some, List, [],
  ◌∷◌, ◌++◌, length, ltb, leb, if◌then◌else◌,
}
use persist_tree_test.CString.Rank.{rank}

abbrev pub Key : Type 0
Key = List ℕ

-- A list in DRAM.
abbrev pub Batch : Type 0
Batch = List Key

-- Where the thread that inserts stands: outside the class, in `Flush` before the first critical
-- section, before the test of `block_skiplist_num_`, before the test of `is_running_`, in the call of
-- `wait` awake or asleep, and before `Realloc`.
pub data Place : Type 0 where
  outside pushing testing choosing waiting sleeping reallocating : Place

-- The variable `flush` of `CallThread` outside the part from the pop to the end of `Run`: no list, or
-- one that `Run` has deleted.
pub data Stale : Type 0 where
  no_list deleted : Stale

-- The variable `flush` in that part.
pub data Flush : Type 0 where
  stale : Stale → Flush
  held : Batch → Flush

-- Where a thread of the pool stands: without a task, before the store of true, before the first test,
-- before the store of false, before the test of the loop, before the critical section, before the
-- notification, and before `Run`.
pub data Worker : Type 0 where
  unused entering testing_first ending : Worker
  looping popping : Stale → Worker
  notifying running : Flush → Worker

-- What the threads share, and the fields of the object. `tasks` is the number of calls of
-- `CallThread` that wait in the pool.
pub record State : Type 0 where
  pub queue : List Batch
  pub block_skiplist_num : ℕ
  pub is_running : Bool
  pub tasks : ℕ
  pub place : Place
  pub skiplist : Option Batch
  pub cur_size : ℕ
  pub nvm : List Key

-- `max_mem_skiplist_size_`, `skiplist_max_num_`, and `key_size_` of the lists in DRAM; `returns` is
-- whether `FlushNVM::Run` returns for a list with keys, and these keys in NVM. It fails for a key
-- that has no NUL behind it, and without room in the mapped file (FlushNvm.antt).
pub record Config : Type 0 where
  pub returns : Batch → List Key → Bool
  pub key_size : ℕ
  pub max_size : ℕ
  pub max_num : ℕ

-- What a thread does next: it moves, it has to wait, or it is undefined behaviour or a failed
-- assertion.
pub data Move {ℓ} (A : Type ℓ) : Type ℓ where
  moves : A → Move A
  blocked crashed : Move A

-- The object after `Init`, whose list in NVM holds the keys `old`.
unfoldable pub init : (old : List Key) → State
init old = record {
  queue = [];
  block_skiplist_num = 0;
  is_running = false;
  tasks = 0;
  place = outside;
  skiplist = some [];
  cur_size = 0;
  nvm = old;
}

-- Whether a key of the list compares equal.
unfoldable pub has_equal : ℕ → Key → Batch → Bool
has_equal n key [] = false
has_equal n key (k ∷ b) = if rank n key == rank n k then true else has_equal n key b

-- Whether no key of the list is between `l`, which may be equal, and `key`.
unfoldable pub next_to : ℕ → Key → Key → Batch → Bool
next_to n l key [] = true
next_to n l key (k ∷ b) =
    if leb (rank n l) (rank n k) && ltb (rank n k) (rank n key) then false else next_to n l key b

-- Whether `Memory_SkipList::Insert` finds an equal key at `prev_[0]`, which is the last key inserted,
-- or behind it; `seen` are keys inserted before. Elsewhere it does not look for one.
unfoldable pub overwrites : ℕ → Key → (seen : Batch) → Batch → Bool
unfolding has_equal next_to
overwrites n key seen [] = false
overwrites n key seen (l ∷ []) =
    if rank n key == rank n l
    then true
    else (has_equal n key seen && (ltb (rank n l) (rank n key) && next_to n l key seen))
overwrites n key seen (k ∷ l ∷ b) = overwrites n key (k ∷ seen) (l ∷ b)

-- The key is then written over the node (MemorySkipList/Equal.antt), which is undefined behaviour.
unfoldable pub insert_at : Config → Key → Place → Option Batch → State → Move State
unfolding overwrites
insert_at c key outside (some b) s =
    let size = (s.cur_size + length key) % 2 ^ 64 in
    if overwrites c.key_size key [] b
    then crashed
    else moves (record s {
      skiplist = some (b ++ (key ∷ []));
      cur_size = size;
      place = if ltb size c.max_size then outside else pushing;
    })
insert_at c key _ _ s = blocked

-- `Insert` up to its call of `Flush`.
unfoldable pub insert : Config → Key → State → Move State
unfolding insert_at
insert c key s = insert_at c key s.place s.skiplist s

-- A call of `Flush` by the driver.
unfoldable pub call_flush : Place → State → Move State
call_flush outside s = moves (record s { place = pushing })
call_flush _ s = blocked

-- The first critical section of `Flush`. A null pointer would fail the assertion in `Run`.
unfoldable pub push : Option Batch → State → Move State
push none s = crashed
push (some b) s = moves (record s {
  queue = s.queue ++ (b ∷ []);
  block_skiplist_num = (s.block_skiplist_num + 1) % 2 ^ 64;
  skiplist = none;
  place = testing;
})

-- `Realloc`
unfoldable pub realloc : Option Batch → State → Move State
realloc (some b) s = crashed
realloc none s = moves (record s { cur_size = 0; skiplist = some []; place = outside })

-- The next step of `Flush`. A sleeping thread waits for a notification.
unfoldable pub flush_step : Config → Place → State → Move State
unfolding push realloc
flush_step c outside s = blocked
flush_step c pushing s = push s.skiplist s
flush_step c testing s =
    moves (record s { place = if ltb c.max_num s.block_skiplist_num then waiting else choosing })
flush_step c choosing s =
    moves (record s { tasks = if s.is_running then s.tasks else s.tasks + 1; place = reallocating })
flush_step c waiting s =
    moves (record s { place = if leb (length s.queue) c.max_num then reallocating else sleeping })
flush_step c sleeping s = blocked
flush_step c reallocating s = realloc s.skiplist s

-- `queue_.empty()`
abbrev pub is_empty : List Batch → Bool
is_empty [] = true
is_empty (b ∷ queue) = false

-- A thread of the pool takes a call of `CallThread`.
unfoldable pub take_task : ℕ → State → Move (Worker × State)
take_task zero s = blocked
take_task (suc tasks) s = moves (entering, record s { tasks = tasks })

-- The critical section of `CallThread`. On an empty queue `flush` keeps its value.
unfoldable pub pop : Stale → List Batch → State → Worker × State
pop f [] s = (notifying (stale f), s)
pop f (b ∷ queue) s = (
  notifying (held b),
  record s { queue = queue; block_skiplist_num = (s.block_skiplist_num + 2 ^ 64 - 1) % 2 ^ 64 },
)

-- `notify_one`
abbrev pub wake : Place → Place
wake sleeping = waiting
wake p = p

-- `FlushNVM::Run`: the assertion on its first node fails on an empty list.
unfoldable pub run_flush : Config → Flush → State → Move (Worker × State)
run_flush c (stale f) s = crashed
run_flush c (held []) s = crashed
run_flush c (held (k ∷ ks)) s =
    if c.returns (k ∷ ks) s.nvm
    then moves (looping deleted, record s { nvm = s.nvm ++ (k ∷ ks) })
    else crashed

-- The next step of a thread of the pool, in `CallThread` when it has a task.
unfoldable pub work : Config → Worker → State → Move (Worker × State)
unfolding take_task pop run_flush
work c unused s = take_task s.tasks s
work c entering s = moves (testing_first, record s { is_running = true })
work c testing_first s = moves (if is_empty s.queue then unused else looping no_list, s)
work c (looping f) s = moves (if is_empty s.queue then ending else popping f, s)
work c (popping f) s = moves (pop f s.queue s)
work c (notifying f) s = moves (
  running f,
  record s { place = if leb (length s.queue) c.max_num then wake s.place else s.place },
)
work c (running f) s = run_flush c f s
work c ending s = moves (unused, record s { is_running = false })
