-- ===== src/Lib.antt =====
-- PersistTreeTest writes keys to a skip list in DRAM or in non-volatile memory (NVM), and compares the two.
--
-- Parts and files:
--   Random.antt (random.h and random.cc): class Random, a seed passed from call to call, and GetTLSInstance,
--     which is get_tls_instance. All threads share that one generator. Random/Cycle.antt: its laws.
--     Random/Wide.antt: class Random64.
--   Varint.antt (log_batch.cc, EncodeVarint32, PutVarint32, PutLengthPrefixedSlice).
--     Varint/RoundTrip.antt: a reader, which the program has none of, and the round trips.
--   CString.antt: strncmp and the reading of C strings, as the C library documents them, over buffers
--     with an end. CString/Rank.antt: on valid keys strncmp compares numbers in base 256.
--     CString/Digits.antt: on decimal digits it compares the numbers they show. CString/Printf.antt: the
--     conversion %08d.
--   Node.antt (DramNode of log_batch.h, Node of nvm_node.h): nodes on an explicit heap. Reading a null
--     or freed node, a slot outside the node or a slot never written is a fault.
--   MemorySkipList.antt (log_batch.h and log_batch.cc, class Memory_SkipList): the constructor is init,
--     the destructor destroy, FindLessThan and FindNextNode are find_less_than and find_next_node over
--     the loops descend and walk, and Insert is insert: position, then insert_node or overwrite_node.
--   PersistentAllocator.antt (persistent_skiplist_no_transaction.h and .cc, class PersistentAllocator):
--     the constructor is open_allocator, Allocate is bump. PersistentAllocator/Blocks.antt: its blocks.
--   PersistentSkipList.antt (persistent_skip_list.h and .cc, class Persistent_SkipList): the constructor
--     is init, Insert is insert, with position and the two searches as in DRAM, and PrintLevelNum prints
--     the numbers level_num. It calls the allocator for nodes and keys. PersistentSkipList/: Erasure
--     relates the searches to those in DRAM, Insert has the invariant, Lifetime the constructor and runs
--     of Insert, Levels PrintLevelNum (print_level_num), Printing Print (print).
--   PrintKey.antt (PrintKey of persistent_skip_list.cc and flush_nvm.cc): reading the two numbers of a
--     key, and whether they are above the last ones. PrintKey/Order.antt: the order that it tests.
--   PersistentSkiplistWrapper.antt (persistent_skiplist_wrapper.h and .cc): Init, and the calls that
--     are passed on to the list.
--   FlushNvm.antt (flush_nvm.h and .cc, class FlushNVM): Run is run, which walks over the list in DRAM,
--     inserts each key in the list in NVM, and calls the destructor of the list in DRAM.
--     FlushNvm/Keys.antt: the keys that it reads; FlushNvm/Run.antt: what it leaves; FlushNvm/Silent.antt:
--     the errors that it prints.
--   Routes.antt: a list in DRAM that is filled and then run, beside direct inserts in NVM.
--   WriteBuffer.antt (log_batch_wrapper.h and .cc, class SkiplistWriteNVM): the steps of the thread that
--     inserts (Insert is insert, Flush is flush_step with push and realloc) and of the threads of the pool
--     (CallThread is work), over what they share: the queue of full lists, its counter and the flags.
--     WriteBuffer/: Runs the interleavings, Conservation and Backlog invariants of all of them, Episodes
--     parts of them, Deadlock, Crash, LateTask and Emptied bad ones made of these, Stuck why a stalled one
--     stays so, OneThread a pool of
--     one thread, Count how many keys fill a list in DRAM, InOrder the interleaving in which each list
--     is written at once. A list in DRAM is here the list of the keys inserted in it, and FlushNVM::Run
--     moves them to the keys in NVM: the parts above show in detail what they do. Whether Run returns for
--     a list with keys is a field of Config. LogFile has AllocateFile
--     (allocate_file), of a build without DRAM_CANCEL_LOG.
--   ThreadPool.antt (thread_pool.h, class ThreadPool): a new pool is init with the threads launch, enqueue
--     is enqueue, a step of a thread is step, the destructor is stop_all, notify_all and the joins. A task is of
--     any type, and running one is a step. ThreadPool/: Runs the interleavings, Order and Finished what
--     holds in all of them, Drain the joins. A thread that finds nothing to do sleeps until notify_one or
--     notify_all wakes it.
--   Driver.antt (motivation1_main.cc): parse_input, write_to_nvm with its loop write_loop, and the part of
--     main for a test_type of 0, which is main_nvm. It works on the wrapper, and on Random for the keys.
--     Driver/Main: main as a whole, whose routes are test_nvm and test_dram, with the destructors;
--     Driver/Main/Ends: how it ends. Driver/Texts: the keys; Driver/Rounds and Driver/Written: what
--     write_to_nvm leaves. Driver/Dram: write_to_dram with its loop dram_loop, over insert_key and
--     flush_list, which are Insert and Flush of SkiplistWriteNVM on the lists themselves, in the order
--     in which the pool writes a full list before the next insertion.
--     Driver/Buffered, Driver/ListRun, Driver/Flushed, Driver/DramLoop and Driver/DramWritten: its
--     invariant and what it leaves. Driver/Schedule and Driver/Schedule/Last: what it
--     leaves as what runs of the write buffer leave.
--   AepLog.antt (log_batch.h and log_batch.cc, class AEP_LOG): the constructor is init, NewEntry new_entry
--     and Put put, on the list of the entries. No other part calls it. AepLog/Contents.antt: its bytes.
--     AepLog/Pool.antt: the same on the objects in the pool, and Get and Delete, which are get and delete.
--     AepLog/Pool/: Chain and Represents relate the objects to the list, Puts and Lifetime put, Removal and
--     Ended get and delete.
--   Towers.antt: a skip list from outside, as the list of its towers; Towers/Chain.antt the linked list
--     of one level; Towers/Splice.antt the linking of a node; Towers/Falls.antt keys of digits;
--     Towers/Unique.antt that sorted lists are known by their keys; Towers/Reaches.antt starts of searches.
--   MemorySkipList/: Search and Search/Descend the searches, WellFormed the invariant, Position the
--     first half of Insert, Height, Link and Steps the second, Insert and Equal the whole, Fill runs of it,
--     Lifetime the constructor and destructor, Owned the memory of a list.
--   Tests.antt: runs on concrete inputs.
--   Base.antt: shared names; Base/Outcome.antt the outcomes ok, fault and out_of_fuel.
--
-- Conventions: a byte is a number, a string the list of its bytes. Fixed-width integers are numbers
-- with their wrap-around written out. What malloc or new returns is an argument. The level slots and
-- prev_ of an object are functions on numbers, with the bounds of the arrays tested at each write. What
-- pmem_map_file and make_persistent return, the hash of a thread's id, the generator behind Random64 and
-- the memory behind the buffers of keys are arguments; flushing changes nothing.
--
-- Fuel: the searches, the destructor, Run, PrintLevelNum, Print, and Get and Delete of AEP_LOG run on
-- fuel, one unit for each node or entry that they pass. A fuel above their number is enough, which the
-- theorems on them show.
-- The loop of the driver is a recursion on the rounds left.
--
-- A valid key (CString.Rank.IsKey) has at least key_size_ bytes, none of them NUL among these, and
-- begins with a byte above the space, as the driver's keys of digits do.
--
-- Not modelled: timing, and what is printed but for the numbers of PrintLevelNum and the errors of
-- PrintKey; futures, which no caller looks at; FindGreaterOrEqual, Equal and LessThan, which nothing
-- calls, and of which the first compares with a pointer that is not set; write_to_dram in another order
-- of the threads than that of Driver/Dram, but for its calls, which are steps of the write buffer; and
-- the PMDK libraries, libpmem.h among them. Threads interleave in one order of memory accesses, and a call of FlushNVM::Run is one step of them,
-- so races inside the list in NVM do not show. The build is that with DRAM_CANCEL_LOG and
-- CAL_ACCESS_COUNT.
pub mod AepLog
pub mod Base
pub mod CString
pub mod Driver
pub mod FlushNvm
pub mod MemorySkipList
pub mod Node
pub mod PersistentAllocator
pub mod PersistentSkipList
pub mod PersistentSkiplistWrapper
pub mod PrintKey
pub mod Random
pub mod Routes
pub mod ThreadPool
pub mod Towers
pub mod Varint
pub mod WriteBuffer
pub mod Tests
