-- ===== src/PersistentAllocator.antt =====
-- persistent_skiplist_no_transaction.h and .cc: class `PersistentAllocator`, a bump allocator over a
-- mapped file. The file is mapped by libpmem, which gives the address and the length.
pub mod Blocks
use persist_tree_test.Base.{ℕ, ◌+◌, ◌%◌, ◌^◌, ◌==◌, if◌then◌else◌}
use persist_tree_test.Base.Outcome.{Outcome, ok, fault}

-- An address in the mapped file; `NULL` is 0.
abbrev pub Address : Type 0
Address = ℕ

pub record Allocator : Type 0 where
  pub pmemaddr : Address
  pub mapped_len : ℕ
  pub capacity : ℕ
  pub is_pmem : ℕ
  pub cur_index : Address

-- What `pmem_map_file` returns: the address, the mapped length, and whether it is persistent memory.
pub record Mapping : Type 0 where
  pub addr : Address
  pub len : ℕ
  pub persistent : ℕ

-- The constructor; `exit(-1)` on a mapping error is a fault.
unfoldable pub open_allocator : Mapping → ℕ → Outcome Allocator
open_allocator mapping size =
    if mapping.addr == 0
    then fault
    else ok (record {
      pmemaddr = mapping.addr;
      mapped_len = mapping.len;
      capacity = size;
      is_pmem = mapping.persistent;
      cur_index = mapping.addr;
    })

-- `Allocate`; the capacity is not tested, and the cursor is a pointer of 64 bits.
unfoldable pub bump : Allocator → ℕ → Address × Allocator
bump a bytes = (a.cur_index, record a { cur_index = (a.cur_index + bytes) % 2 ^ 64 })

unfoldable pub bump_aligned : Allocator → (bytes huge_page_size : ℕ) → Address × Allocator
bump_aligned a bytes huge_page_size =
    (a.cur_index, record a { cur_index = (a.cur_index + bytes) % 2 ^ 64 })

unfoldable pub block_size : Allocator → ℕ
block_size a = 0
