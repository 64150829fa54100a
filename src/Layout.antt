-- ===== src/Layout.antt =====
-- The data that the processes share, and that a process keeps of it: the structures of
-- include/ipm/ipm_common.h, source/memory_claim.h and source/shared_memory.h. A `size_t` or a
-- `uint64_t` is a number, which the code that computes it reduces modulo 2^64.
use ipm.Base.{ℕ, ◌%◌, ◌^◌, Bool, List, Option}

pub data AccessMode : Type 0 where
  read_only read_write : AccessMode

abbrev pub max_name_len : ℕ
max_name_len = 256

abbrev pub page_size : ℕ
page_size = 4096

abbrev pub default_claim_capacity : ℕ
default_claim_capacity = 64

-- Values stored in a `size_t` or an `ipm_id`, in a `uint32_t` or an `unsigned`.
abbrev pub u64 : ℕ → ℕ
u64 n = n % 2 ^ 64

abbrev pub u32 : ℕ → ℕ
u32 n = n % 2 ^ 32

-- `ipm_memory_claim`
pub record MemoryClaim : Type 0 where
  pub claim_id : ℕ
  pub proc_id : ℕ
  pub access : AccessMode
  pub offset : ℕ
  pub size : ℕ

-- `ipm_claim_list`. The mutex and the condition variable are known to the operating system alone
-- (System.antt); `claims` holds every slot of the array, those from `count` on included.
pub record ClaimList : Type 0 where
  pub count : ℕ
  pub capacity : ℕ
  pub claim_counter : ℕ
  pub claims : List MemoryClaim

-- `ipm_shared_memory_header`, without the mutex. A name is its bytes, the final 0 left off.
pub record SharedMemoryHeader : Type 0 where
  pub refcount : ℕ
  pub block_size : ℕ
  pub id_counter : ℕ
  pub block_id : ℕ
  pub block_name : List ℕ

-- A pointer into a mapping: the address, and the shared object whose pages it shows. Two mappings
-- of one object show the same pages. `NULL` is `none` of an `Option Ptr`.
pub record Ptr : Type 0 where
  pub address : ℕ
  pub object : ℕ

-- `ipm_shared_memory_block`
pub record SharedMemoryBlock : Type 0 where
  pub access_id : ℕ
  pub size : ℕ
  pub header : Ptr
  pub memory : Option Ptr
  pub has_ownership : Bool
  pub access_mode : AccessMode
  pub mem_fd : ℕ
