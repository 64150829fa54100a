-- ===== src/Memory.antt =====
-- source/ipm_memory.c, ipm_memory_internal.h and include/ipm/ipm_memory.h: the handle of a memory
-- block, which joins the block of the user's memory and the block of the claims.
pub mod Handle
pub mod Region
pub mod Lifetime
pub mod Sizes
pub mod Locking
use ipm.Base.{
  ℕ, ◌+◌, ◌-◌, ◌%◌, List, [], ◌∷◌, ◌++◌, String, Option, none, some, ◌==◌, if◌then◌else◌,
}
use ipm.Error.{IpmResult, code, ipm_result_to_str, ipm_result_to_msg}
use ipm.Layout.{AccessMode, page_size, Ptr, SharedMemoryBlock, u64}
use ipm.System.{Arg, World, Posix, done, fault, M}
use ipm.Common.{Context, ipm_report_error}

-- `ipm_memory`. `address` is where the handle itself lies, for the call that frees it.
pub record IpmMemory (K : Type 0) : Type 0 where
  pub address : ℕ
  pub ctx : Context K
  pub block_name : List ℕ
  pub real_memory : SharedMemoryBlock
  pub active_claims : SharedMemoryBlock

-- `IPM_MEMORY_BLOCK_REAL_MEMORY` and `IPM_MEMORY_BLOCK_ACTIVE_CALIMS`
abbrev pub real_memory_id : ℕ
real_memory_id = 1

abbrev pub active_claims_id : ℕ
active_claims_id = 2

-- `ipm_memory_info`
pub record IpmMemoryInfo (K : Type 0) : Type 0 where
  pub ctx : Context K
  pub memory_access_mode : AccessMode
  pub access_id : ℕ
  pub name : List ℕ
  pub block_size : ℕ
  pub mapping_address : Option Ptr
  pub active_claims : ℕ

unfoldable pub round_size : ℕ → ℕ
round_size size =
    let remainder = size % page_size in
    if remainder == 0 then size else u64 (size + (page_size - remainder))

-- The text of a report that names a result.
abbrev pub reason : IpmResult → List Arg
reason res = Arg.text (ipm_result_to_str (code res)) ∷ Arg.text (ipm_result_to_msg (code res)) ∷ []

abbrev pub report : {K : Type 0} → Posix K → Context K → String → List Arg → M K (Unit {0})
report os context msg args w = done (tt, ipm_report_error os context msg args w)

-- A dereference.
abbrev pub pointed : {K : Type 0} → Option Ptr → M K ℕ
pointed none w = fault
pointed (some p) w = done (p.object, w)
