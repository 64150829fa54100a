-- ===== src/Memory/Handle.antt =====
-- Queries of a handle, and changes of its mapping.
pub mod Growing
pub mod Leaking
pub mod Following
pub mod Locking
use ipm.Base.{ℕ, [], ◌∷◌, Option, ltb, if◌then◌else◌}
use ipm.Error.{IpmResult}
use ipm.Layout.{AccessMode, Ptr}
use ipm.System.{Arg, World, Posix, M, pure, ◌>>=◌, ◌>>◌, read}
use ipm.Claim.{is_success}
use ipm.SharedMemory.Mapping.{
  is_mapped, shared_memory_block_update_mapping, shared_memory_block_resize,
}
use ipm.Memory.{IpmMemory, IpmMemoryInfo, round_size, reason, report, pointed}

module _ {K : Type 0} where
  unfoldable pub ipm_memory_get_info : IpmMemory K → M K (IpmMemoryInfo K)
  ipm_memory_get_info memory = do
    o ← pointed memory.active_claims.memory
    list ← read (λ w. w.lists o)
    pure (record {
      ctx = memory.ctx;
      memory_access_mode = memory.real_memory.access_mode;
      access_id = memory.real_memory.access_id;
      name = memory.block_name;
      block_size = memory.real_memory.size;
      mapping_address = memory.real_memory.memory;
      active_claims = list.count;
    })

  unfoldable pub ipm_memory_ref_count : IpmMemory K → World K → ℕ
  ipm_memory_ref_count memory w = (w.headers memory.real_memory.header.object).refcount

  unfoldable pub ipm_memory_pointer : IpmMemory K → Option Ptr
  ipm_memory_pointer memory = memory.real_memory.memory

  unfoldable pub internal_ipm_memory_clam_list : IpmMemory K → Option Ptr
  internal_ipm_memory_clam_list memory = memory.active_claims.memory

module _ {K : Type 0} (os : Posix K) where
  unfoldable pub ipm_memory_sync : IpmMemory K → M K (IpmResult × IpmMemory K)
  ipm_memory_sync memory = do
    (res, block) ←
        shared_memory_block_update_mapping os memory.ctx memory.real_memory
          memory.real_memory.access_mode
    (if is_success res
        then pure tt
        else report os memory.ctx "Memory sync for block \"%s\" failed, reason: %s (%s)"
            (Arg.bytes memory.block_name ∷ reason res))
    pure (res, record memory { real_memory = block })

  unfoldable pub ipm_memory_change_access : IpmMemory K → AccessMode → M K (IpmResult × IpmMemory K)
  ipm_memory_change_access memory access_mode = do
    (res, block) ← shared_memory_block_update_mapping os memory.ctx memory.real_memory access_mode
    (if is_success res
        then pure tt
        else report os memory.ctx "Memory access change for block \"%s\" failed, reason: %s (%s)"
            (Arg.bytes memory.block_name ∷ reason res))
    pure (res, record memory { real_memory = block })

  unfoldable pub ipm_memory_resize_grow : IpmMemory K → ℕ → M K (IpmResult × IpmMemory K)
  ipm_memory_resize_grow memory requested =
      let new_size = round_size requested in
      if ltb new_size memory.real_memory.size
      then (do
        report os memory.ctx "Can not decrease the size of the memory block from %zu to %zu"
            (Arg.number memory.real_memory.size ∷ Arg.number new_size ∷ [])
        pure (IpmResult.err_bad_value, memory))
      else (do
        (res, block) ← shared_memory_block_resize os memory.ctx memory.real_memory new_size
        (if is_success res then pure tt else (do
          report os memory.ctx
              "Memory resizing to %zu bytes for block \"%s\" failed, reason: %s (%s)"
              (Arg.number block.size ∷ Arg.bytes memory.block_name ∷ reason res)
          if is_mapped block.memory
              then pure tt
              else report os memory.ctx
                  "Failure with resizing made it so that the block mapping is no longer valid" []))
        pure (res, record memory { real_memory = block }))
