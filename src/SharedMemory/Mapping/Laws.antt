-- ===== src/SharedMemory/Mapping/Laws.antt =====
-- What becomes of a block's mapping, its size and its ownership.
use ipm.Base.{◌≡◌, ◌≢◌, ◌⊎◌, true, none, arith}
use ipm.Error.{IpmResult}
use ipm.Layout.{AccessMode, SharedMemoryBlock}
use ipm.System.{World, Posix, done, world_after}
use ipm.Common.{Context}
use ipm.SharedMemory.Mapping.{
  acquire_memory_block_whole, release_memory_block_whole, shared_memory_block_update_mapping,
}

-- What no operation changes in a block.
pub record SameIdentity (a b : SharedMemoryBlock) : Type 0 where
  pub access_id : b.access_id ≡ a.access_id
  pub header : b.header ≡ a.header
  pub mem_fd : b.mem_fd ≡ a.mem_fd
  pub has_ownership : b.has_ownership ≡ a.has_ownership

module _ {K : Type 0} (os : Posix K) (context : Context K) (block : SharedMemoryBlock) where
  -- `shared_memory_block_update_mapping` that returns success leaves the block with the size in the
  -- header and the mode that was asked for, and keeps its id, header, descriptor and ownership.
  pub update_mapping_syncs :
      (mode : AccessMode) (b : SharedMemoryBlock) (w last : World K)
      → shared_memory_block_update_mapping os context block mode w
        ≡ done ((IpmResult.success, b), last)
      → SameIdentity block b
        × (b.size ≡ (w.headers block.header.object).block_size)
        × (b.access_mode ≡ mode)
  unfolding shared_memory_block_update_mapping
  update_mapping_syncs mode b w last e = (
    record {
      access_id = ground arith;
      header = ground arith;
      mem_fd = ground arith;
      has_ownership = ground arith;
    },
    ground arith,
    ground arith,
  )

  -- The pointer is lost: unless the block was mapped at the header's size and in the mode that was
  -- asked for, `shared_memory_block_update_mapping` returns a block whose pointer is NULL, also when
  -- the new mapping succeeded and the result is success.
  pub remapped_pointer_null :
      (mode : AccessMode) (res : IpmResult) (b : SharedMemoryBlock) (w last : World K)
      → (block.size ≢ (w.headers block.header.object).block_size)
        ⊎ (mode ≢ block.access_mode)
        ⊎ (block.memory ≡ none)
      → shared_memory_block_update_mapping os context block mode w ≡ done ((res, b), last)
      → b.memory ≡ none
  unfolding shared_memory_block_update_mapping
  remapped_pointer_null mode res b w last stale e = ground arith

  -- A block that was acquired cannot be released: `release_memory_block_whole` refuses it with
  -- ERR_NOT_LOCKED and leaves it owned, in whatever world it is called.
  pub acquired_never_released :
      (b : SharedMemoryBlock) (w held later : World K)
      → acquire_memory_block_whole os context block w ≡ done ((IpmResult.success, b), held)
      → (last : World K) × (release_memory_block_whole os context b later
          ≡ done ((IpmResult.err_not_locked, b), last))
        × (b.has_ownership ≡ true)
  unfolding acquire_memory_block_whole release_memory_block_whole
  acquired_never_released b w held later e = (
    world_after (release_memory_block_whole os context b later) later,
    ground arith,
    ground arith,
  )
