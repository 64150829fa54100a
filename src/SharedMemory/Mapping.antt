-- ===== src/SharedMemory/Mapping.antt =====
-- Ownership of a block, its mapping and its size: `acquire_memory_block_whole`,
-- `release_memory_block_whole`, `shared_memory_block_update_mapping` and
-- `shared_memory_block_resize`.
pub mod Laws
pub mod Resize
pub mod Locking
pub mod Unchanged
use ipm.Base.{
  ℕ, ◌+◌, ◌%◌, Bool, true, false, not, ◌&&◌, [], ◌∷◌, Option, none, some, ltb, leb, ◌==◌,
  if◌then◌else◌,
}
use ipm.Error.{IpmResult}
use ipm.Layout.{AccessMode, read_only, page_size, Ptr, SharedMemoryBlock, u64}
use ipm.System.{
  Errno, Mutex, Call, Arg, Posix, done, M, pure, ◌>>=◌, ◌>>◌, run, read, modify, assert, set_header,
}
use ipm.Platform.{ipm_mutex_lock, ipm_mutex_unlock}
use ipm.Common.{Context, ipm_report_error}
use ipm.Claim.{is_success, same_access}
use ipm.SharedMemory.{report_errno, do_call, resize_truncate_failure}

abbrev pub is_mapped : Option Ptr → Bool
is_mapped none = false
is_mapped (some _) = true

module _ {K : Type 0} (os : Posix K) (context : Context K) where
  abbrev pub segment_of : SharedMemoryBlock → Mutex
  segment_of block = Mutex.segment_mutex block.header.object

  unfoldable pub acquire_memory_block_whole :
      SharedMemoryBlock → M K (IpmResult × SharedMemoryBlock)
  acquire_memory_block_whole block =
      if block.has_ownership
      then (do
        (λ w. done (tt, ipm_report_error os context "Already has block ownership" [] w))
        pure (IpmResult.err_already_locked, block))
      else (do
        wait_res ← run (ipm_mutex_lock os (segment_of block))
        if is_success wait_res
            then pure (IpmResult.success, record block { has_ownership = true })
            else (do
              report_errno os context "Could not wait on block mutex, reason: %s" []
              pure (wait_res, block)))

  -- The test is the source's: it refuses a block that has the ownership.
  pub release_memory_block_whole : SharedMemoryBlock → M K (IpmResult × SharedMemoryBlock)
  release_memory_block_whole block =
      if block.has_ownership
      then (do
        (λ w. done (tt, ipm_report_error os context "Does not have ownership of the block!" [] w))
        pure (IpmResult.err_not_locked, block))
      else (do
        run (ipm_mutex_unlock os (segment_of block))
        pure (IpmResult.success, record block { has_ownership = false }))

  -- After a new mapping `block->memory` is NULL, whether or not it succeeded.
  unfoldable pub shared_memory_block_update_mapping :
      SharedMemoryBlock → AccessMode → M K (IpmResult × SharedMemoryBlock)
  shared_memory_block_update_mapping block access_mode = do
    new_size ← read (λ w. (w.headers block.header.object).block_size)
    if (block.size == new_size)
          && same_access access_mode block.access_mode
          && is_mapped block.memory
        then pure (IpmResult.success, block)
        else (do
          do_call os (Call.munmap block.memory block.size)
          new_ptr ← run (os.mmap block.memory new_size access_mode block.mem_fd page_size)
          elim new_ptr [
            | none ↦ (do
              report_errno os context "Could not map the updated shared memory block, reason: %s" []
              pure (
                IpmResult.err_os_out_of_memory,
                record block { size = 0; access_mode = read_only; memory = none },
              ))
            | some _ ↦ pure (
              IpmResult.success,
              record block { access_mode = access_mode; size = new_size; memory = none },
            )
          ])

  -- The mutex is held, and the block's size is to change. The report comes before `errno` is read.
  grow_segment : SharedMemoryBlock → ℕ → M K (IpmResult × SharedMemoryBlock)
  unfolding resize_truncate_failure
  grow_segment block new_size = do
    res ← run (os.call (Call.ftruncate block.mem_fd (u64 (page_size + new_size))))
    elim res [
      | Errno.ok ↦ (do
        modify (λ w.
            set_header block.header.object
              (record (w.headers block.header.object) { block_size = new_size }) w)
        run (ipm_mutex_unlock os (segment_of block))
        shared_memory_block_update_mapping block block.access_mode)
      | _ ↦ (do
        run (ipm_mutex_unlock os (segment_of block))
        report_errno os context "Could not truncate file to %zu bytes, reason: %s"
            (Arg.number (u64 (page_size + new_size)) ∷ [])
        λ w. done ((resize_truncate_failure w.errno, block), w))
    ]

  -- The mutex is held.
  resize_locked : SharedMemoryBlock → ℕ → M K (IpmResult × SharedMemoryBlock)
  unfolding grow_segment
  resize_locked block new_size = do
    size ← read (λ w. (w.headers block.header.object).block_size)
    if new_size == size
        then (do
          run (ipm_mutex_unlock os (segment_of block))
          if new_size == block.size
              then pure (IpmResult.success, block)
              else shared_memory_block_update_mapping block block.access_mode)
        else grow_segment block new_size

  unfoldable pub shared_memory_block_resize :
      SharedMemoryBlock → ℕ → M K (IpmResult × SharedMemoryBlock)
  unfolding resize_locked
  shared_memory_block_resize block new_size = do
    size ← read (λ w. (w.headers block.header.object).block_size)
    assert os (leb size new_size)
    assert os (new_size % page_size == 0)
    assert os (ltb 0 new_size)
    sem_res ← run (ipm_mutex_lock os (segment_of block))
    if is_success sem_res then resize_locked block new_size else (do
      report_errno os context "Could not wait for semaphore to lock the memory segment, reason: %s"
          []
      pure (sem_res, block))
