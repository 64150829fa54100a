-- ===== src/SharedMemory/Close.antt =====
-- `shared_memory_block_close` and `shared_memory_block_clean`. Both end by filling the block with
-- 0xCC, so no block is left to return.
pub mod Leaving
pub mod Balance
pub mod Returning
pub mod Unlinking
pub mod Locking
pub mod Unmapping
use ipm.Base.{◌+◌, ◌-◌, ◌^◌, not, [], ◌∷◌, Option, none, some, ◌==◌, if◌then◌else◌}
use ipm.Error.{IpmResult}
use ipm.Layout.{page_size, SharedMemoryBlock, u32}
use ipm.System.{
  Errno, Mutex, Call, Arg, Posix, done, M, pure, ◌>>=◌, ◌>>◌, run, read, modify, assert, set_header,
}
use ipm.Platform.{ipm_mutex_destroy}
use ipm.Common.{Context, ipm_report_error}
use ipm.SharedMemory.{do_call, make_block_name_based_on_id, unlink_failure}

module _ {K : Type 0} (os : Posix K) where
  -- The mappings go, by the size that the header has now.
  pub unmap_block : SharedMemoryBlock → M K (Unit {0})
  unmap_block block = do
    size ← read (λ w. (w.headers block.header.object).block_size)
    do_call os (Call.munmap block.memory size)
    do_call os (Call.munmap (some block.header) page_size)

  -- The last handle: the callback, the mutex, the mappings and the name.
  pub close_last : Context K → SharedMemoryBlock → Option (M K (Unit {0})) → M K IpmResult
  unfolding unmap_block unlink_failure
  close_last context block callback = do
    elim callback [ none ↦ pure tt | some f ↦ f ]
    run (ipm_mutex_destroy os (Mutex.segment_mutex block.header.object))
    h ← read (λ w. w.headers block.header.object)
    let name = make_block_name_based_on_id h.block_name h.block_id
    unmap_block block
    res ← run (os.call (Call.shm_unlink name))
    elim res [
      | Errno.ok ↦ pure IpmResult.success
      | _ ↦ (do
        (λ w. done (
          tt,
          ipm_report_error os context "Could not unlink memory block %s-%#016lX, reason: %s"
              (Arg.bytes name ∷ Arg.number h.block_id ∷ Arg.text (os.strerror w.errno) ∷ []) w,
        ))
        λ w. done (unlink_failure w.errno, w))
    ]

  unfoldable pub shared_memory_block_close :
      Context K → SharedMemoryBlock → Option (M K (Unit {0})) → M K IpmResult
  unfolding close_last unmap_block
  shared_memory_block_close context block callback = do
    assert os (not block.has_ownership)
    do_call os (Call.close block.mem_fd)
    h ← read (λ w. w.headers block.header.object)
    modify (set_header block.header.object (record h { refcount = u32 (h.refcount + 2 ^ 32 - 1) }))
    if h.refcount == 1
        then close_last context block callback
        else (do unmap_block block; pure IpmResult.success)

  unfoldable pub shared_memory_block_clean : SharedMemoryBlock → M K IpmResult
  unfolding unmap_block
  shared_memory_block_clean block = do
    assert os (not block.has_ownership)
    do_call os (Call.close block.mem_fd)
    unmap_block block
    pure IpmResult.success
