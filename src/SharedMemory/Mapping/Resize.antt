-- ===== src/SharedMemory/Mapping/Resize.antt =====
-- A block that grows (`shared_memory_block_resize`).
use ipm.Base.{ℕ, ◌+◌, ◌≡◌, ◌≢◌, arith, [], ◌∷◌, ap, ◌∙◌}
use native.Mathlib.Decide.{ℕ_discrete}
use ipm.Error.{IpmResult}
use ipm.Layout.{AccessMode, SharedMemoryHeader, SharedMemoryBlock, u64, page_size}
use ipm.System.{Errno, Call, Arg, World, Posix, done, set_header}
use ipm.Platform.{ignoring, ipm_mutex_lock, ipm_mutex_unlock}
use ipm.Platform.Undisturbed.{Undisturbed, unlock_same}
use ipm.Common.{Context, ipm_report_error}
use ipm.Common.Local.{report_local}
use ipm.SharedMemory.{resize_truncate_failure}
use ipm.SharedMemory.Mapping.{
  segment_of, shared_memory_block_update_mapping, grow_segment, resize_locked,
  shared_memory_block_resize,
}
use ipm.SharedMemory.Mapping.Laws.{update_mapping_syncs}

module _ {K : Type 0} (os : Posix K) (context : Context K) (block : SharedMemoryBlock)
    (calm : Undisturbed os) where
  update_mapping_same :
      (mode : AccessMode) (res : IpmResult) (b : SharedMemoryBlock) (w last : World K)
      → shared_memory_block_update_mapping os context block mode w ≡ done ((res, b), last)
      → last.headers ≡ w.headers
  unfolding shared_memory_block_update_mapping
  update_mapping_same mode res b w last e =
      let w1 = ignoring os (Call.munmap block.memory block.size) w in
      let size = (w.headers block.header.object).block_size in
      let w2 = (os.mmap block.memory size mode block.mem_fd page_size w1).1 in
      ground (
        arith,
        calm.calls (Call.munmap block.memory block.size) w,
        calm.maps block.memory size mode block.mem_fd page_size w1,
        report_local os context "Could not map the updated shared memory block, reason: %s"
            (Arg.text (os.strerror w2.errno) ∷ []) w2,
      )

  header_of : World K → SharedMemoryHeader
  header_of w = w.headers block.header.object

  -- A grown block: the header and the block have the new size.
  pub record Grown (new_size : ℕ) (b : SharedMemoryBlock) (last : World K) : Type 0 where
    pub in_header : (last.headers block.header.object).block_size ≡ new_size
    pub in_block : b.size ≡ new_size

  remapped-Grown :
      (new_size : ℕ) (b : SharedMemoryBlock) (w last : World K)
      → (w.headers block.header.object).block_size ≡ new_size
      → shared_memory_block_update_mapping os context block block.access_mode w
        ≡ done ((IpmResult.success, b), last)
      → Grown new_size b last
  remapped-Grown new_size b w last size e =
      let (_, synced, _) = update_mapping_syncs os context block block.access_mode b w last e in
      let same = update_mapping_same block.access_mode IpmResult.success b w last e in
      record {
        in_header =
            ap (λ (h : ℕ → SharedMemoryHeader). (h block.header.object).block_size) same ∙ size;
        in_block = synced ∙ size;
      }

  truncate_fails : (e : Errno) → resize_truncate_failure e ≢ IpmResult.success
  unfolding resize_truncate_failure
  truncate_fails e = ground arith

  -- The world in which a failed truncation's `errno` is read.
  refused : ℕ → World K → World K
  refused new_size w1 =
      let w2 = (ipm_mutex_unlock os (segment_of os context block) w1).1 in
      ipm_report_error os context "Could not truncate file to %zu bytes, reason: %s"
        (Arg.number (u64 (page_size + new_size)) ∷ Arg.text (os.strerror w2.errno) ∷ []) w2

  grow_segment-Grown :
      (new_size : ℕ) (b : SharedMemoryBlock) (w last : World K)
      → grow_segment os context block new_size w ≡ done ((IpmResult.success, b), last)
      → Grown new_size b last
  unfolding grow_segment refused header_of
  grow_segment-Grown new_size b w last e =
      let w1 = (os.call (Call.ftruncate block.mem_fd (u64 (page_size + new_size))) w).1 in
      let w2 =
        set_header block.header.object (record (header_of w1) { block_size = new_size }) w1 in
      let w3 = (ipm_mutex_unlock os (segment_of os context block) w2).1 in
      let same =
        ap (λ (h : ℕ → SharedMemoryHeader). (h block.header.object).block_size)
          (unlock_same os calm (segment_of os context block) w2) in
      remapped-Grown new_size b w3 last (ground (arith, same))
        (ground (arith, truncate_fails (refused new_size w1).errno))

  resize_locked-Grown :
      (new_size : ℕ) (b : SharedMemoryBlock) (w last : World K)
      → resize_locked os context block new_size w ≡ done ((IpmResult.success, b), last)
      → Grown new_size b last
  unfolding resize_locked
  resize_locked-Grown new_size b w last e =
      let w1 = (ipm_mutex_unlock os (segment_of os context block) w).1 in
      let same =
        ap (λ (h : ℕ → SharedMemoryHeader). (h block.header.object).block_size)
          (unlock_same os calm (segment_of os context block) w) in
      elim (ℕ_discrete new_size (w.headers block.header.object).block_size) [
        | no differs ↦ grow_segment-Grown new_size b w last (ground arith)
        | yes equal ↦ elim (ℕ_discrete new_size block.size) [
          | yes current ↦ record { in_header = ground (arith, same); in_block = ground arith }
          | no stale ↦ remapped-Grown new_size b w1 last (ground (arith, same)) (ground arith)
        ]
      ]

  -- If no other process changes the shared memory during the calls, a resize that succeeds leaves
  -- the new size in the header and in the block.
  pub resize_grows :
      (new_size : ℕ) (b : SharedMemoryBlock) (w last : World K)
      → shared_memory_block_resize os context block new_size w ≡ done ((IpmResult.success, b), last)
      → Grown new_size b last
  unfolding shared_memory_block_resize
  resize_grows new_size b w last e =
      resize_locked-Grown new_size b (ipm_mutex_lock os (segment_of os context block) w).1 last
        (ground arith)
