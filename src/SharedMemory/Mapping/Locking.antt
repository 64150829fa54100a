-- ===== src/SharedMemory/Mapping/Locking.antt =====
-- `shared_memory_block_resize` gives back the segment's mutex.
use ipm.Base.{ℕ, ◌+◌, ◌≡◌, ◌≢◌, Bool-cases, List, [], ◌∷◌, arith, inl, inr}
use ipm.Error.{IpmResult}
use ipm.Layout.{AccessMode, SharedMemoryBlock, u64, page_size}
use ipm.System.{Errno, Mutex, Call, Arg, World, Posix, done, set_header}
use ipm.Platform.{ignoring, ipm_mutex_lock, ipm_mutex_unlock}
use ipm.Platform.Locking.{Locks, holds, holds-ipm_mutex_lock, holds-ipm_mutex_unlock}
use ipm.Platform.Still.{ok-cases}
use ipm.Common.{Context}
use ipm.Common.Kept.{Kept, report_kept}
use ipm.Claim.{is_success}
use ipm.SharedMemory.Mapping.{
  segment_of, shared_memory_block_update_mapping, grow_segment, resize_locked,
  shared_memory_block_resize,
}

module _ {K : Type 0} (os : Posix K) (l : Locks os) (context : Context K)
    (kept : Kept context l.owned) (block : SharedMemoryBlock) (res : IpmResult)
    (b : SharedMemoryBlock) (u : World K) where
  pub holds-update_mapping :
      (mode : AccessMode) (w : World K)
      → shared_memory_block_update_mapping os context block mode w ≡ done ((res, b), u)
      → holds os l u ≡ holds os l w
  unfolding shared_memory_block_update_mapping
  holds-update_mapping mode w e =
      let w1 = ignoring os (Call.munmap block.memory block.size) w in
      let size = (w.headers block.header.object).block_size in
      let w2 = (os.mmap block.memory size mode block.mem_fd page_size w1).1 in
      ground (
        arith,
        l.others (Call.munmap block.memory block.size) w,
        l.maps block.memory size mode block.mem_fd page_size w1,
        report_kept os context l.owned kept
            "Could not map the updated shared memory block, reason: %s"
            (Arg.text (os.strerror w2.errno) ∷ []) w2,
      )

  holds-grow_segment :
      (new_size : ℕ) (held : List Mutex) (w : World K)
      → grow_segment os context block new_size w ≡ done ((res, b), u)
      → holds os l w ≡ segment_of os context block ∷ held
      → holds os l u ≡ held
  unfolding grow_segment
  holds-grow_segment new_size held w e start =
      let mtx = segment_of os context block in
      let grow = Call.ftruncate block.mem_fd (u64 (page_size + new_size)) in
      let w1 = (os.call grow w).1 in
      let longer =
        set_header block.header.object
          (record (w1.headers block.header.object) { block_size = new_size }) w1 in
      let v = (ipm_mutex_unlock os mtx longer).1 in
      let z = (ipm_mutex_unlock os mtx w1).1 in
      let args = Arg.number (u64 (page_size + new_size)) ∷ Arg.text (os.strerror z.errno) ∷ [] in
      elim (ok-cases (os.call grow w).0) [
        | inl good ↦ ground (
          arith,
          good,
          l.others grow w,
          holds-ipm_mutex_unlock os l mtx held longer,
          holds-update_mapping block.access_mode v,
          start,
        )
        | inr bad ↦ ground (
          arith,
          bad,
          l.others grow w,
          holds-ipm_mutex_unlock os l mtx held w1,
          report_kept os context l.owned kept "Could not truncate file to %zu bytes, reason: %s"
              args z,
          start,
        )
      ]

  holds-resize_locked :
      (new_size : ℕ) (held : List Mutex) (w : World K)
      → resize_locked os context block new_size w ≡ done ((res, b), u)
      → holds os l w ≡ segment_of os context block ∷ held
      → holds os l u ≡ held
  unfolding resize_locked
  holds-resize_locked new_size held w e start =
      let v = (ipm_mutex_unlock os (segment_of os context block) w).1 in
      ground (
        arith,
        holds-ipm_mutex_unlock os l (segment_of os context block) held w start,
        holds-update_mapping block.access_mode v,
        holds-grow_segment new_size held w,
        start,
      )

  pub holds-resize :
      (new_size : ℕ) (w : World K)
      → w.errno ≢ Errno.eownerdead
      → shared_memory_block_resize os context block new_size w ≡ done ((res, b), u)
      → holds os l u ≡ holds os l w
  unfolding shared_memory_block_resize
  holds-resize new_size w fresh e =
      let out = ipm_mutex_lock os (segment_of os context block) w in
      let now = holds-ipm_mutex_lock os l (segment_of os context block) w fresh in
      let args = Arg.text (os.strerror out.1.errno) ∷ [] in
      elim (Bool-cases (is_success out.0)) [
        | inl good ↦ ground (arith, good, now, holds-resize_locked new_size (holds os l w) out.1)
        | inr bad ↦ ground (
          arith,
          bad,
          now,
          report_kept os context l.owned kept
              "Could not wait for semaphore to lock the memory segment, reason: %s" args out.1,
        )
      ]
