-- ===== src/SharedMemory/Mapping/Unchanged.antt =====
-- What `shared_memory_block_update_mapping` and `shared_memory_block_resize` leave as it was,
-- whatever they return.
use ipm.Base.{ℕ, ◌+◌, ◌==◌, ◌≡◌, ◌∙◌, Bool-cases, [], ◌∷◌, List, String, arith, inl, inr, ap}
use ipm.Error.{IpmResult}
use ipm.Layout.{AccessMode, SharedMemoryHeader, SharedMemoryBlock, u64, page_size}
use ipm.System.{Call, Arg, World, Posix, done, set_header}
use ipm.Platform.{ignoring, ipm_mutex_lock, ipm_mutex_unlock}
use ipm.Platform.Still.{ok-cases, mutex_lock_still, mutex_unlock_still}
use ipm.Platform.Undisturbed.{Undisturbed, headers_of}
use ipm.Common.{Context}
use ipm.Common.Kept.{Kept, report_kept}
use ipm.Common.Local.{report_local}
use ipm.Common.Unlinks.{Unlinks, unlinked, unlinks_still}
use ipm.Claim.{is_success}
use ipm.SharedMemory.Mapping.{
  segment_of, shared_memory_block_update_mapping, grow_segment, resize_locked,
  shared_memory_block_resize,
}
use ipm.SharedMemory.Mapping.Laws.{SameIdentity}

module _ {K : Type 0} (os : Posix K) (calm : Undisturbed os) (context : Context K) (u : Unlinks os)
    (kept : Kept context u.log) (block : SharedMemoryBlock) (res : IpmResult)
    (b : SharedMemoryBlock) (last : World K) where
  abbrev log : World K → List (List ℕ)
  log = unlinked os u

  abbrev header_at : World K → SharedMemoryHeader
  header_at w = w.headers block.header.object

  -- The block keeps what names it, its header all but the size, and no name is unlinked.
  pub record Unchanged (w : World K) : Type 0 where
    pub identity : SameIdentity block b
    pub header : header_at last ≡ record (header_at w) { block_size = (header_at last).block_size }
    pub names : log last ≡ log w

  pub update_mapping-Unchanged :
      (mode : AccessMode) (w : World K)
      → shared_memory_block_update_mapping os context block mode w ≡ done ((res, b), last)
      → Unchanged w
  unfolding shared_memory_block_update_mapping
  update_mapping-Unchanged mode w e =
      let unmap = Call.munmap block.memory block.size in
      let w1 = ignoring os unmap w in
      let size = (w.headers block.header.object).block_size in
      let w2 = (os.mmap block.memory size mode block.mem_fd page_size w1).1 in
      let args = Arg.text (os.strerror w2.errno) ∷ [] in
      let msg : String = "Could not map the updated shared memory block, reason: %s" in
      record {
        identity = record {
          access_id = ground arith;
          header = ground arith;
          mem_fd = ground arith;
          has_ownership = ground arith;
        };
        header = ground (
          arith,
          calm.calls unmap w,
          calm.maps block.memory size mode block.mem_fd page_size w1,
          report_local os context msg args w2,
        );
        names = ground (
          arith,
          u.calls unmap w,
          u.maps block.memory size mode block.mem_fd page_size w1,
          report_kept os context u.log kept msg args w2,
        );
      }

  -- A block that is returned as it was.
  untouched :
      (w : World K)
      → b ≡ block
      → header_at last ≡ record (header_at w) { block_size = (header_at last).block_size }
      → log last ≡ log w
      → Unchanged w
  untouched w same header names = record {
    identity = record {
      access_id = ap SharedMemoryBlock.access_id same;
      header = ap SharedMemoryBlock.header same;
      mem_fd = ap SharedMemoryBlock.mem_fd same;
      has_ownership = ap SharedMemoryBlock.has_ownership same;
    };
    header = header;
    names = names;
  }

  -- From a world with the same header, all but the size, and the same names.
  Unchanged-after :
      (v w : World K)
      → header_at v ≡ record (header_at w) { block_size = (header_at v).block_size }
      → log v ≡ log w
      → Unchanged v
      → Unchanged w
  Unchanged-after v w header names c = record {
    identity = c.identity;
    header = ground (arith, header, c.header);
    names = c.names ∙ names;
  }

  unlocked_header :
      (w : World K)
      → header_at (ipm_mutex_unlock os (segment_of os context block) w).1 ≡ header_at w
  unlocked_header w =
      ap (λ (f : ℕ → SharedMemoryHeader). f block.header.object)
        (mutex_unlock_still os headers_of (λ c v _. calm.calls c v) (segment_of os context block) w)

  unlocked_names :
      (w : World K) → log (ipm_mutex_unlock os (segment_of os context block) w).1 ≡ log w
  unlocked_names w = mutex_unlock_still os log (unlinks_still os u) (segment_of os context block) w

  grow_segment-Unchanged :
      (new_size : ℕ) (w : World K)
      → grow_segment os context block new_size w ≡ done ((res, b), last)
      → Unchanged w
  unfolding grow_segment
  grow_segment-Unchanged new_size w e =
      let mtx = segment_of os context block in
      let grow = Call.ftruncate block.mem_fd (u64 (page_size + new_size)) in
      let w1 = (os.call grow w).1 in
      let longer =
        set_header block.header.object (record (header_at w1) { block_size = new_size }) w1 in
      let v = (ipm_mutex_unlock os mtx longer).1 in
      let z = (ipm_mutex_unlock os mtx w1).1 in
      let msg : String = "Could not truncate file to %zu bytes, reason: %s" in
      let args = Arg.number (u64 (page_size + new_size)) ∷ Arg.text (os.strerror z.errno) ∷ [] in
      elim (ok-cases (os.call grow w).0) [
        | inl good ↦
            Unchanged-after v w (ground (arith, unlocked_header longer, calm.calls grow w))
              (ground (arith, unlocked_names longer, u.calls grow w))
              (update_mapping-Unchanged block.access_mode v (ground (arith, good, e)))
        | inr bad ↦
            untouched w (ground (arith, bad, e))
              (ground (
                arith,
                bad,
                e,
                report_local os context msg args z,
                unlocked_header w1,
                calm.calls grow w,
              ))
              (ground (
                arith,
                bad,
                e,
                report_kept os context u.log kept msg args z,
                unlocked_names w1,
                u.calls grow w,
              ))
      ]

  resize_locked-Unchanged :
      (new_size : ℕ) (w : World K)
      → resize_locked os context block new_size w ≡ done ((res, b), last)
      → Unchanged w
  unfolding resize_locked
  resize_locked-Unchanged new_size w e =
      let v = (ipm_mutex_unlock os (segment_of os context block) w).1 in
      elim (Bool-cases (new_size == (header_at w).block_size)) [
        | inr grows ↦ grow_segment-Unchanged new_size w (ground (arith, grows, e))
        | inl current ↦ elim (Bool-cases (new_size == block.size)) [
          | inr stale ↦
              Unchanged-after v w (ground (arith, unlocked_header w)) (unlocked_names w)
                (update_mapping-Unchanged block.access_mode v (ground (arith, current, stale, e)))
          | inl mapped ↦
              untouched w (ground (arith, current, mapped, e))
                (ground (arith, current, mapped, e, unlocked_header w))
                (ground (arith, current, mapped, e, unlocked_names w))
        ]
      ]

  pub resize-Unchanged :
      (new_size : ℕ) (w : World K)
      → shared_memory_block_resize os context block new_size w ≡ done ((res, b), last)
      → Unchanged w
  unfolding shared_memory_block_resize
  resize-Unchanged new_size w e =
      let mtx = segment_of os context block in
      let out = ipm_mutex_lock os mtx w in
      let msg : String = "Could not wait for semaphore to lock the memory segment, reason: %s" in
      let args = Arg.text (os.strerror out.1.errno) ∷ [] in
      let header =
        ap (λ (f : ℕ → SharedMemoryHeader). f block.header.object)
          (mutex_lock_still os headers_of (λ c v _. calm.calls c v) mtx w) in
      let names = mutex_lock_still os log (unlinks_still os u) mtx w in
      elim (Bool-cases (is_success out.0)) [
        | inl good ↦
            Unchanged-after out.1 w (ground (arith, header)) names
              (resize_locked-Unchanged new_size out.1 (ground (arith, good, e)))
        | inr bad ↦
            untouched w (ground (arith, bad, e))
              (ground (arith, bad, e, header, report_local os context msg args out.1))
              (ground (arith, bad, e, names, report_kept os context u.log kept msg args out.1))
      ]
