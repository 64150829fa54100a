-- ===== src/SharedMemory/Close/Unlinking.antt =====
-- Which name `shared_memory_block_close` unlinks, and when; `shared_memory_block_clean` unlinks none.
use ipm.Base.{◌≡◌, ◌==◌, if◌then◌else◌, List, ℕ, [], ◌∷◌, Option, none, some, arith}
use ipm.Error.{IpmResult}
use ipm.Layout.{page_size, SharedMemoryBlock}
use ipm.System.{Mutex, Call, Arg, World, Posix, done, M, world_after}
use ipm.Platform.{ignoring, ipm_mutex_destroy}
use ipm.Platform.Still.{mutex_destroy_still}
use ipm.Platform.Undisturbed.{Undisturbed, mutex_destroy_same}
use ipm.Common.{Context}
use ipm.Common.Kept.{Kept, report_kept}
use ipm.SharedMemory.{make_block_name_based_on_id}
use ipm.SharedMemory.Close.{
  unmap_block, close_last, shared_memory_block_close, shared_memory_block_clean,
}
use ipm.SharedMemory.Close.Leaving.{uncounted, close_last-Leaves, unmap-Leaves}
use ipm.Common.Unlinks.{Unlinks, unlinked, unlinks_still, Quiet}

module _ {K : Type 0} (os : Posix K) (u : Unlinks os) (b : SharedMemoryBlock) where
  unlinked-unmap_block :
      (w v : World K) → unmap_block os b w ≡ done (tt, v) → unlinked os u v ≡ unlinked os u w
  unfolding unmap_block
  unlinked-unmap_block w v e =
      let size = (w.headers b.header.object).block_size in
      let w1 = ignoring os (Call.munmap b.memory size) w in
      ground (
        arith,
        u.calls (Call.munmap b.memory size) w,
        u.calls (Call.munmap (some b.header) page_size) w1,
      )

  abbrev pub name_in : World K → List ℕ
  name_in w =
      let h = w.headers b.header.object in make_block_name_based_on_id h.block_name h.block_id

  -- Cleaning a handle leaves the headers, and unlinks nothing.
  pub unlinked-block_clean :
      (calm : Undisturbed os) (res : IpmResult) (last w : World K)
      → shared_memory_block_clean os b w ≡ done (res, last)
      → (last.headers ≡ w.headers) × (unlinked os u last ≡ unlinked os u w)
  unfolding shared_memory_block_clean
  unlinked-block_clean calm res last w e =
      let w1 = ignoring os (Call.close b.mem_fd) w in
      let v = world_after (unmap_block os b w1) w1 in
      let closed = calm.calls (Call.close b.mem_fd) w in
      (
        ground (arith, closed, unmap-Leaves os calm b w1),
        ground (arith, u.calls (Call.close b.mem_fd) w, unlinked-unmap_block w1 v),
      )

module _ {K : Type 0} (os : Posix K) (context : Context K) (u : Unlinks os)
    (kept : Kept context u.log) (calm : Undisturbed os) (b : SharedMemoryBlock) (res : IpmResult)
    (last : World K) where
  unlinked-close_rest :
      (w : World K)
      → close_last os context b none w ≡ done (res, last)
      → unlinked os u last ≡ name_in os u b w ∷ unlinked os u w
  unfolding close_last
  unlinked-close_rest w e =
      let mtx = Mutex.segment_mutex b.header.object in
      let w1 = (ipm_mutex_destroy os mtx w).1 in
      let h = w1.headers b.header.object in
      let shm = make_block_name_based_on_id h.block_name h.block_id in
      let v = world_after (unmap_block os b w1) w1 in
      let w2 = ignoring os (Call.shm_unlink shm) v in
      let args = Arg.bytes shm ∷ Arg.number h.block_id ∷ Arg.text (os.strerror w2.errno) ∷ [] in
      ground (
        arith,
        mutex_destroy_still os (unlinked os u) (unlinks_still os u) mtx w,
        mutex_destroy_same os calm mtx w,
        unlinked-unmap_block os u b w1 v,
        u.calls (Call.shm_unlink shm) v,
        report_kept os context u.log kept "Could not unlink memory block %s-%#016lX, reason: %s"
            args w2,
      )

  unlinked-close_last :
      (callback : Option (M K (Unit {0}))) (w : World K)
      → Quiet os u callback
      → close_last os context b callback w ≡ done (res, last)
      → (last.headers ≡ w.headers) × (unlinked os u last ≡ name_in os u b w ∷ unlinked os u w)
  unfolding close_last
  unlinked-close_last none w quiet e =
      let c = close_last-Leaves os calm b context w in
      (ground (arith, e, c.returns, c.same_headers), unlinked-close_rest w e)
  unlinked-close_last (some f) w quiet e =
      let v = world_after (f w) w in
      let c = close_last-Leaves os calm b context v in
      let kept_so = quiet w v in
      let rest = unlinked-close_rest v in
      (ground (arith, e, kept_so, c.returns, c.same_headers), ground (arith, e, kept_so, rest))

  -- Closing takes the handle out of the header's count, leaves the headers else, and unlinks the
  -- name, once, if the handle was the only one that the header counted.
  pub unlinked-block_close :
      (callback : Option (M K (Unit {0}))) (w : World K)
      → Quiet os u callback
      → shared_memory_block_close os context b callback w ≡ done (res, last)
      → (last.headers ≡ (uncounted os calm b context w).headers)
        × (unlinked os u last ≡ (
            if (w.headers b.header.object).refcount == 1
            then name_in os u b w ∷ unlinked os u w
            else unlinked os u w))
  unfolding shared_memory_block_close
  unlinked-block_close callback w quiet e =
      let w1 = ignoring os (Call.close b.mem_fd) w in
      let w2 = uncounted os calm b context w1 in
      let noted = u.calls (Call.close b.mem_fd) w in
      let same = calm.calls (Call.close b.mem_fd) w in
      let last_one = unlinked-close_last callback w2 quiet in
      (
        ground (arith, same, last_one, unmap-Leaves os calm b w2),
        ground (arith, noted, same, last_one, unlinked-unmap_block os u b w2 last),
      )
