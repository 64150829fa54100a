-- ===== src/SharedMemory/Close/Locking.antt =====
-- `shared_memory_block_close` keeps the mutexes that its thread holds.
use ipm.Base.{◌≡◌, ◌^◌, ◌+◌, ◌-◌, [], ◌∷◌, Option, none, some, arith}
use ipm.Error.{IpmResult}
use ipm.Layout.{page_size, SharedMemoryBlock, u32}
use ipm.System.{Mutex, Call, Arg, World, Posix, done, M, set_header, world_after}
use ipm.Platform.{ignoring, ipm_mutex_destroy}
use ipm.Platform.Locking.{Locks, holds, holds-ipm_mutex_destroy}
use ipm.Common.{Context}
use ipm.Common.Kept.{Kept, report_kept}
use ipm.SharedMemory.{make_block_name_based_on_id}
use ipm.SharedMemory.Close.{unmap_block, close_last, shared_memory_block_close}

module _ {K : Type 0} (os : Posix K) (l : Locks os) (context : Context K)
    (kept : Kept context l.owned) (block : SharedMemoryBlock) where
  holds-unmap_block :
      (w u : World K) → unmap_block os block w ≡ done (tt, u) → holds os l u ≡ holds os l w
  unfolding unmap_block
  holds-unmap_block w u e =
      let size = (w.headers block.header.object).block_size in
      let w1 = ignoring os (Call.munmap block.memory size) w in
      ground (
        arith,
        l.others (Call.munmap block.memory size) w,
        l.others (Call.munmap (some block.header) page_size) w1,
      )

  holds-close_last :
      (res : IpmResult) (w u : World K)
      → close_last os context block none w ≡ done (res, u)
      → holds os l u ≡ holds os l w
  unfolding close_last
  holds-close_last res w u e =
      let mtx = Mutex.segment_mutex block.header.object in
      let w1 = (ipm_mutex_destroy os mtx w).1 in
      let h = w1.headers block.header.object in
      let shm = make_block_name_based_on_id h.block_name h.block_id in
      let v = world_after (unmap_block os block w1) w1 in
      let w2 = ignoring os (Call.shm_unlink shm) v in
      let args = Arg.bytes shm ∷ Arg.number h.block_id ∷ Arg.text (os.strerror w2.errno) ∷ [] in
      ground (
        arith,
        holds-ipm_mutex_destroy os l mtx w,
        holds-unmap_block w1 v,
        l.others (Call.shm_unlink shm) v,
        report_kept os context l.owned kept "Could not unlink memory block %s-%#016lX, reason: %s"
            args w2,
      )

  -- The callback, if there is one, gives back each mutex that it takes.
  abbrev pub CallbackTidy : Option (M K (Unit {0})) → Type 0
  CallbackTidy none = Unit
  CallbackTidy (some f) = (w u : World K) → f w ≡ done (tt, u) → holds os l u ≡ holds os l w

  holds-close_last_after :
      (f : M K (Unit {0})) (res : IpmResult) (w u : World K)
      → CallbackTidy (some f)
      → close_last os context block (some f) w ≡ done (res, u)
      → holds os l u ≡ holds os l w
  unfolding close_last
  holds-close_last_after f res w u tidy e =
      let v = world_after (f w) w in ground (arith, tidy w v, holds-close_last res v u)

  abbrev less_one : World K → World K
  less_one w =
      let h = w.headers block.header.object in
      set_header block.header.object (record h { refcount = u32 (h.refcount + 2 ^ 32 - 1) }) w

  pub holds-block_close :
      (callback : Option (M K (Unit {0}))) (res : IpmResult) (w u : World K)
      → CallbackTidy callback
      → shared_memory_block_close os context block callback w ≡ done (res, u)
      → holds os l u ≡ holds os l w
  unfolding shared_memory_block_close
  holds-block_close none res w u tidy e =
      let v = less_one (ignoring os (Call.close block.mem_fd) w) in
      ground (
        arith,
        l.others (Call.close block.mem_fd) w,
        holds-unmap_block v u,
        holds-close_last res v u,
      )
  holds-block_close (some f) res w u tidy e =
      let v = less_one (ignoring os (Call.close block.mem_fd) w) in
      ground (
        arith,
        l.others (Call.close block.mem_fd) w,
        holds-unmap_block v u,
        holds-close_last_after f res v u tidy,
      )
