-- ===== src/SharedMemory/Close/Balance.antt =====
-- What `shared_memory_block_close` and `shared_memory_block_clean` give back.
use ipm.Base.{◌^◌, ◌+◌, ◌-◌, ◌≡◌, [], ◌∷◌, Option, none, some, arith}
use ipm.Error.{IpmResult}
use ipm.Layout.{page_size, SharedMemoryBlock, u32}
use ipm.System.{Mutex, Call, Arg, World, Posix, done, M, set_header, world_after}
use ipm.Platform.{ignoring, ipm_mutex_destroy}
use ipm.Platform.Still.{mutex_destroy_still}
use ipm.Common.{Context}
use ipm.Common.Accounts.{Held, held, Accounts, now, calls_still, report_held}
use ipm.SharedMemory.{make_block_name_based_on_id}
use ipm.SharedMemory.Close.{
  unmap_block, close_last, shared_memory_block_close, shared_memory_block_clean,
}

-- Without a block's mappings: that of the header, and that of the memory if the block knows it.
abbrev pub without_maps : SharedMemoryBlock → Held → Held
without_maps block h = elim block.memory [
  | none ↦ held h.fds (h.maps - 1)
  | some p ↦ held h.fds (h.maps - 1 - 1)
]

-- What is left when a block is closed.
abbrev pub without_block : SharedMemoryBlock → Held → Held
without_block block h = without_maps block (held (h.fds - 1) h.maps)

module _ {K : Type 0} (os : Posix K) (context : Context K) (a : Accounts os context)
    (block : SharedMemoryBlock) where
  unmap_held :
      (w last : World K)
      → unmap_block os block w ≡ done (tt, last)
      → now os context a last ≡ without_maps block (now os context a w)
  unfolding unmap_block
  unmap_held w last e =
      let size = (w.headers block.header.object).block_size in
      let w1 = ignoring os (Call.munmap block.memory size) w in
      ground (
        arith,
        a.calls (Call.munmap block.memory size) w,
        a.calls (Call.munmap (some block.header) page_size) w1,
      )

  -- The callback opens and maps nothing.
  abbrev pub Keeps : M K (Unit {0}) → Type 0
  Keeps f = (w u : World K) → f w ≡ done (tt, u) → now os context a u ≡ now os context a w

  close_rest_held :
      (res : IpmResult) (w last : World K)
      → close_last os context block none w ≡ done (res, last)
      → now os context a last ≡ without_maps block (now os context a w)
  unfolding close_last
  close_rest_held res w last e =
      let mtx = Mutex.segment_mutex block.header.object in
      let w1 = (ipm_mutex_destroy os mtx w).1 in
      let h = w1.headers block.header.object in
      let shm = make_block_name_based_on_id h.block_name h.block_id in
      let u = world_after (unmap_block os block w1) w1 in
      let w2 = ignoring os (Call.shm_unlink shm) u in
      let args = Arg.bytes shm ∷ Arg.number h.block_id ∷ Arg.text (os.strerror w2.errno) ∷ [] in
      ground (
        arith,
        mutex_destroy_still os (now os context a) (calls_still os context a) mtx w,
        unmap_held w1 u,
        a.calls (Call.shm_unlink shm) u,
        report_held os context a "Could not unlink memory block %s-%#016lX, reason: %s" args w2,
      )

  close_last_held :
      (f : M K (Unit {0})) (res : IpmResult) (w last : World K)
      → Keeps f
      → close_last os context block (some f) w ≡ done (res, last)
      → now os context a last ≡ without_maps block (now os context a w)
  unfolding close_last
  close_last_held f res w last keeps e =
      let v = world_after (f w) w in ground (arith, keeps w v, close_rest_held res v last)

  abbrev CallbackKeeps : Option (M K (Unit {0})) → Type 0
  CallbackKeeps none = Unit
  CallbackKeeps (some f) = Keeps f

  abbrev uncounted : World K → World K
  uncounted w =
      let h = w.headers block.header.object in
      set_header block.header.object (record h { refcount = u32 (h.refcount + 2 ^ 32 - 1) }) w

  pub block_close_held :
      (callback : Option (M K (Unit {0}))) (res : IpmResult) (w last : World K)
      → CallbackKeeps callback
      → shared_memory_block_close os context block callback w ≡ done (res, last)
      → now os context a last ≡ without_block block (now os context a w)
  unfolding shared_memory_block_close
  block_close_held none res w last keeps e =
      let w2 = uncounted (ignoring os (Call.close block.mem_fd) w) in
      ground (
        arith,
        a.calls (Call.close block.mem_fd) w,
        unmap_held w2 last,
        close_rest_held res w2 last,
      )
  block_close_held (some f) res w last keeps e =
      let w2 = uncounted (ignoring os (Call.close block.mem_fd) w) in
      ground (
        arith,
        a.calls (Call.close block.mem_fd) w,
        unmap_held w2 last,
        close_last_held f res w2 last keeps,
      )

  pub block_clean_held :
      (res : IpmResult) (w last : World K)
      → shared_memory_block_clean os block w ≡ done (res, last)
      → now os context a last ≡ without_block block (now os context a w)
  unfolding shared_memory_block_clean
  block_clean_held res w last e =
      let w1 = ignoring os (Call.close block.mem_fd) w in
      ground (arith, a.calls (Call.close block.mem_fd) w, unmap_held w1 last)
