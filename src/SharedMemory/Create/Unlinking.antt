-- ===== src/SharedMemory/Create/Unlinking.antt =====
-- A successful `shared_memory_block_create` unlinks no name.
use ipm.Base.{ℕ, ◌+◌, ◌≡◌, true, List, none, some, arith, inl, inr, Option-cases}
use ipm.Error.{IpmResult}
use ipm.Layout.{AccessMode, read_write, page_size, Ptr, SharedMemoryBlock, u64}
use ipm.System.{Errno, Mutex, Call, World, Posix, done}
use ipm.Platform.Still.{mutex_init_still}
use ipm.Common.{Context}
use ipm.SharedMemory.{make_block_name_based_on_id}
use ipm.SharedMemory.Create.{
  start_header, create_mapped, create_header, create_pages, create_refused,
  shared_memory_block_create,
}
use ipm.Common.Unlinks.{Unlinks, unlinked, unlinks_still}

module _ {K : Type 0} (os : Posix K) (context : Context K) (u : Unlinks os) (name : List ℕ) (id : ℕ)
    (access : AccessMode) (b : SharedMemoryBlock) (last : World K) where
  unlinked-create_mapped :
      (size fd : ℕ) (memory header : Ptr) (w : World K)
      → create_mapped os context name id size access fd memory header w
        ≡ done ((IpmResult.success, some b), last)
      → unlinked os u last ≡ unlinked os u w
  unfolding create_mapped
  unlinked-create_mapped size fd memory header w e =
      let begun = start_header os context header id size w in
      let mtx = Mutex.segment_mutex header.object in
      ground (arith, mutex_init_still os (unlinked os u) (unlinks_still os u) mtx begun)

  unlinked-create_header :
      (size fd : ℕ) (memory : Ptr) (w : World K)
      → create_header os context name id size access fd memory w
        ≡ done ((IpmResult.success, some b), last)
      → unlinked os u last ≡ unlinked os u w
  unfolding create_header
  unlinked-create_header size fd memory w e =
      let mapped = os.mmap none page_size read_write fd 0 w in
      let same = u.maps none page_size read_write fd 0 w in
      elim (Option-cases mapped.0) [
        | inl failed ↦ absurd (ground (arith, failed))
        | inr (header, at) ↦
            ground (arith, at, same, unlinked-create_mapped size fd memory header mapped.1)
      ]

  unlinked-create_pages :
      (size fd : ℕ) (w : World K)
      → create_pages os context name id size access fd w ≡ done ((IpmResult.success, some b), last)
      → unlinked os u last ≡ unlinked os u w
  unfolding create_pages
  unlinked-create_pages size fd w e =
      let grow = Call.ftruncate fd (u64 (size + page_size)) in
      let w1 = (os.call grow w).1 in
      let mapped = os.mmap none size access fd page_size w1 in
      let same = u.maps none size access fd page_size w1 in
      elim (Option-cases mapped.0) [
        | inl failed ↦ absurd (ground (arith, failed))
        | inr (memory, at) ↦
            ground (arith, at, same, u.calls grow w, unlinked-create_header size fd memory mapped.1)
      ]

  unlinked-create_refused :
      (e : Errno) (w : World K)
      → create_refused os context id e w ≡ done ((IpmResult.success, some b), last)
      → unlinked os u last ≡ unlinked os u w
  unfolding create_refused
  unlinked-create_refused e w q = absurd (ground arith)

  pub unlinked-block_create :
      (size : ℕ) (w : World K)
      → shared_memory_block_create os context name id size access w
        ≡ done ((IpmResult.success, some b), last)
      → unlinked os u last ≡ unlinked os u w
  unfolding shared_memory_block_create
  unlinked-block_create size w e =
      let shm = make_block_name_based_on_id name id in
      let opened = os.shm_open shm true w in
      let same = u.opens shm true w in
      elim (Option-cases opened.0) [
        | inl failed ↦ ground (arith, failed, same, unlinked-create_refused opened.1.errno opened.1)
        | inr (fd, at) ↦ ground (arith, at, same, unlinked-create_pages size fd opened.1)
      ]
