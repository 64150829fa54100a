-- ===== src/SharedMemory/Open/Unlinking.antt =====
-- A successful `shared_memory_block_open` unlinks no name.
use ipm.Base.{ℕ, zero, suc, ◌≡◌, false, List, none, some, arith, inl, inr, Option-cases}
use ipm.Error.{IpmResult}
use ipm.Layout.{AccessMode, read_write, page_size, Ptr, SharedMemoryBlock}
use ipm.System.{Errno, Call, World, Posix, done, world_after}
use ipm.Common.{Context}
use ipm.SharedMemory.{make_block_name_based_on_id}
use ipm.SharedMemory.Open.{
  await_creator, open_mapped, open_pages, open_header, open_refused, shared_memory_block_open,
}
use ipm.Common.Unlinks.{Unlinks, unlinked}

module _ {K : Type 0} (os : Posix K) (context : Context K) (u : Unlinks os) where
  unlinked-await_creator :
      (fuel o : ℕ) (w v : World K)
      → await_creator os fuel o w ≡ done (tt, v)
      → unlinked os u v ≡ unlinked os u w
  unfolding await_creator
  unlinked-await_creator zero o w v e = absurd (ground arith)
  unlinked-await_creator (suc fuel) o w v e =
      let w1 = (os.call Call.sched_yield w).1 in
      ground (arith, u.calls Call.sched_yield w, unlinked-await_creator fuel o w1 v)

module _ {K : Type 0} (os : Posix K) (context : Context K) (u : Unlinks os) (name : List ℕ) (id : ℕ)
    (access : AccessMode) (b : SharedMemoryBlock) (last : World K) where
  unlinked-open_mapped :
      (fuel fd size : ℕ) (header memory : Ptr) (w : World K)
      → open_mapped os context fuel name id access fd size header memory w
        ≡ done ((IpmResult.success, some b), last)
      → unlinked os u last ≡ unlinked os u w
  unfolding open_mapped
  unlinked-open_mapped fuel fd size header memory w e =
      let v = world_after (await_creator os fuel header.object w) w in
      ground (arith, unlinked-await_creator os context u fuel header.object w v)

  unlinked-open_pages :
      (fuel fd : ℕ) (header : Ptr) (w : World K)
      → open_pages os context fuel name id access fd header w
        ≡ done ((IpmResult.success, some b), last)
      → unlinked os u last ≡ unlinked os u w
  unfolding open_pages
  unlinked-open_pages fuel fd header w e =
      let size = (w.headers header.object).block_size in
      let mapped = os.mmap none size access fd page_size w in
      let same = u.maps none size access fd page_size w in
      elim (Option-cases mapped.0) [
        | inl failed ↦ absurd (ground (arith, failed))
        | inr (memory, at) ↦
            ground (arith, at, same, unlinked-open_mapped fuel fd size header memory mapped.1)
      ]

  unlinked-open_header :
      (fuel fd : ℕ) (w : World K)
      → open_header os context fuel name id access fd w ≡ done ((IpmResult.success, some b), last)
      → unlinked os u last ≡ unlinked os u w
  unfolding open_header
  unlinked-open_header fuel fd w e =
      let mapped = os.mmap none page_size read_write fd 0 w in
      let same = u.maps none page_size read_write fd 0 w in
      elim (Option-cases mapped.0) [
        | inl failed ↦ absurd (ground (arith, failed))
        | inr (header, at) ↦ ground (arith, at, same, unlinked-open_pages fuel fd header mapped.1)
      ]

  unlinked-open_refused :
      (fuel : ℕ) (e : Errno) (w : World K)
      → open_refused os context fuel id e w ≡ done ((IpmResult.success, some b), last)
      → unlinked os u last ≡ unlinked os u w
  unfolding open_refused
  unlinked-open_refused fuel e w q = absurd (ground arith)

  pub unlinked-block_open :
      (fuel : ℕ) (w : World K)
      → shared_memory_block_open os context fuel name id access w
        ≡ done ((IpmResult.success, some b), last)
      → unlinked os u last ≡ unlinked os u w
  unfolding shared_memory_block_open
  unlinked-block_open fuel w e =
      let shm = make_block_name_based_on_id name id in
      let opened = os.shm_open shm false w in
      let same = u.opens shm false w in
      elim (Option-cases opened.0) [
        | inl failed ↦
            ground (arith, failed, same, unlinked-open_refused fuel opened.1.errno opened.1)
        | inr (fd, at) ↦ ground (arith, at, same, unlinked-open_header fuel fd opened.1)
      ]
