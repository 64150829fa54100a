-- ===== src/SharedMemory/Open/Joined.antt =====
-- What a block that was opened holds (`shared_memory_block_open`).
use ipm.Base.{
  ℕ, zero, suc, ◌+◌, ◌≡◌, ◌≢◌, true, false, List, none, some, arith, inl, inr, Option-cases, subst,
}
use ipm.Error.{IpmResult}
use ipm.Layout.{
  AccessMode, read_write, page_size, Ptr, SharedMemoryHeader, SharedMemoryBlock, u32, u64,
}
use ipm.System.{Errno, Call, World, Posix, done, world_after}
use ipm.Platform.Undisturbed.{Undisturbed}
use ipm.Common.{Context}
use ipm.SharedMemory.{make_block_name_based_on_id}
use ipm.SharedMemory.Open.{
  same_prefix, await_creator, open_mapped, open_pages, open_header, open_refused,
  shared_memory_block_open,
}

-- A handle on the block of the header `h`: it takes the next id and is counted.
pub record Joined {K : Type 0} (name : List ℕ) (id : ℕ) (access : AccessMode)
    (h : SharedMemoryHeader) (b : SharedMemoryBlock) (last : World K) : Type 0 where
  pub ready : h.refcount ≢ 0
  pub same_id : h.block_id ≡ id
  pub same_name : same_prefix h.block_name name ≡ true
  pub access_id : b.access_id ≡ h.id_counter
  pub mapped_size : b.size ≡ h.block_size
  pub mode : b.access_mode ≡ access
  pub free : b.has_ownership ≡ false
  pub header :
      last.headers b.header.object
      ≡ record h { refcount = u32 (h.refcount + 1); id_counter = u64 (h.id_counter + 1) }

module _ {K : Type 0} (os : Posix K) (calm : Undisturbed os) where
  -- The wait ends when the block is ready, and has changed nothing.
  await_creator_lem :
      (fuel o : ℕ) (w u : World K)
      → await_creator os fuel o w ≡ done (tt, u)
      → (u.headers ≡ w.headers) × ((u.headers o).refcount ≢ 0)
  unfolding await_creator
  await_creator_lem zero o w u e = absurd (ground arith)
  await_creator_lem (suc fuel) o w u e = (
    ground (
      arith,
      calm.calls Call.sched_yield w,
      await_creator_lem fuel o (os.call Call.sched_yield w).1 u,
    ),
    ground (arith, await_creator_lem fuel o (os.call Call.sched_yield w).1 u),
  )

  module _ (context : Context K) (fuel : ℕ) (name : List ℕ) (id : ℕ) (access : AccessMode)
      (b : SharedMemoryBlock) (last : World K) where
    open_mapped-Joined :
        (fd : ℕ) (header memory : Ptr) (w : World K)
        → open_mapped os context fuel name id access fd
            (w.headers header.object).block_size
            header
            memory
            w
          ≡ done ((IpmResult.success, some b), last)
        → Joined name id access (w.headers b.header.object) b last
    unfolding open_mapped
    open_mapped-Joined fd header memory w e =
        let u = world_after (await_creator os fuel header.object w) w in
        let waited = await_creator_lem fuel header.object w u in
        record {
          ready = ground (arith, waited);
          same_id = ground (arith, waited);
          same_name = ground (arith, waited);
          access_id = ground (arith, waited);
          mapped_size = ground (arith, waited);
          mode = ground (arith, waited);
          free = ground (arith, waited);
          header = ground (arith, waited);
        }

    Joined-subst :
        (v w : World K)
        → v.headers ≡ w.headers
        → Joined name id access (v.headers b.header.object) b last
        → Joined name id access (w.headers b.header.object) b last
    Joined-subst v w same j =
        subst (λ (hs : ℕ → SharedMemoryHeader). Joined name id access (hs b.header.object) b last)
          same j

    open_pages-Joined :
        (fd : ℕ) (header : Ptr) (w : World K)
        → open_pages os context fuel name id access fd header w
          ≡ done ((IpmResult.success, some b), last)
        → Joined name id access (w.headers b.header.object) b last
    unfolding open_pages
    open_pages-Joined fd header w e =
        let size = (w.headers header.object).block_size in
        let mapped = os.mmap none size access fd page_size w in
        let same = calm.maps none size access fd page_size w in
        elim (Option-cases mapped.0) [
          | inl failed ↦ absurd (ground (arith, failed))
          | inr (memory, at) ↦
              Joined-subst mapped.1 w same
                (open_mapped-Joined fd header memory mapped.1 (ground (arith, at, same)))
        ]

    open_header-Joined :
        (fd : ℕ) (w : World K)
        → open_header os context fuel name id access fd w ≡ done ((IpmResult.success, some b), last)
        → Joined name id access (w.headers b.header.object) b last
    unfolding open_header
    open_header-Joined fd w e =
        let mapped = os.mmap none page_size read_write fd 0 w in
        elim (Option-cases mapped.0) [
          | inl failed ↦ absurd (ground (arith, failed))
          | inr (header, at) ↦
              Joined-subst mapped.1 w (calm.maps none page_size read_write fd 0 w)
                (open_pages-Joined fd header mapped.1 (ground (arith, at)))
        ]

    refused_lem :
        (e : Errno) (w : World K)
        → open_refused os context fuel id e w ≢ done ((IpmResult.success, some b), last)
    unfolding open_refused
    refused_lem e w q = absurd (ground arith)

    -- If no other process changes the shared memory during the calls, an opening that succeeds is of
    -- a block that is ready and has the id and a name that begins with the one that was asked for.
    -- The handle takes the header's next id, and its size; the header counts one handle more,
    -- and goes on to the id after, both in their width.
    pub block_open-Joined :
        (w : World K)
        → shared_memory_block_open os context fuel name id access w
          ≡ done ((IpmResult.success, some b), last)
        → Joined name id access (w.headers b.header.object) b last
    unfolding shared_memory_block_open
    block_open-Joined w e =
        let opened = os.shm_open (make_block_name_based_on_id name id) false w in
        elim (Option-cases opened.0) [
          | inl failed ↦ absurd (refused_lem opened.1.errno opened.1 (ground (arith, failed)))
          | inr (fd, at) ↦
              Joined-subst opened.1 w (calm.opens (make_block_name_based_on_id name id) false w)
                (open_header-Joined fd opened.1 (ground (arith, at)))
        ]
