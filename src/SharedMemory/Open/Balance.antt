-- ===== src/SharedMemory/Open/Balance.antt =====
-- What `shared_memory_block_open` holds in the end.
use ipm.Base.{
  true, ℕ, zero, suc, String, ◌≡◌, false, List, [], ◌∷◌, Option, none, some, arith, inl, inr,
  Option-cases,
}
use ipm.Error.{IpmResult}
use ipm.Layout.{AccessMode, read_write, page_size, Ptr, SharedMemoryBlock}
use ipm.System.{Errno, Call, Arg, World, Posix, done, world_after}
use ipm.Platform.{ignoring}
use ipm.Common.{Context, ipm_report_error}
use ipm.Common.Accounts.{Held, with_fd, with_map, if_some, Accounts, now, report_held}
use ipm.SharedMemory.{make_block_name_based_on_id}
use ipm.SharedMemory.Create.Balance.{with_block, is_sound}
use ipm.SharedMemory.Open.{
  await_creator, open_mismatch, open_mapped, open_pages, open_header, open_refused,
  shared_memory_block_open,
}

module _ {K : Type 0} (os : Posix K) (context : Context K) (a : Accounts os context)
    (fuel : ℕ) where
  await_creator_held :
      (rounds o : ℕ) (w u : World K)
      → await_creator os rounds o w ≡ done (tt, u)
      → now os context a u ≡ now os context a w
  unfolding await_creator
  await_creator_held zero o w u e = absurd (ground arith)
  await_creator_held (suc rounds) o w u e =
      let w1 = (os.call Call.sched_yield w).1 in
      ground (arith, a.calls Call.sched_yield w, await_creator_held rounds o w1 u)

  module _ (name : List ℕ) (id : ℕ) (access : AccessMode) (res : IpmResult)
      (made : Option SharedMemoryBlock) (last : World K) (h : Held) where
    abbrev Balanced : Type 0
    Balanced = (now os context a last ≡ if_some made with_block h) × (is_sound res made ≡ true)

    open_mismatch-Balanced :
        (fd size : ℕ) (header memory : Ptr) (msg : String) (args : List Arg) (w : World K)
        → now os context a w ≡ with_block h
        → open_mismatch os context fuel fd size header memory msg args w ≡ done ((res, made), last)
        → Balanced
    unfolding open_mismatch
    open_mismatch-Balanced fd size header memory msg args w start e =
        let w1 = ignoring os (Call.close fd) w in
        let w2 = ipm_report_error os context msg args w1 in
        let w3 = ignoring os (Call.munmap (some header) page_size) w2 in
        (
          ground (
            arith,
            start,
            a.calls (Call.close fd) w,
            report_held os context a msg args w1,
            a.calls (Call.munmap (some header) page_size) w2,
            a.calls (Call.munmap (some memory) size) w3,
          ),
          ground (arith),
        )

    open_mapped-Balanced :
        (fd size : ℕ) (header memory : Ptr) (w : World K)
        → now os context a w ≡ with_block h
        → open_mapped os context fuel name id access fd size header memory w
          ≡ done ((res, made), last)
        → Balanced
    unfolding open_mapped
    open_mapped-Balanced fd size header memory w start e =
        let u = world_after (await_creator os fuel header.object w) w in
        let waited = await_creator_held fuel header.object w u in
        let found = u.headers header.object in
        let ids =
          open_mismatch-Balanced fd size header memory
            "Block id (%#016lX) did not match the specified id (%#016lX)"
            (Arg.number found.block_id ∷ Arg.number id ∷ []) u in
        let names =
          open_mismatch-Balanced fd size header memory
            "Block id (%s) did not match the specified id (%.*s)"
            (Arg.bytes name ∷ Arg.bytes found.block_name ∷ []) u in
        (ground (arith, start, waited, ids, names), ground (arith, ids, names))

    open_pages-Balanced :
        (fd : ℕ) (header : Ptr) (w : World K)
        → now os context a w ≡ with_map (with_fd h)
        → open_pages os context fuel name id access fd header w ≡ done ((res, made), last)
        → Balanced
    unfolding open_pages
    open_pages-Balanced fd header w start e =
        let size = (w.headers header.object).block_size in
        let mapped = os.mmap none size access fd page_size w in
        let counted = a.maps none size access fd page_size w in
        let w1 = mapped.1 in
        let w2 = ignoring os (Call.close fd) w1 in
        let w3 = ignoring os (Call.munmap (some header) page_size) w2 in
        let args = Arg.text (os.strerror w3.errno) ∷ [] in
        elim (Option-cases mapped.0) [
          | inl failed ↦ (
            ground (
              arith,
              start,
              failed,
              counted,
              a.calls (Call.close fd) w1,
              a.calls (Call.munmap (some header) page_size) w2,
              report_held os context a "Could not map shared memory to memory, reason: %s" args w3,
            ),
            ground (arith, failed),
          )
          | inr (memory, at) ↦
              open_mapped-Balanced fd size header memory w1 (ground (arith, start, at, counted))
                (ground (arith, at))
        ]

    open_header-Balanced :
        (fd : ℕ) (w : World K)
        → now os context a w ≡ with_fd h
        → open_header os context fuel name id access fd w ≡ done ((res, made), last)
        → Balanced
    unfolding open_header
    open_header-Balanced fd w start e =
        let mapped = os.mmap none page_size read_write fd 0 w in
        let counted = a.maps none page_size read_write fd 0 w in
        elim (Option-cases mapped.0) [
          | inl failed ↦ absurd (ground (arith, failed))
          | inr (header, at) ↦
              let high = a.not_null page_size read_write fd 0 w header at in
              open_pages-Balanced fd header mapped.1 (ground (arith, start, at, counted))
                (ground (arith, at, high))
        ]

    refused-Balanced :
        (e : Errno) (w : World K)
        → now os context a w ≡ h
        → open_refused os context fuel id e w ≡ done ((res, made), last)
        → Balanced
    unfolding open_refused
    refused-Balanced e w start q =
        let args = Arg.number id ∷ Arg.text (os.strerror w.errno) ∷ [] in
        (
          ground (
            arith,
            start,
            report_held os context a "Could not open block with id %#016lX, reason: %s" args w,
          ),
          ground (arith),
        )

    -- `shared_memory_block_open` that returns holds a descriptor and two mappings more than before
    -- when it returns a block, and as many as before when it returns none, also where the object
    -- turns out to be another block.
    pub block_open-Balanced :
        (w : World K)
        → now os context a w ≡ h
        → shared_memory_block_open os context fuel name id access w ≡ done ((res, made), last)
        → Balanced
    unfolding shared_memory_block_open
    block_open-Balanced w start e =
        let shm = make_block_name_based_on_id name id in
        let opened = os.shm_open shm false w in
        let counted = a.opens shm false w in
        elim (Option-cases opened.0) [
          | inl failed ↦
              refused-Balanced opened.1.errno opened.1 (ground (arith, start, failed, counted))
                (ground (arith, failed))
          | inr (fd, at) ↦
              open_header-Balanced fd opened.1 (ground (arith, start, at, counted))
                (ground (arith, at))
        ]
