-- ===== src/SharedMemory/Create/Balance.antt =====
-- What `shared_memory_block_create` holds in the end.
use ipm.Base.{
  ◌&&◌, not, Bool, String, ℕ, ◌+◌, ◌≡◌, true, List, [], ◌∷◌, Option, none, some, arith, inl, inr,
  Option-cases,
}
use ipm.Error.{IpmResult}
use ipm.Layout.{AccessMode, read_write, page_size, Ptr, SharedMemoryBlock, u64}
use ipm.System.{Errno, Mutex, Call, Arg, World, Posix, done}
use ipm.Platform.{ignoring, ipm_mutex_init}
use ipm.Platform.Still.{ok-cases, mutex_init_still}
use ipm.Common.{Context, ipm_report_error}
use ipm.Common.Accounts.{
  Held, held, with_fd, with_map, if_some, Accounts, now, calls_still, report_held,
}
use ipm.Claim.{is_success}
use ipm.SharedMemory.{make_block_name_based_on_id}
use ipm.SharedMemory.Mapping.{is_mapped}
use ipm.SharedMemory.Create.{
  start_header, create_mapped, create_header, create_pages, create_refused,
  shared_memory_block_create,
}

-- A block holds a descriptor and two mappings.
abbrev pub with_block : Held → Held
with_block h = held (h.fds + 1) (h.maps + 2)

-- A block comes with success, and only then; it knows where its memory is, and does not own it.
abbrev pub is_sound : IpmResult → Option SharedMemoryBlock → Bool
is_sound res none = not (is_success res)
is_sound res (some b) = is_success res && (is_mapped b.memory && not b.has_ownership)

module _ {K : Type 0} (os : Posix K) (context : Context K) (a : Accounts os context) (name : List ℕ)
    (id size : ℕ) (access : AccessMode) (res : IpmResult) (made : Option SharedMemoryBlock)
    (last : World K) (h : Held) where
  abbrev Balanced : Type 0
  Balanced = (now os context a last ≡ if_some made with_block h) × (is_sound res made ≡ true)

  create_mapped-Balanced :
      (fd : ℕ) (memory header : Ptr) (w : World K)
      → now os context a w ≡ with_block h
      → create_mapped os context name id size access fd memory header w ≡ done ((res, made), last)
      → Balanced
  unfolding create_mapped
  create_mapped-Balanced fd memory header w start e =
      let begun = start_header os context header id size w in
      let mtx = Mutex.segment_mutex header.object in
      let w1 = (ipm_mutex_init os mtx begun).1 in
      let same = mutex_init_still os (now os context a) (calls_still os context a) mtx begun in
      let w2 = ignoring os (Call.close fd) w1 in
      let args = Arg.text (os.strerror w2.errno) ∷ [] in
      let w3 = ipm_report_error os context "Could not create block mutex, reason: %s" args w2 in
      let w4 = ignoring os (Call.munmap (some header) page_size) w3 in
      let w5 = ignoring os (Call.munmap (some memory) size) w4 in
      (
        ground (
          arith,
          start,
          same,
          a.calls (Call.close fd) w1,
          report_held os context a "Could not create block mutex, reason: %s" args w2,
          a.calls (Call.munmap (some header) page_size) w3,
          a.calls (Call.munmap (some memory) size) w4,
          a.calls (Call.shm_unlink (make_block_name_based_on_id name id)) w5,
        ),
        ground (arith),
      )

  create_header-Balanced :
      (fd : ℕ) (memory : Ptr) (w : World K)
      → now os context a w ≡ with_map (with_fd h)
      → create_header os context name id size access fd memory w ≡ done ((res, made), last)
      → Balanced
  unfolding create_header
  create_header-Balanced fd memory w start e =
      let mapped = os.mmap none page_size read_write fd 0 w in
      elim (Option-cases mapped.0) [
        | inl failed ↦ absurd (ground (arith, failed))
        | inr (header, at) ↦
            let counted = a.maps none page_size read_write fd 0 w in
            let high = a.not_null page_size read_write fd 0 w header at in
            create_mapped-Balanced fd memory header mapped.1 (ground (arith, start, at, counted))
              (ground (arith, at, high))
      ]

  create_pages-Balanced :
      (fd : ℕ) (w : World K)
      → now os context a w ≡ with_fd h
      → create_pages os context name id size access fd w ≡ done ((res, made), last)
      → Balanced
  unfolding create_pages
  create_pages-Balanced fd w start e =
      let shm = make_block_name_based_on_id name id in
      let truncated = os.call (Call.ftruncate fd (u64 (size + page_size))) w in
      let w1 = truncated.1 in
      let reason : List Arg =
        Arg.number (u64 (size + page_size)) ∷ Arg.text (os.strerror w1.errno) ∷ [] in
      let msg : String = "Could not truncate shared memory's FD to %zu bytes, reason: %s" in
      let r1 = ipm_report_error os context msg reason w1 in
      let r2 = ignoring os (Call.close fd) r1 in
      let mapped = os.mmap none size access fd page_size w1 in
      let w2 = mapped.1 in
      let c1 = ignoring os (Call.close fd) w2 in
      let args = Arg.text (os.strerror c1.errno) ∷ [] in
      let c2 =
        ipm_report_error os context "Could not map shared memory to memory, reason: %s" args c1 in
      let kept = a.calls (Call.ftruncate fd (u64 (size + page_size))) w in
      let counted = a.maps none size access fd page_size w1 in
      elim (ok-cases truncated.0) [
        | inr bad ↦ (
          ground (
            arith,
            start,
            kept,
            bad,
            report_held os context a msg reason w1,
            a.calls (Call.close fd) r1,
            a.calls (Call.shm_unlink shm) r2,
          ),
          ground (arith, bad),
        )
        | inl good ↦ elim (Option-cases mapped.0) [
          | inl failed ↦ (
            ground (
              arith,
              start,
              kept,
              good,
              failed,
              counted,
              a.calls (Call.close fd) w2,
              report_held os context a "Could not map shared memory to memory, reason: %s" args c1,
              a.calls (Call.shm_unlink shm) c2,
            ),
            ground (arith, good, failed),
          )
          | inr (memory, at) ↦
              create_header-Balanced fd memory w2 (ground (arith, start, kept, at, counted))
                (ground (arith, good, at))
        ]
      ]

  refused-Balanced :
      (e : Errno) (w : World K)
      → now os context a w ≡ h
      → create_refused os context id e w ≡ done ((res, made), last)
      → Balanced
  unfolding create_refused
  refused-Balanced e w start q =
      let args = Arg.number id ∷ Arg.text (os.strerror w.errno) ∷ [] in
      (
        ground (
          arith,
          start,
          report_held os context a "Could not open block with id %#016lX, reason: %s" args w,
        ),
        ground (arith),
      )

  -- `shared_memory_block_create` holds what it returns and nothing else: when it returns a block the
  -- process has a descriptor and two mappings more than before, and when it returns none, because
  -- any call failed, it has as many as before.
  pub block_create-Balanced :
      (w : World K)
      → now os context a w ≡ h
      → shared_memory_block_create os context name id size access w ≡ done ((res, made), last)
      → Balanced
  unfolding shared_memory_block_create
  block_create-Balanced w start e =
      let shm = make_block_name_based_on_id name id in
      let opened = os.shm_open shm true w in
      let counted = a.opens shm true w in
      elim (Option-cases opened.0) [
        | inl failed ↦
            refused-Balanced opened.1.errno opened.1 (ground (arith, start, failed, counted))
              (ground (arith, failed))
        | inr (fd, at) ↦
            create_pages-Balanced fd opened.1 (ground (arith, start, at, counted))
              (ground (arith, at))
      ]
