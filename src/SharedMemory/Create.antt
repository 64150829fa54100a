-- ===== src/SharedMemory/Create.antt =====
-- `shared_memory_block_create`.
pub mod Started
pub mod Balance
pub mod Returning
pub mod Unlinking
pub mod Mapped
use ipm.Base.{
  ℕ, ◌+◌, ◌%◌, true, false, List, [], ◌∷◌, Option, none, some, ltb, leb, ◌==◌, if◌then◌else◌,
  length,
}
use ipm.Error.{IpmResult}
use ipm.Layout.{AccessMode, read_write, max_name_len, page_size, Ptr, SharedMemoryBlock, u64}
use ipm.System.{
  Errno, Mutex, Call, Arg, World, Posix, done, M, pure, ◌>>=◌, ◌>>◌, run, read, modify, fault,
  assert, set_header,
}
use ipm.Platform.{ipm_mutex_init}
use ipm.Common.{Context}
use ipm.Claim.{is_success}
use ipm.SharedMemory.{
  report_errno, do_call, fail_by, make_block_name_based_on_id, create_failure,
  create_truncate_failure, mmap_failure,
}

module _ {K : Type 0} (os : Posix K) (context : Context K) where
  -- The header's fields, up to the mutex.
  start_header : Ptr → ℕ → ℕ → World K → World K
  start_header header id size w =
      set_header header.object
        (record (w.headers header.object) { block_id = id; block_size = size; id_counter = 1 }) w

  -- What follows the mutex: the name, the block, and last the count that lets others in.
  finish_block :
      List ℕ → ℕ → AccessMode → ℕ → Ptr → Ptr → M K (IpmResult × Option SharedMemoryBlock)
  finish_block block_name size access fd memory header w =
      let h = w.headers header.object in
      let block : SharedMemoryBlock = record {
        access_id = h.id_counter;
        size = size;
        header = header;
        memory = some memory;
        has_ownership = false;
        access_mode = access;
        mem_fd = fd;
      } in
      done (
        (IpmResult.success, some block),
        set_header header.object
            (record h {
              block_name = block_name;
              id_counter = u64 (h.id_counter + 1);
              refcount = 1;
            })
            w,
      )

  -- The block's pages and its header are mapped.
  create_mapped :
      List ℕ → ℕ → ℕ → AccessMode → ℕ → Ptr → Ptr → M K (IpmResult × Option SharedMemoryBlock)
  unfolding start_header finish_block
  create_mapped block_name id size access fd memory header = do
    modify (start_header header id size)
    res ← run (ipm_mutex_init os (Mutex.segment_mutex header.object))
    if is_success res then finish_block block_name size access fd memory header else (do
      do_call os (Call.close fd)
      report_errno os context "Could not create block mutex, reason: %s" []
      do_call os (Call.munmap (some header) page_size)
      do_call os (Call.munmap (some memory) size)
      do_call os (Call.shm_unlink (make_block_name_based_on_id block_name id))
      pure (res, none))

  -- The block's pages are mapped. The header's mapping is tested against NULL, not MAP_FAILED, so
  -- after a failure the code writes through the address -1.
  create_header : List ℕ → ℕ → ℕ → AccessMode → ℕ → Ptr → M K (IpmResult × Option SharedMemoryBlock)
  unfolding create_mapped mmap_failure
  create_header block_name id size access fd memory = do
    header? ← run (os.mmap none page_size read_write fd 0)
    elim header? [
      | none ↦ λ w. fault
      | some header ↦
          if header.address == 0
          then (do
            do_call os (Call.close fd)
            report_errno os context "Could not map shared memory to memory, reason: %s" []
            do_call os (Call.munmap (some memory) size)
            do_call os (Call.shm_unlink (make_block_name_based_on_id block_name id))
            fail_by mmap_failure)
          else create_mapped block_name id size access fd memory header
    ]

  -- The object is open.
  create_pages : List ℕ → ℕ → ℕ → AccessMode → ℕ → M K (IpmResult × Option SharedMemoryBlock)
  unfolding create_header create_truncate_failure
  create_pages block_name id size access fd = do
    truc_res ← run (os.call (Call.ftruncate fd (u64 (size + page_size))))
    elim truc_res [
      | Errno.ok ↦ (do
        memory? ← run (os.mmap none size access fd page_size)
        elim memory? [
          | none ↦ (do
            do_call os (Call.close fd)
            report_errno os context "Could not map shared memory to memory, reason: %s" []
            do_call os (Call.shm_unlink (make_block_name_based_on_id block_name id))
            fail_by mmap_failure)
          | some memory ↦ create_header block_name id size access fd memory
        ])
      | _ ↦ (do
        report_errno os context "Could not truncate shared memory's FD to %zu bytes, reason: %s"
            (Arg.number (u64 (size + page_size)) ∷ [])
        do_call os (Call.close fd)
        do_call os (Call.shm_unlink (make_block_name_based_on_id block_name id))
        fail_by create_truncate_failure)
    ]

  -- A failed `shm_open`: EEXIST is no error to report.
  create_refused : ℕ → Errno → M K (IpmResult × Option SharedMemoryBlock)
  unfolding create_failure
  create_refused id Errno.eexist = pure (IpmResult.err_exists, none)
  create_refused id _ = do
    report_errno os context "Could not open block with id %#016lX, reason: %s" (Arg.number id ∷ [])
    fail_by create_failure

  unfoldable pub shared_memory_block_create :
      List ℕ → ℕ → ℕ → AccessMode → M K (IpmResult × Option SharedMemoryBlock)
  unfolding create_pages create_refused
  shared_memory_block_create block_name id size access = do
    assert os (size % page_size == 0)
    assert os (ltb 0 size)
    assert os (leb (length block_name) max_name_len)
    fd? ← run (os.shm_open (make_block_name_based_on_id block_name id) true)
    e ← read (λ w. w.errno)
    elim fd? [ none ↦ create_refused id e | some fd ↦ create_pages block_name id size access fd ]
