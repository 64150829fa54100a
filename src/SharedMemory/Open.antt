-- ===== src/SharedMemory/Open.antt =====
-- `shared_memory_block_open`.
pub mod Joined
pub mod Balance
pub mod Returning
pub mod Unlinking
pub mod Ready
use ipm.Base.{
  ℕ, zero, suc, ◌+◌, Bool, true, false, not, ◌&&◌, List, [], ◌∷◌, Option, none, some, leb, ◌==◌,
  if◌then◌else◌, length, String,
}
use ipm.Error.{IpmResult}
use ipm.Layout.{AccessMode, read_write, max_name_len, page_size, Ptr, SharedMemoryBlock, u64, u32}
use ipm.System.{
  Errno, Call, Arg, Posix, done, M, pure, ◌>>=◌, ◌>>◌, run, read, fault, blocked, assert,
  set_header,
}
use ipm.Common.{Context, ipm_report_error}
use ipm.SharedMemory.{
  report_errno, do_call, fail_by, make_block_name_based_on_id, open_failure, mmap_failure,
}

-- `memcmp(header->block_name, block_name, name_len) == 0`: the header's name begins with the other.
unfoldable pub same_prefix : List ℕ → List ℕ → Bool
same_prefix header_name [] = true
same_prefix [] (b ∷ name) = false
same_prefix (a ∷ header_name) (b ∷ name) = a == b && same_prefix header_name name

module _ {K : Type 0} (os : Posix K) where
  -- `while (header->refcount == 0) sched_yield();`, with fuel.
  pub await_creator : ℕ → ℕ → M K (Unit {0})
  await_creator zero o w = blocked
  await_creator (suc fuel) o w =
      let again = await_creator fuel o (os.call Call.sched_yield w).1 in
      if (w.headers o).refcount == 0 then again else done (tt, w)

  module _ (context : Context K) (fuel : ℕ) where
    -- The object is another one: everything is given back.
    open_mismatch :
        ℕ → ℕ → Ptr → Ptr → String → List Arg → M K (IpmResult × Option SharedMemoryBlock)
    open_mismatch fd size header memory msg args = do
      do_call os (Call.close fd)
      (λ w. done (tt, ipm_report_error os context msg args w))
      do_call os (Call.munmap (some header) page_size)
      do_call os (Call.munmap (some memory) size)
      pure (IpmResult.err_bad_id, none)

    -- Count the new handle, and number it.
    enter_block : AccessMode → ℕ → ℕ → Ptr → Ptr → M K (IpmResult × Option SharedMemoryBlock)
    enter_block access fd size header memory w =
        let h = w.headers header.object in
        let block : SharedMemoryBlock = record {
          access_id = h.id_counter;
          size = size;
          header = header;
          memory = some memory;
          has_ownership = false;
          access_mode = access;
          mem_fd = fd;
        } in
        done (
          (IpmResult.success, some block),
          set_header header.object
              (record h { refcount = u32 (h.refcount + 1); id_counter = u64 (h.id_counter + 1) }) w,
        )

    -- Both parts are mapped.
    open_mapped :
        List ℕ → ℕ → AccessMode → ℕ → ℕ → Ptr → Ptr → M K (IpmResult × Option SharedMemoryBlock)
    unfolding open_mismatch enter_block same_prefix await_creator
    open_mapped block_name id access fd size header memory = do
      await_creator fuel header.object
      h ← read (λ w. w.headers header.object)
      if not (h.block_id == id)
          then open_mismatch fd size header memory
              "Block id (%#016lX) did not match the specified id (%#016lX)"
              (Arg.number h.block_id ∷ Arg.number id ∷ [])
          else if not (same_prefix h.block_name block_name)
          then open_mismatch fd size header memory
              "Block id (%s) did not match the specified id (%.*s)"
              (Arg.bytes block_name ∷ Arg.bytes h.block_name ∷ [])
          else enter_block access fd size header memory

    -- The header is mapped: the size to map is read from it.
    open_pages : List ℕ → ℕ → AccessMode → ℕ → Ptr → M K (IpmResult × Option SharedMemoryBlock)
    unfolding open_mapped mmap_failure
    open_pages block_name id access fd header = do
      size ← read (λ w. (w.headers header.object).block_size)
      memory? ← run (os.mmap none size access fd page_size)
      elim memory? [
        | none ↦ (do
          do_call os (Call.close fd)
          do_call os (Call.munmap (some header) page_size)
          report_errno os context "Could not map shared memory to memory, reason: %s" []
          fail_by mmap_failure)
        | some memory ↦ open_mapped block_name id access fd size header memory
      ]

    -- The object is open. As in `shared_memory_block_create`, MAP_FAILED passes the test.
    open_header : List ℕ → ℕ → AccessMode → ℕ → M K (IpmResult × Option SharedMemoryBlock)
    unfolding open_pages
    open_header block_name id access fd = do
      header? ← run (os.mmap none page_size read_write fd 0)
      elim header? [
        | none ↦ λ w. fault
        | some header ↦
            if header.address == 0
            then (do
              report_errno os context "Could not map shared memory to memory, reason: %s" []
              fail_by mmap_failure)
            else open_pages block_name id access fd header
      ]

    open_refused : ℕ → Errno → M K (IpmResult × Option SharedMemoryBlock)
    unfolding open_failure
    open_refused id Errno.eexist = pure (IpmResult.err_exists, none)
    open_refused id _ = do
      report_errno os context "Could not open block with id %#016lX, reason: %s"
          (Arg.number id ∷ [])
      fail_by open_failure

    unfoldable pub shared_memory_block_open :
        List ℕ → ℕ → AccessMode → M K (IpmResult × Option SharedMemoryBlock)
    unfolding open_header open_refused
    shared_memory_block_open block_name id access = do
      assert os (leb (length block_name) max_name_len)
      fd? ← run (os.shm_open (make_block_name_based_on_id block_name id) false)
      e ← read (λ w. w.errno)
      elim fd? [ none ↦ open_refused id e | some fd ↦ open_header block_name id access fd ]
