-- ===== src/SharedMemory/Create/Started.antt =====
-- What a block that was created holds (`shared_memory_block_create`).
use ipm.Base.{ℕ, ◌+◌, ◌≡◌, true, false, List, none, some, arith, inl, inr, Option-cases}
use ipm.Error.{IpmResult}
use ipm.Layout.{AccessMode, read_write, page_size, Ptr, SharedMemoryBlock, u64}
use ipm.System.{Errno, Mutex, Call, World, Posix, done}
use ipm.Platform.Undisturbed.{Undisturbed, mutex_init_same}
use ipm.Common.{Context}
use ipm.SharedMemory.{make_block_name_based_on_id}
use ipm.SharedMemory.Create.{
  start_header, create_mapped, create_header, create_pages, create_refused,
  shared_memory_block_create,
}

-- The first handle: it has the id 1, and the header counts it alone and gives 2 to the next.
pub record Started {K : Type 0} (name : List ℕ) (id size : ℕ) (access : AccessMode)
    (b : SharedMemoryBlock) (last : World K) : Type 0 where
  pub access_id : b.access_id ≡ 1
  pub mapped_size : b.size ≡ size
  pub mode : b.access_mode ≡ access
  pub free : b.has_ownership ≡ false
  pub header :
      last.headers b.header.object
      ≡ record { refcount = 1; block_size = size; id_counter = 2; block_id = id; block_name = name }

module _ {K : Type 0} (os : Posix K) (context : Context K) (calm : Undisturbed os) (name : List ℕ)
    (id size : ℕ) (access : AccessMode) (b : SharedMemoryBlock) (last : World K) where
  create_mapped-Started :
      (fd : ℕ) (memory header : Ptr) (w : World K)
      → create_mapped os context name id size access fd memory header w
        ≡ done ((IpmResult.success, some b), last)
      → Started name id size access b last
  unfolding create_mapped
  create_mapped-Started fd memory header w e =
      let begun = start_header os context header id size w in
      let same = mutex_init_same os calm (Mutex.segment_mutex header.object) begun in
      record {
        access_id = ground (arith, same);
        mapped_size = ground arith;
        mode = ground arith;
        free = ground arith;
        header = ground (arith, same);
      }

  create_header-Started :
      (fd : ℕ) (memory : Ptr) (w : World K)
      → create_header os context name id size access fd memory w
        ≡ done ((IpmResult.success, some b), last)
      → Started name id size access b last
  unfolding create_header
  create_header-Started fd memory w e =
      let mapped = os.mmap none page_size read_write fd 0 w in
      elim (Option-cases mapped.0) [
        | inl failed ↦ absurd (ground (arith, failed))
        | inr (header, at) ↦ create_mapped-Started fd memory header mapped.1 (ground (arith, at))
      ]

  create_pages-Started :
      (fd : ℕ) (w : World K)
      → create_pages os context name id size access fd w ≡ done ((IpmResult.success, some b), last)
      → Started name id size access b last
  unfolding create_pages
  create_pages-Started fd w e =
      let w1 = (os.call (Call.ftruncate fd (u64 (size + page_size))) w).1 in
      let mapped = os.mmap none size access fd page_size w1 in
      elim (Option-cases mapped.0) [
        | inl failed ↦ absurd (ground (arith, failed))
        | inr (memory, at) ↦ create_header-Started fd memory mapped.1 (ground (arith, at))
      ]

  refused_lem :
      (e : Errno) (w : World K)
      → create_refused os context id e w ≡ done ((IpmResult.success, some b), last)
      → Started name id size access b last
  unfolding create_refused
  refused_lem e w q = absurd (ground arith)

  -- If no other process changes the shared memory during the calls, a creation that succeeds gives
  -- the handle the id 1 and the size and mode that were asked for, and leaves a header that names
  -- the block, counts one handle, and has 2 as the next id.
  pub block_create-Started :
      (w : World K)
      → shared_memory_block_create os context name id size access w
        ≡ done ((IpmResult.success, some b), last)
      → Started name id size access b last
  unfolding shared_memory_block_create
  block_create-Started w e =
      let opened = os.shm_open (make_block_name_based_on_id name id) true w in
      elim (Option-cases opened.0) [
        | inl failed ↦ refused_lem opened.1.errno opened.1 (ground (arith, failed))
        | inr (fd, at) ↦ create_pages-Started fd opened.1 (ground (arith, at))
      ]
