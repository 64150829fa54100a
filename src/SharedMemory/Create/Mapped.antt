-- ===== src/SharedMemory/Create/Mapped.antt =====
-- What a successful `shared_memory_block_create` maps.
use ipm.Base.{ℕ, ◌+◌, ◌≡◌, List, ◌∷◌, true, none, some, arith, inl, inr, Option-cases}
use ipm.Error.{IpmResult}
use ipm.Layout.{AccessMode, read_write, page_size, Ptr, SharedMemoryBlock, u64}
use ipm.System.{Mutex, Call, World, Posix, done}
use ipm.Platform.Still.{mutex_init_still}
use ipm.Common.{Context}
use ipm.Common.Mappings.{Mappings, mapped, mappings_still}
use ipm.SharedMemory.{make_block_name_based_on_id}
use ipm.SharedMemory.Create.{
  start_header, create_mapped, create_header, create_pages, shared_memory_block_create,
}

module _ {K : Type 0} (os : Posix K) (context : Context K) (t : Mappings os) (name : List ℕ)
    (id : ℕ) (access : AccessMode) (b : SharedMemoryBlock) (last : World K) (size : ℕ) where
  -- From `w`, the block's header was mapped, and then all that the block knows of was.
  abbrev HeaderAdded : Ptr → World K → Type 0
  HeaderAdded memory w =
      (b.memory ≡ some memory)
      × (b.size ≡ size)
      × (mapped os t last ≡ (b.header, page_size) ∷ mapped os t w)

  -- From `w`, the two mappings of the block were added.
  abbrev pub BothAdded : World K → Type 0
  BothAdded w =
      (memory : Ptr) × (b.memory ≡ some memory)
      × (mapped os t last ≡ (b.header, page_size) ∷ (memory, b.size) ∷ mapped os t w)

  create_mapped-same :
      (fd : ℕ) (memory header : Ptr) (w : World K)
      → create_mapped os context name id size access fd memory header w
        ≡ done ((IpmResult.success, some b), last)
      → (b.memory ≡ some memory)
        × (b.size ≡ size)
        × (b.header ≡ header)
        × (mapped os t last ≡ mapped os t w)
  unfolding create_mapped
  create_mapped-same fd memory header w e =
      let begun = start_header os context header id size w in
      let mtx = Mutex.segment_mutex header.object in
      let same = mutex_init_still os (mapped os t) (mappings_still os t) mtx begun in
      (ground arith, ground arith, ground arith, ground (arith, same))

  create_header-HeaderAdded :
      (fd : ℕ) (memory : Ptr) (w : World K)
      → create_header os context name id size access fd memory w
        ≡ done ((IpmResult.success, some b), last)
      → HeaderAdded memory w
  unfolding create_header
  create_header-HeaderAdded fd memory w e =
      let m = os.mmap none page_size read_write fd 0 w in
      let added = t.maps none page_size read_write fd 0 w in
      elim (Option-cases m.0) [
        | inl failed ↦ absurd (ground (arith, failed))
        | inr (header, at) ↦
            let (knows, sized, has, same) =
              create_mapped-same fd memory header m.1 (ground (arith, at, e)) in
            (knows, sized, ground (arith, same, added, at, has))
      ]

  create_pages-BothAdded :
      (fd : ℕ) (w : World K)
      → create_pages os context name id size access fd w ≡ done ((IpmResult.success, some b), last)
      → BothAdded w
  unfolding create_pages
  create_pages-BothAdded fd w e =
      let grow = Call.ftruncate fd (u64 (size + page_size)) in
      let w1 = (os.call grow w).1 in
      let m = os.mmap none size access fd page_size w1 in
      let added = t.maps none size access fd page_size w1 in
      let grown = t.others grow w in
      elim (Option-cases m.0) [
        | inl failed ↦ absurd (ground (arith, failed))
        | inr (memory, at) ↦
            let (knows, sized, both) =
              create_header-HeaderAdded fd memory m.1 (ground (arith, at, e)) in
            (memory, knows, ground (arith, both, added, at, grown, sized))
      ]

  pub block_create-BothAdded :
      (w : World K)
      → shared_memory_block_create os context name id size access w
        ≡ done ((IpmResult.success, some b), last)
      → BothAdded w
  unfolding shared_memory_block_create
  block_create-BothAdded w e =
      let shm = make_block_name_based_on_id name id in
      let opened = os.shm_open shm true w in
      let same = t.opens shm true w in
      elim (Option-cases opened.0) [
        | inl failed ↦ absurd (ground (arith, failed))
        | inr (fd, at) ↦
            let (memory, knows, both) =
              create_pages-BothAdded fd opened.1 (ground (arith, at, e)) in
            (memory, knows, ground (arith, both, same))
      ]
