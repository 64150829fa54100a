-- ===== src/SharedMemory/Open/Ready.antt =====
-- When `shared_memory_block_open` returns.
use ipm.Base.{ℕ, zero, suc, ◌<◌, ◌≤◌, ◌≡◌, ◌≢◌, true, false, List, none, some, arith, length}
use ipm.Error.{IpmResult}
use ipm.Layout.{AccessMode, read_write, max_name_len, page_size, Ptr, SharedMemoryBlock}
use ipm.System.{Call, World, Posix, done, world_after}
use ipm.Common.{Context}
use ipm.SharedMemory.{make_block_name_based_on_id}
use ipm.SharedMemory.Open.{
  same_prefix, await_creator, enter_block, open_mapped, shared_memory_block_open,
}

module _ {K : Type 0} (os : Posix K) (o : ℕ) where
  -- From `w`, after `n` yields, the creator has counted itself, at `u`.
  pub data ReadyAfter : ℕ → World K → World K → Type 0 where
    ready : {w : World K} → (w.headers o).refcount ≢ 0 → ReadyAfter 0 w w
    yields :
        {n : ℕ} {w u : World K}
        → (w.headers o).refcount ≡ 0
        → ReadyAfter n (os.call Call.sched_yield w).1 u
        → ReadyAfter (suc n) w u

  pub await_creator_returns :
      (fuel n : ℕ) {w u : World K}
      → ReadyAfter n w u
      → n < fuel
      → await_creator os fuel o w ≡ done (tt, u)
  unfolding await_creator
  await_creator_returns zero n r h = elim h [ ]
  await_creator_returns (suc fuel) n (ready some_handle) h = ground (arith, some_handle)
  await_creator_returns (suc fuel) (suc n) (yields none_yet r) h =
      ground (arith, none_yet, await_creator_returns fuel n r (ground arith))

module _ {K : Type 0} (os : Posix K) (context : Context K) (name : List ℕ) (id : ℕ)
    (access : AccessMode) where
  -- What the operating system gives to an opening that meets no error: a descriptor, the two
  -- mappings, and in the end a block that is ready and is the one that was asked for.
  pub record Served (w : World K) (n : ℕ) : Type 0 where
    pub fd : ℕ
    pub header : Ptr
    pub memory : Ptr
    pub opened : World K
    pub header_mapped : World K
    pub memory_mapped : World K
    pub found : World K
    pub opens : os.shm_open (make_block_name_based_on_id name id) false w ≡ (some fd, opened)
    pub maps_header : os.mmap none page_size read_write fd 0 opened ≡ (some header, header_mapped)
    pub not_null : header.address ≢ 0
    pub maps_memory :
        os.mmap none
          (header_mapped.headers header.object).block_size
          access
          fd
          page_size
          header_mapped
        ≡ (some memory, memory_mapped)
    pub waits : ReadyAfter os header.object n memory_mapped found
    pub same_id : (found.headers header.object).block_id ≡ id
    pub same_name : same_prefix (found.headers header.object).block_name name ≡ true

  mapped_returns :
      (fuel n : ℕ) (w : World K) (s : Served w n)
      → n < fuel
      → open_mapped os context fuel name id access s.fd
          (s.header_mapped.headers s.header.object).block_size
          s.header
          s.memory
          s.memory_mapped
        ≡ enter_block os context fuel access s.fd
            (s.header_mapped.headers s.header.object).block_size
            s.header
            s.memory
            s.found
  unfolding open_mapped
  mapped_returns fuel n w s lt =
      let waited = await_creator_returns os s.header.object fuel n s.waits lt in
      ground (arith, waited, s.same_id, s.same_name)

  -- An opening that meets no error and finds the block that was asked for returns success and a
  -- handle, if the creator is ready after fewer yields than the fuel.
  block_open_returns :
      (fuel n : ℕ) (w : World K)
      → length name ≤ max_name_len
      → Served w n
      → n < fuel
      → (b : SharedMemoryBlock) × (last : World K) × (shared_memory_block_open os context fuel name
            id access w
          ≡ done ((IpmResult.success, some b), last))
  unfolding shared_memory_block_open
  block_open_returns fuel n w short s lt =
      let entered = mapped_returns fuel n w s lt in
      let size = (s.header_mapped.headers s.header.object).block_size in
      let block : SharedMemoryBlock = record {
        access_id = (s.found.headers s.header.object).id_counter;
        size = size;
        header = s.header;
        memory = some s.memory;
        has_ownership = false;
        access_mode = access;
        mem_fd = s.fd;
      } in
      (
        block,
        world_after (shared_memory_block_open os context fuel name id access w) w,
        ground (arith, s.opens, s.maps_header, s.not_null, s.maps_memory, entered),
      )
