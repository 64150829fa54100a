-- ===== src/Memory/Lifetime.antt =====
-- The life of a handle: `ipm_memory_create`, `ipm_memory_open`, `ipm_memory_close` and
-- `ipm_memory_clean`. A final 0 that `strncpy` leaves out of a name of full length is not modelled.
pub mod Ending
pub mod Balance
pub mod Creating
pub mod Undoing
pub mod Settling
pub mod Opening
pub mod Closing
pub mod Leaving
pub mod Entering
pub mod RoundTrip
pub mod Locking
pub mod Destroying
pub mod Mapped
pub mod Unmapping
use ipm.Base.{
  ℕ, String, ◌+◌, ◌-◌, ◌*◌, ◌/◌, ◌%◌, Bool, false, not, ◌||◌, List, [], ◌∷◌, Option, none, some,
  ltb, leb, ◌==◌, if◌then◌else◌, length,
}
use ipm.Error.{IpmResult}
use ipm.Layout.{
  AccessMode, read_write, default_claim_capacity, max_name_len, page_size, SharedMemoryBlock, u64,
}
use ipm.System.{Arg, Posix, done, fault, M, pure, ◌>>=◌, ◌>>◌, run, assert}
use ipm.Common.{Context, ipm_alloc_real, ipm_free}
use ipm.Claim.{is_success, claim_list_init, claim_list_uninit}
use ipm.SharedMemory.Create.{shared_memory_block_create}
use ipm.SharedMemory.Open.{shared_memory_block_open}
use ipm.SharedMemory.Close.{shared_memory_block_close, shared_memory_block_clean}
use ipm.Memory.{IpmMemory, real_memory_id, active_claims_id, round_size, reason, report, pointed}
use ipm.Memory.Region.{ipm_memory_release_all}

-- The `sizeof` of `ipm_memory`, `ipm_claim_list` and `ipm_memory_claim`, which the platform's ABI
-- decides.
pub record Abi : Type 0 where
  pub sizeof_memory : ℕ
  pub sizeof_claim_list : ℕ
  pub sizeof_memory_claim : ℕ

-- `strchr(name, '/') != NULL`
unfoldable pub has_slash : List ℕ → Bool
has_slash [] = false
has_slash (b ∷ name) = b == b'/' || has_slash name

module _ (abi : Abi) where
  pub claim_size : ℕ
  unfolding round_size
  claim_size =
      round_size (u64 (abi.sizeof_claim_list + default_claim_capacity * abi.sizeof_memory_claim))

  pub real_claim_capacity : ℕ
  unfolding claim_size
  real_claim_capacity = (claim_size - abi.sizeof_claim_list) / abi.sizeof_memory_claim

module _ {K : Type 0} (os : Posix K) where
  abbrev free_handle : Context K → ℕ → M K (Unit {0})
  free_handle context this w = done (tt, ipm_free os context (some this) w)

  -- A block that was created comes with its data.
  abbrev created : Option SharedMemoryBlock → M K SharedMemoryBlock
  created none w = fault
  created (some block) w = done (block, w)

  module _ (context : Context K) (this : ℕ) (name : List ℕ) where
    -- The end of an error path: the report, what is undone, and the handle's memory freed.
    pub give_up : String → M K (Unit {0}) → IpmResult → M K (IpmResult × Option (IpmMemory K))
    give_up msg undo res = do
      report os context msg (Arg.bytes name ∷ reason res)
      undo
      free_handle context this
      pure (res, none)

    -- The handle, when it is complete.
    abbrev handle_of : SharedMemoryBlock → SharedMemoryBlock → IpmMemory K
    handle_of real claims = record {
      address = this;
      ctx = context;
      block_name = name;
      real_memory = real;
      active_claims = claims;
    }

  abbrev undo_block : Context K → SharedMemoryBlock → M K (Unit {0})
  undo_block context block = do shared_memory_block_close os context block none; pure tt

  abbrev undo_list : Context K → SharedMemoryBlock → M K (Unit {0})
  undo_list context claims = do
    o ← pointed claims.memory
    claim_list_uninit os o
    undo_block context claims

  module _ (abi : Abi) (context : Context K) (this : ℕ) (name : List ℕ) where
    -- The claim list is ready: the memory itself, which other processes look for first.
    create_real : SharedMemoryBlock → ℕ → AccessMode → M K (IpmResult × Option (IpmMemory K))
    unfolding give_up
    create_real claims proper_size access = do
      (res, real?) ← shared_memory_block_create os context name real_memory_id proper_size access
      if is_success res
          then (do
            real ← created real?
            pure (IpmResult.success, some (handle_of context this name real claims)))
          else give_up context this name
              "Could not create the shared memory block %s, reason: %s (%s)"
              (undo_list context claims) res

    create_list : SharedMemoryBlock → ℕ → AccessMode → M K (IpmResult × Option (IpmMemory K))
    unfolding create_real real_claim_capacity
    create_list claims proper_size access = do
      o ← pointed claims.memory
      res ← claim_list_init os o (real_claim_capacity abi)
      if is_success res
          then create_real claims proper_size access
          else give_up context this name
              "Could not initialize the claims list for the memory block %s, reason: %s (%s)"
              (undo_block context claims) res

    create_blocks : ℕ → AccessMode → M K (IpmResult × Option (IpmMemory K))
    unfolding create_list claim_size
    create_blocks proper_size access = do
      (res, claims?) ←
          shared_memory_block_create os context name active_claims_id (claim_size abi) read_write
      if is_success res
          then (do claims ← created claims?; create_list claims proper_size access)
          else give_up context this name
              "Could not create the shared memory block claim list %s, reason: %s (%s)" (pure tt)
              res

  unfoldable pub ipm_memory_create :
      Abi → Context K → ℕ → List ℕ → AccessMode → M K (IpmResult × Option (IpmMemory K))
  unfolding create_blocks round_size
  ipm_memory_create abi context block_size block_name access = do
    assert os (ltb 0 block_size)
    assert os (not (has_slash block_name))
    assert os (leb (length block_name) max_name_len)
    this? ← run (ipm_alloc_real os context abi.sizeof_memory)
    elim this? [
      | none ↦ pure (IpmResult.err_os_out_of_memory, none)
      | some this ↦
          let proper_size = round_size block_size in
          (do
            assert os (ltb 0 proper_size)
            assert os (proper_size % page_size == 0)
            create_blocks abi context this block_name proper_size access)
    ]

  -- The memory is open: the claims.
  open_claims :
      ℕ → Context K → ℕ → List ℕ → SharedMemoryBlock → M K (IpmResult × Option (IpmMemory K))
  unfolding give_up
  open_claims fuel context this name real = do
    (res, claims?) ← shared_memory_block_open os context fuel name active_claims_id read_write
    if is_success res
        then (do
          claims ← created claims?
          pure (IpmResult.success, some (handle_of context this name real claims)))
        else give_up context this name
            "Could not open the shared memory block claim list %s, reason: %s (%s)"
            (undo_block context real) res

  open_blocks : ℕ → Context K → ℕ → List ℕ → AccessMode → M K (IpmResult × Option (IpmMemory K))
  unfolding open_claims
  open_blocks fuel context this name access = do
    (res, real?) ← shared_memory_block_open os context fuel name real_memory_id access
    if is_success res
        then (do real ← created real?; open_claims fuel context this name real)
        else give_up context this name "Could not open the shared memory block %s, reason: %s (%s)"
            (pure tt) res

  -- `fuel` bounds the rounds of each wait for a creator.
  unfoldable pub ipm_memory_open :
      ℕ → Abi → Context K → List ℕ → AccessMode → M K (IpmResult × Option (IpmMemory K))
  unfolding open_blocks
  ipm_memory_open fuel abi context block_name access = do
    assert os (not (has_slash block_name))
    assert os (leb (length block_name) max_name_len)
    this? ← run (ipm_alloc_real os context abi.sizeof_memory)
    elim this? [
      | none ↦ pure (IpmResult.err_os_out_of_memory, none)
      | some this ↦ open_blocks fuel context this block_name access
    ]

  -- The callback of `ipm_memory_close`.
  unfoldable pub claim_list_dtor_wrapper : IpmMemory K → M K (Unit {0})
  claim_list_dtor_wrapper memory = do
    o ← pointed memory.active_claims.memory
    claim_list_uninit os o

  unfoldable pub ipm_memory_close : ℕ → IpmMemory K → M K (Unit {0})
  unfolding claim_list_dtor_wrapper
  ipm_memory_close fuel memory = do
    ipm_memory_release_all os fuel memory
    shared_memory_block_close os memory.ctx memory.active_claims
        (some (claim_list_dtor_wrapper memory))
    shared_memory_block_close os memory.ctx memory.real_memory none
    free_handle memory.ctx memory.address

  unfoldable pub ipm_memory_clean : IpmMemory K → M K (Unit {0})
  ipm_memory_clean memory = do
    shared_memory_block_clean os memory.active_claims
    shared_memory_block_clean os memory.real_memory
    free_handle memory.ctx memory.address
