-- ===== src/Examples/Runs.antt =====
-- Runs: a block from its creation to its end (source/ipm_memory.c, source/shared_memory.c), and the
-- semaphores and memory of source/ipm_platform.c and source/ipm_common.c.
use ipm.Base.{ℕ, ◌≡◌, refl, List, [], ◌∷◌, Option, none, some}
use ipm.Error.{IpmResult}
use ipm.Layout.{read_only, read_write, Ptr}
use ipm.System.{Errno, Posix, World, Outcome, done, fault, M, pure, ◌>>=◌, ◌>>◌, read}
use ipm.Platform.{
  ipm_semaphore_init, ipm_semaphore_destroy, ipm_semaphore_post, ipm_semaphore_wait,
  ipm_semaphore_count, ipm_mutex_init, ipm_mutex_lock, ipm_mutex_unlock, ipm_mutex_destroy,
  ipm_condition_init, ipm_condition_destroy,
}
use ipm.Common.{ipm_alloc_real, ipm_free, ipm_report_error}
use ipm.Claim.{
  claims_conflict, claim_add_to_list, claim_remove_from_list, claim_list_init, claim_list_uninit,
}
use ipm.SharedMemory.{make_block_name_based_on_id}
use ipm.SharedMemory.Mapping.{shared_memory_block_update_mapping}
use ipm.SharedMemory.Create.{shared_memory_block_create}
use ipm.SharedMemory.Open.{shared_memory_block_open}
use ipm.SharedMemory.Close.{shared_memory_block_close, shared_memory_block_clean}
use ipm.Memory.{IpmMemory}
use ipm.Memory.Handle.{
  ipm_memory_get_info, ipm_memory_ref_count, ipm_memory_pointer, internal_ipm_memory_clam_list,
  ipm_memory_sync, ipm_memory_change_access,
}
use ipm.Memory.Region.{admits, ipm_memory_claim_region, ipm_memory_release_all}
use ipm.Memory.Lifetime.{
  Abi, has_slash, ipm_memory_create, ipm_memory_open, ipm_memory_close, ipm_memory_clean,
}
use ipm.Memory.Lifetime.Ending.{Ended, memory_create-Ended, memory_open-Ended}
use ipm.Examples.{quiet, silent, two_claims, world_of}

-- The value that a run returns.
abbrev value : {A : Type 0} → Outcome (A × World (Unit {0})) → Option A
value (done (a, w)) = some a
value _ = none

-- The handle that an operation returned.
abbrev given : Option (IpmMemory (Unit {0})) → M (Unit {0}) (IpmMemory (Unit {0}))
given none w = fault
given (some memory) w = done (memory, w)

-- The sizes on x86-64 Linux.
abbrev pub linux : Abi
linux = record { sizeof_memory = 440; sizeof_claim_list = 112; sizeof_memory_claim = 40 }

abbrev pub name : List ℕ
name = b'm' ∷ []

-- One handle creates the block and another opens it; the second claims a region. Then the first
-- closes, the second changes its access and closes. What is seen: the ids of the two handles, the
-- count of the handles at each stage, the count of claims, and the second handle's size.
abbrev life : M (Unit {0}) (List ℕ)
life = do
  (made, first?) ← ipm_memory_create quiet linux silent 5000 name read_write
  first ← given first?
  alone ← read (ipm_memory_ref_count first)
  (opened, second?) ← ipm_memory_open quiet 1 linux silent name read_write
  second ← given second?
  both ← read (ipm_memory_ref_count first)
  (granted, id) ← ipm_memory_claim_region quiet 1 second read_write 0 100
  info ← ipm_memory_get_info second
  ipm_memory_close quiet 4 first
  left ← read (ipm_memory_ref_count second)
  (changed, third) ← ipm_memory_change_access quiet second read_only
  (synced, last) ← ipm_memory_sync quiet third
  ipm_memory_close quiet 4 last
  pure (
      first.real_memory.access_id ∷ second.real_memory.access_id ∷ alone ∷ both ∷ info.active_claims
      ∷ left ∷ last.real_memory.size ∷ [])

life_run : value (life (world_of two_claims)) ≡ some (1 ∷ 2 ∷ 1 ∷ 2 ∷ 1 ∷ 1 ∷ 8192 ∷ [])
unfolding has_slash ipm_memory_create ipm_memory_open ipm_memory_close ipm_memory_get_info
    ipm_memory_ref_count ipm_memory_change_access ipm_memory_sync ipm_memory_claim_region
    ipm_memory_release_all admits claims_conflict claim_add_to_list claim_remove_from_list
    claim_list_init claim_list_uninit ipm_mutex_init ipm_mutex_lock ipm_mutex_unlock
    ipm_mutex_destroy ipm_condition_init ipm_condition_destroy ipm_alloc_real ipm_free
    make_block_name_based_on_id shared_memory_block_create shared_memory_block_open
    shared_memory_block_close shared_memory_block_update_mapping
life_run = refl

-- A handle's pointers, and `ipm_memory_clean`, which gives up the mappings and counts nothing.
abbrev cleaned : M (Unit {0}) (Option Ptr × Option Ptr × ℕ)
cleaned = do
  (made, memory?) ← ipm_memory_create quiet linux silent 5000 name read_write
  memory ← given memory?
  ipm_memory_clean quiet memory
  count ← read (ipm_memory_ref_count memory)
  pure (ipm_memory_pointer memory, internal_ipm_memory_clam_list memory, count)

cleaned_run :
    value (cleaned (world_of two_claims))
    ≡ some (
      some (record { address = 86016; object = 1 }),
      some (record { address = 102400; object = 2 }),
      1,
    )
unfolding has_slash ipm_memory_create ipm_memory_clean ipm_memory_ref_count ipm_memory_pointer
    internal_ipm_memory_clam_list claim_list_init ipm_mutex_init ipm_condition_init ipm_alloc_real
    ipm_free make_block_name_based_on_id shared_memory_block_create shared_memory_block_clean
cleaned_run = refl

semaphore_run :
    ((ipm_semaphore_init quiet 8 1 (world_of two_claims)).0 ≡ IpmResult.success)
    × ((ipm_semaphore_wait quiet 8 (world_of two_claims)).0 ≡ IpmResult.success)
    × ((ipm_semaphore_count quiet 8 (world_of two_claims)).0 ≡ 1)
    × (ipm_semaphore_post quiet 8 (world_of two_claims) ≡ world_of two_claims)
    × (ipm_semaphore_destroy quiet 8 (world_of two_claims) ≡ world_of two_claims)
unfolding ipm_semaphore_init ipm_semaphore_wait ipm_semaphore_count ipm_semaphore_post
    ipm_semaphore_destroy
semaphore_run = (refl, refl, refl, refl, refl)

-- A system on which `shm_open` fails with this number.
abbrev refuses : Errno → Posix (Unit {0})
refuses e = record quiet { shm_open = λ name create w. (none, record w { errno = e }) }

memory_create-Ended_example :
    Ended
      (refuses Errno.eexist)
      silent
      64
      IpmResult.err_exists
      none
      (record (world_of two_claims) { errno = Errno.eexist })
unfolding has_slash ipm_memory_create ipm_alloc_real ipm_free ipm_report_error
    make_block_name_based_on_id shared_memory_block_create
memory_create-Ended_example =
    memory_create-Ended (refuses Errno.eexist) silent 64 name IpmResult.err_exists none
      (record (world_of two_claims) { errno = Errno.eexist }) linux 5000 read_write
      (world_of two_claims) (world_of two_claims) refl refl

memory_open-Ended_example :
    Ended
      (refuses Errno.eexist)
      silent
      64
      IpmResult.err_exists
      none
      (record (world_of two_claims) { errno = Errno.eexist })
unfolding has_slash ipm_memory_open ipm_alloc_real ipm_free ipm_report_error
    make_block_name_based_on_id shared_memory_block_open
memory_open-Ended_example =
    memory_open-Ended (refuses Errno.eexist) silent 64 name IpmResult.err_exists none
      (record (world_of two_claims) { errno = Errno.eexist }) 1 linux read_write
      (world_of two_claims) (world_of two_claims) refl refl
