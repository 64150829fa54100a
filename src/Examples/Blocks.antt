-- ===== src/Examples/Blocks.antt =====
-- The theorems on the platform's wrappers, on blocks and on handles at concrete systems.
use ipm.Base.{ℕ, ◌%◌, ◌≤◌, ◌<◌, ◌≡◌, ◌↔◌, ◌⊎◌, inl, refl, true, List, [], ◌∷◌, none, arith}
use ipm.Error.{IpmResult}
use ipm.Platform.{ipm_mutex_init}
use ipm.Platform.Init.{Unlisted, mutex_init_success_iff, condition_init_success_iff}
use ipm.Layout.{read_write, SharedMemoryBlock}
use ipm.System.{Errno, Mutex, World, done}
use ipm.Platform.{ipm_mutex_lock, ipm_mutex_unlock, ipm_condition_init}
use ipm.Platform.Results.{mutex_lock_success_iff}
use ipm.SharedMemory.Names.{block_name-injective}
use ipm.SharedMemory.Mapping.{
  acquire_memory_block_whole, release_memory_block_whole, shared_memory_block_update_mapping,
  shared_memory_block_resize,
}
use ipm.SharedMemory.Mapping.Laws.{acquired_never_released}
use ipm.SharedMemory.Mapping.Resize.{Grown, resize_grows}
use ipm.Memory.{round_size}
use ipm.Memory.Sizes.{round_size_least}
use ipm.Memory.{IpmMemory}
use ipm.Memory.Handle.{ipm_memory_sync, ipm_memory_resize_grow}
use ipm.Memory.Handle.Following.{Follows, sync-resize_grow}
use ipm.Examples.{handle, quiet, quiet-Undisturbed, failing, silent, two_claims, world_of, block_at}

-- The world of the examples.
abbrev start : World (Unit {0})
start = world_of two_claims

mutex_lock_success_iff_example :
    ((ipm_mutex_lock quiet (Mutex.list_mutex 2) start).0 ≡ IpmResult.success)
    ↔ ((Errno.ok ≡ Errno.ok) ⊎ (Errno.ok ≡ Errno.eownerdead) ⊎ (Errno.ok ≡ Errno.eownerdead))
mutex_lock_success_iff_example = mutex_lock_success_iff quiet (Mutex.list_mutex 2) start

mutex_init_success_iff_example :
    ((ipm_mutex_init quiet (Mutex.list_mutex 2) start).0 ≡ IpmResult.success) ↔ (
      (Errno.ok ≡ Errno.ok)
      × (Errno.ok ≡ Errno.ok)
      × (Errno.ok ≡ Errno.ok)
      × (Errno.ok ≡ Errno.ok)
      × (Errno.ok ≡ Errno.ok))
mutex_init_success_iff_example = mutex_init_success_iff quiet (Mutex.list_mutex 2) start

condition_init_success_iff_example :
    ((ipm_condition_init failing 2 start).0 ≡ IpmResult.success) ↔ (
      (Errno.ok ≡ Errno.ok)
      × (Errno.ok ≡ Errno.ok)
      × ((Errno.eperm ≡ Errno.ok) ⊎ Unlisted failing Errno.ok))
condition_init_success_iff_example = condition_init_success_iff failing 2 start

block_name-injective_example : ◌≡◌ {A = List ℕ} (b'm' ∷ []) (b'm' ∷ []) × (◌≡◌ {A = ℕ} 1 1)
block_name-injective_example =
    block_name-injective (b'm' ∷ []) (b'm' ∷ []) 1 1 (omega arith) (omega arith) (inl refl)
      (inl refl) refl

-- What the mapping that was refreshed is.
abbrev remapped : SharedMemoryBlock
remapped = record (block_at 1) { size = 8192; access_mode = read_write; memory = none }

acquired_never_released_example :
    (last : World (Unit {0})) × (release_memory_block_whole quiet silent
        (record (block_at 1) { has_ownership = true })
        start
      ≡ done ((IpmResult.err_not_locked, record (block_at 1) { has_ownership = true }), last))
    × (true ≡ true)
unfolding acquire_memory_block_whole ipm_mutex_lock
acquired_never_released_example =
    acquired_never_released quiet silent (block_at 1) (record (block_at 1) { has_ownership = true })
      start start start refl

-- A block of 8192 bytes, by its header, that the handle still has with 4096.
resize_grows_example :
    Grown quiet silent
      (block_at 1)
      quiet-Undisturbed
      8192
      (record (block_at 1) { size = 8192; memory = none })
      start
unfolding shared_memory_block_resize shared_memory_block_update_mapping ipm_mutex_lock
    ipm_mutex_unlock
resize_grows_example =
    resize_grows quiet silent (block_at 1) quiet-Undisturbed 8192
      (record (block_at 1) { size = 8192; memory = none }) start start refl

round_size_least_example :
    (5000 ≤ round_size 5000) × (round_size 5000 < 9096) × (round_size 5000 % 4096 ≡ 0)
round_size_least_example = round_size_least 5000 (omega arith)

-- A second handle on the object that the first grows.
abbrev second : IpmMemory (Unit {0})
second = record handle { real_memory = record (block_at 1) { access_id = 11 } }

sync-resize_grow_example :
    (res : IpmResult) × (synced : IpmMemory (Unit {0})) × (last : World (Unit {0}))
    × (ipm_memory_sync quiet second start ≡ done ((res, synced), last))
    × (◌≡◌ {A = ℕ} 8192 8192)
    × Follows res synced.real_memory 8192
unfolding ipm_memory_resize_grow round_size shared_memory_block_resize
    shared_memory_block_update_mapping ipm_mutex_lock ipm_mutex_unlock
sync-resize_grow_example =
    sync-resize_grow quiet handle
      (record handle { real_memory = record (block_at 1) { size = 8192; memory = none } }) second
      quiet-Undisturbed 5000 start start refl refl
