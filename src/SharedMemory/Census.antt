-- ===== src/SharedMemory/Census.antt =====
-- The life of one shared object: `shared_memory_block_create`, then `shared_memory_block_open`,
-- `shared_memory_block_close`, `shared_memory_block_clean`, `shared_memory_block_update_mapping` and
-- `shared_memory_block_resize` of handles on it, by any processes and in any order.
pub mod Handles
pub mod Tally
pub mod Counting
use ipm.Base.{ℕ, suc, ◌≡◌, List, [], ◌∷◌, Option, some, get_elem?, set}
use ipm.Error.{IpmResult}
use ipm.Layout.{AccessMode, SharedMemoryBlock}
use ipm.System.{World, Posix, done, M}
use ipm.Common.{Context}
use ipm.Common.Kept.{Kept}
use ipm.Common.Unlinks.{Unlinks, unlinked, Quiet}
use ipm.SharedMemory.Create.{shared_memory_block_create}
use ipm.SharedMemory.Open.{shared_memory_block_open}
use ipm.SharedMemory.Close.{shared_memory_block_close, shared_memory_block_clean}
use ipm.SharedMemory.Mapping.{shared_memory_block_update_mapping, shared_memory_block_resize}
use ipm.SharedMemory.Census.Handles.{erase}

module _ {K : Type 0} (os : Posix K) (u : Unlinks os) (name : List ℕ) (id o : ℕ)
    (start : World K) where
  -- The block `id` of this name was created at `start` in the object `o`, which was opened some
  -- number of times since; that many handles on it were cleaned, not closed; and these are
  -- open, the one made last first. Each call is by a process with callbacks of its own, which call
  -- no `shm_unlink`; a close may have a callback, which leaves the headers and calls none.
  -- `elsewhere` is anything that leaves all of the object's header but its size, and calls no
  -- `shm_unlink`.
  pub data Census : (opened cleaned : ℕ) → List SharedMemoryBlock → World K → Type 0 where
    creates :
        {b : SharedMemoryBlock} {v : World K} (context : Context K) (size : ℕ) (access : AccessMode)
        → shared_memory_block_create os context name id size access start
          ≡ done ((IpmResult.success, some b), v)
        → b.header.object ≡ o
        → Census 0 0 (b ∷ []) v
    opens :
        {n k : ℕ} {b : SharedMemoryBlock} {handles : List SharedMemoryBlock} {v : World K}
        (context : Context K) (fuel asked : ℕ) (wanted : List ℕ) (access : AccessMode) (w : World K)
        → Census n k handles w
        → shared_memory_block_open os context fuel wanted asked access w
          ≡ done ((IpmResult.success, some b), v)
        → b.header.object ≡ o
        → Census (suc n) k (b ∷ handles) v
    closes :
        {n k : ℕ} {v : World K} (handles : List SharedMemoryBlock) (i : ℕ) (b : SharedMemoryBlock)
        (callback : Option (M K (Unit {0}))) (context : Context K) (res : IpmResult) (w : World K)
        → Kept context u.log
        → Quiet os u callback
        → Census n k handles w
        → get_elem? handles i ≡ some b
        → shared_memory_block_close os context b callback w ≡ done (res, v)
        → Census n k (erase i handles) v
    cleans :
        {n k : ℕ} {v : World K} (handles : List SharedMemoryBlock) (i : ℕ) (b : SharedMemoryBlock)
        (res : IpmResult) (w : World K)
        → Census n k handles w
        → get_elem? handles i ≡ some b
        → shared_memory_block_clean os b w ≡ done (res, v)
        → Census n (suc k) (erase i handles) v
    remaps :
        {n k : ℕ} {c : SharedMemoryBlock} {v : World K} (handles : List SharedMemoryBlock) (i : ℕ)
        (b : SharedMemoryBlock) (context : Context K) (access : AccessMode) (res : IpmResult)
        (w : World K)
        → Kept context u.log
        → Census n k handles w
        → get_elem? handles i ≡ some b
        → shared_memory_block_update_mapping os context b access w ≡ done ((res, c), v)
        → Census n k (set handles i c) v
    resizes :
        {n k : ℕ} {c : SharedMemoryBlock} {v : World K} (handles : List SharedMemoryBlock) (i : ℕ)
        (b : SharedMemoryBlock) (context : Context K) (size : ℕ) (res : IpmResult) (w : World K)
        → Kept context u.log
        → Census n k handles w
        → get_elem? handles i ≡ some b
        → shared_memory_block_resize os context b size w ≡ done ((res, c), v)
        → Census n k (set handles i c) v
    elsewhere :
        {n k : ℕ} {handles : List SharedMemoryBlock} {v : World K} (w : World K)
        → Census n k handles w
        → v.headers o ≡ record (w.headers o) { block_size = (v.headers o).block_size }
        → unlinked os u v ≡ unlinked os u w
        → Census n k handles v
