-- ===== src/Memory/Locking.antt =====
-- What mutexes a thread holds after a call on a handle (source/ipm_memory.c,
-- source/shared_memory.c, source/memory_claim.c).
use ipm.Base.{ℕ, ◌≡◌, ◌≢◌, Option}
use ipm.Error.{IpmResult}
use ipm.Layout.{AccessMode}
use ipm.System.{Errno, World, Posix, done}
use ipm.Platform.Locking.{Locks, holds}
use ipm.Common.Kept.{Kept}
use ipm.Memory.{IpmMemory}
use ipm.Memory.Handle.{ipm_memory_sync, ipm_memory_change_access, ipm_memory_resize_grow}
use ipm.Memory.Handle.Locking.{holds-sync, holds-change_access, holds-resize_grow}
use ipm.Memory.Lifetime.{ipm_memory_close}
use ipm.Memory.Lifetime.Locking.{holds-memory_close}
use ipm.Memory.Region.{
  ipm_memory_claim_region, ipm_memory_release_region, ipm_memory_release_all,
  ipm_memory_remove_all_active_claims,
}
use ipm.Memory.Region.Locking.Claiming.{holds-claim_region}
use ipm.Memory.Region.Locking.Releasing.{holds-release_region, holds-release_all, holds-remove_all}

module _ {K : Type 0} (os : Posix K) (memory : IpmMemory K) where
  -- A call on the handle that takes the world from `w` to `u`, with its result. `ipm_memory_close`
  -- has none.
  pub data Returned (w u : World K) : IpmResult → Type 0 where
    claims :
        {res : IpmResult} (fuel : ℕ) (access : AccessMode) (offset count : ℕ) (id : Option ℕ)
        → ipm_memory_claim_region os fuel memory access offset count w ≡ done ((res, id), u)
        → Returned w u res
    releases :
        {res : IpmResult} (claim_id : ℕ)
        → ipm_memory_release_region os memory claim_id w ≡ done (res, u)
        → Returned w u res
    releases_all :
        {res : IpmResult} (fuel : ℕ)
        → ipm_memory_release_all os fuel memory w ≡ done (res, u)
        → Returned w u res
    removes_all :
        {res : IpmResult} (fuel : ℕ)
        → ipm_memory_remove_all_active_claims os fuel memory w ≡ done (res, u)
        → Returned w u res
    syncs :
        {res : IpmResult} (m : IpmMemory K)
        → ipm_memory_sync os memory w ≡ done ((res, m), u)
        → Returned w u res
    changes :
        {res : IpmResult} (mode : AccessMode) (m : IpmMemory K)
        → ipm_memory_change_access os memory mode w ≡ done ((res, m), u)
        → Returned w u res
    grows :
        {res : IpmResult} (requested : ℕ) (m : IpmMemory K)
        → ipm_memory_resize_grow os memory requested w ≡ done ((res, m), u)
        → Returned w u res
    closes :
        (fuel : ℕ)
        → ipm_memory_close os fuel memory w ≡ done (tt, u)
        → Returned w u IpmResult.success

  -- Each call on a handle gives back the mutex that it takes, on every path on which it
  -- returns, failures included: the thread holds afterwards just the mutexes that it held before.
  -- The call returns anything but ERR_LIST_SIZE_MISMATCH, `errno` is not EOWNERDEAD before it, and the
  -- callbacks keep the mutexes.
  pub mutexes_given_back :
      (l : Locks os) (w u : World K) (res : IpmResult)
      → Kept memory.ctx l.owned
      → w.errno ≢ Errno.eownerdead
      → Returned w u res
      → res ≢ IpmResult.err_list_size_mismatch
      → holds os l u ≡ holds os l w
  mutexes_given_back l w u res kept fresh (claims fuel access offset count id e) fits =
      holds-claim_region os l memory kept fuel access offset count res id w u fresh e fits
  mutexes_given_back l w u res kept fresh (releases claim_id e) fits =
      holds-release_region os l memory kept claim_id res w u fresh e
  mutexes_given_back l w u res kept fresh (releases_all fuel e) fits =
      holds-release_all os l memory kept fuel res w u fresh e
  mutexes_given_back l w u res kept fresh (removes_all fuel e) fits =
      holds-remove_all os l memory kept fuel res w u fresh e
  mutexes_given_back l w u res kept fresh (syncs m e) fits = holds-sync os l memory kept res m w u e
  mutexes_given_back l w u res kept fresh (changes mode m e) fits =
      holds-change_access os l memory kept res m w u mode e
  mutexes_given_back l w u res kept fresh (grows requested m e) fits =
      holds-resize_grow os l memory kept res m w u requested fresh e
  mutexes_given_back l w u res kept fresh (closes fuel e) fits =
      holds-memory_close os l memory kept fuel w u fresh e
