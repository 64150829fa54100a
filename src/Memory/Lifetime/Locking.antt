-- ===== src/Memory/Lifetime/Locking.antt =====
-- `ipm_memory_close` gives back the mutex that it takes.
use ipm.Base.{ℕ, ◌≡◌, ◌≢◌, ◌∙◌, none, some, arith}
use ipm.System.{Errno, Mutex, World, Posix, done}
use ipm.System.Inversion.{bind-Stepped}
use ipm.Platform.{ipm_mutex_destroy}
use ipm.Platform.Locking.{Locks, holds, holds-ipm_mutex_destroy, holds-ipm_condition_destroy}
use ipm.Common.Kept.{Kept, free_kept}
use ipm.Claim.{claim_list_uninit}
use ipm.SharedMemory.Close.{shared_memory_block_close}
use ipm.SharedMemory.Close.Locking.{holds-block_close}
use ipm.Memory.{IpmMemory, pointed}
use ipm.Memory.Region.{ipm_memory_release_all}
use ipm.Memory.Region.Locking.Releasing.{holds-release_all}
use ipm.Memory.Lifetime.{claim_list_dtor_wrapper, ipm_memory_close}

module _ {K : Type 0} (os : Posix K) (l : Locks os) (memory : IpmMemory K)
    (kept : Kept memory.ctx l.owned) where
  holds-claim_list_uninit :
      (o : ℕ) (w u : World K)
      → claim_list_uninit os o w ≡ done (tt, u)
      → holds os l u ≡ holds os l w
  unfolding claim_list_uninit
  holds-claim_list_uninit o w u e =
      let v = (ipm_mutex_destroy os (Mutex.list_mutex o) w).1 in
      ground (
        arith,
        holds-ipm_mutex_destroy os l (Mutex.list_mutex o) w,
        holds-ipm_condition_destroy os l o v,
      )

  holds-dtor_wrapper :
      (w u : World K)
      → claim_list_dtor_wrapper os memory w ≡ done (tt, u)
      → holds os l u ≡ holds os l w
  unfolding claim_list_dtor_wrapper
  holds-dtor_wrapper w u e =
      let p = bind-Stepped (pointed memory.active_claims.memory) _ w (tt, u) e in
      let same = holds-claim_list_uninit p.value p.between u p.rest in ground (arith, p.first, same)

  pub holds-memory_close :
      (fuel : ℕ) (w u : World K)
      → w.errno ≢ Errno.eownerdead
      → ipm_memory_close os fuel memory w ≡ done (tt, u)
      → holds os l u ≡ holds os l w
  unfolding ipm_memory_close
  holds-memory_close fuel w u fresh e =
      let r = bind-Stepped (ipm_memory_release_all os fuel memory) _ w (tt, u) e in
      let c =
        bind-Stepped
          (shared_memory_block_close os memory.ctx memory.active_claims
            (some (claim_list_dtor_wrapper os memory)))
          _ r.between (tt, u) r.rest in
      let d =
        bind-Stepped (shared_memory_block_close os memory.ctx memory.real_memory none) _ c.between
          (tt, u) c.rest in
      let freed = free_kept os memory.ctx l.owned kept (some memory.address) d.between in
      let second =
        holds-block_close os l memory.ctx kept memory.real_memory none d.value c.between d.between
          tt d.first in
      let first =
        holds-block_close os l memory.ctx kept memory.active_claims
          (some (claim_list_dtor_wrapper os memory)) c.value r.between c.between holds-dtor_wrapper
          c.first in
      let released = holds-release_all os l memory kept fuel r.value w r.between fresh r.first in
      ground (arith, d.rest, freed) ∙ second ∙ first ∙ released
