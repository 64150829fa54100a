-- ===== src/Memory/Region/Locking/Releasing.antt =====
-- `ipm_memory_release_region`, `ipm_memory_release_all` and
-- `ipm_memory_remove_all_active_claims` give back the mutex that they take.
use ipm.Base.{ℕ, ◌≡◌, ◌≢◌, List, String, arith, refl, ◌∙◌}
use ipm.Error.{IpmResult}
use ipm.System.{Errno, Mutex, World, Posix, done, M, pure, ◌>>=◌, ◌>>◌}
use ipm.System.Inversion.{bind-Stepped}
use ipm.Platform.{ipm_mutex_unlock}
use ipm.Platform.Locking.{Locks, holds, holds-ipm_mutex_unlock, holds-ipm_condition_signal}
use ipm.Common.Kept.{Kept, report_kept}
use ipm.Claim.{claim_remove_from_list}
use ipm.Memory.{IpmMemory, reason}
use ipm.Memory.Region.{
  unlock_list, ipm_memory_release_region, release_from, ipm_memory_release_all, remove_while_any,
  ipm_memory_remove_all_active_claims,
}
use ipm.Memory.Region.Still.{remove_still, release_from_still, remove_while_any_still}
use ipm.Memory.Region.Guarded.{looping, signalled}
use ipm.Memory.Region.Locking.{holds-guarded}

module _ {K : Type 0} (os : Posix K) (l : Locks os) (memory : IpmMemory K)
    (kept : Kept memory.ctx l.owned) where
  abbrev at : World K → List Mutex
  at = holds os l

  pub holds-release_region :
      (claim_id : ℕ) (res : IpmResult) (w u : World K)
      → w.errno ≢ Errno.eownerdead
      → ipm_memory_release_region os memory claim_id w ≡ done (res, u)
      → at u ≡ at w
  unfolding ipm_memory_release_region
  holds-release_region claim_id res w u fresh e =
      let msg : String = "Could not lock access list mutex, reason: %s (%s)" in
      let body : ℕ → IpmResult → M K IpmResult =
        λ o got. claim_remove_from_list os claim_id o >>= signalled os memory o in
      holds-guarded os l memory kept msg (λ bad. bad) body res w u fresh (ground (arith, e))
        (λ o got v start rest.
          let s =
            bind-Stepped (claim_remove_from_list os claim_id o) (signalled os memory o) v (res, u)
              rest in
          let removed =
            remove_still os at (λ p list x. refl) claim_id o s.value v s.between s.first in
          let unlocked = (ipm_mutex_unlock os (Mutex.list_mutex o) s.between).1 in
          let told =
            report_kept os memory.ctx l.owned kept
              "Could not add memory claim to list, reason: %s (%s)" (reason s.value) unlocked in
          ground (
            arith,
            s.rest,
            told,
            holds-ipm_condition_signal os l o unlocked,
            holds-ipm_mutex_unlock os l (Mutex.list_mutex o) (at w) s.between (removed ∙ start),
          ))

  -- The loops over the list keep the mutexes.
  holds-looped :
      (loop : ℕ → M K (Unit {0})) (res : IpmResult) (w u : World K)
      → w.errno ≢ Errno.eownerdead
      → ((o : ℕ) (v t : World K) → loop o v ≡ done (tt, t) → at t ≡ at v)
      → looping os memory loop w ≡ done (res, u)
      → at u ≡ at w
  holds-looped loop res w u fresh keeps e =
      let body : ℕ → IpmResult → M K IpmResult =
        λ o got. loop o >> (unlock_list os o >> pure got) in
      holds-guarded os l memory kept "Could not lock the claim list mutex, reason: %s (%s)"
        (λ bad. bad) body res w u fresh e
        (λ o got v start rest.
          let s =
            bind-Stepped (loop o) (λ (_ : Unit {0}). unlock_list os o >> pure got) v (res, u)
              rest in
          let kept_there = keeps o v s.between (ground (arith, s.first)) in
          ground (
            arith,
            s.rest,
            holds-ipm_mutex_unlock os l (Mutex.list_mutex o) (at w) s.between (kept_there ∙ start),
          ))

  pub holds-release_all :
      (fuel : ℕ) (res : IpmResult) (w u : World K)
      → w.errno ≢ Errno.eownerdead
      → ipm_memory_release_all os fuel memory w ≡ done (res, u)
      → at u ≡ at w
  unfolding ipm_memory_release_all
  holds-release_all fuel res w u fresh e =
      let own = memory.real_memory.access_id in
      holds-looped (λ o. release_from os fuel own o 0) res w u fresh
        (λ o v t. release_from_still os at (λ p list x. refl) fuel own o 0 v t) (ground (arith, e))

  pub holds-remove_all :
      (fuel : ℕ) (res : IpmResult) (w u : World K)
      → w.errno ≢ Errno.eownerdead
      → ipm_memory_remove_all_active_claims os fuel memory w ≡ done (res, u)
      → at u ≡ at w
  unfolding ipm_memory_remove_all_active_claims
  holds-remove_all fuel res w u fresh e =
      holds-looped (remove_while_any os fuel) res w u fresh
        (λ o v t. remove_while_any_still os at (λ p list x. refl) fuel o v t) (ground (arith, e))
