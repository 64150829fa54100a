-- ===== src/Memory/Region/Waking.antt =====
-- Whom a release wakes: `ipm_memory_release_region`, `ipm_memory_release_all` and
-- `ipm_memory_remove_all_active_claims`.
use ipm.Base.{ℕ, ◌≡◌, ◌∙◌, ap, refl, Bool, false, if◌then◌else◌, String, ◌∷◌, some, arith}
use ipm.Error.{IpmResult}
use ipm.Layout.{Ptr}
use ipm.System.{Mutex, World, Posix, done, M, ◌>>=◌}
use ipm.System.Inversion.{bind-Stepped}
use ipm.Platform.{ipm_mutex_lock, ipm_mutex_unlock}
use ipm.Platform.Waking.{
  Wakes, wakened, wakened-ipm_mutex_lock, wakened-ipm_mutex_unlock, wakened-ipm_condition_signal,
}
use ipm.Common.Kept.{Kept, report_kept}
use ipm.Claim.{is_success, claim_remove_from_list}
use ipm.Memory.{IpmMemory, reason}
use ipm.Memory.Region.{
  ipm_memory_release_region, ipm_memory_release_all, ipm_memory_remove_all_active_claims,
}
use ipm.Memory.Region.Guarded.{guarded-Course, entered, refused, signalled}
use ipm.Memory.Region.Still.{remove_still, release_all_still, remove_all_still}

module _ {K : Type 0} (os : Posix K) (memory : IpmMemory K) where
  -- A call that returned and may have removed claims, and whether it was the release of one claim
  -- and returned success.
  pub data Removal (w u : World K) : Bool → Type 0 where
    releases :
        (claim_id : ℕ) (res : IpmResult)
        → ipm_memory_release_region os memory claim_id w ≡ done (res, u)
        → Removal w u (is_success res)
    releases_all :
        (fuel : ℕ) (res : IpmResult)
        → ipm_memory_release_all os fuel memory w ≡ done (res, u)
        → Removal w u false
    removes_all :
        (fuel : ℕ) (res : IpmResult)
        → ipm_memory_remove_all_active_claims os fuel memory w ≡ done (res, u)
        → Removal w u false

  module _ (a : Wakes os) (kept : Kept memory.ctx a.woken) (p : Ptr)
      (mapped : memory.active_claims.memory ≡ some p) where
    release_region_wakes :
        (claim_id : ℕ) (res : IpmResult) (w u : World K)
        → ipm_memory_release_region os memory claim_id w ≡ done (res, u)
        → wakened os a u ≡ (if is_success res then p.object ∷ wakened os a w else wakened os a w)
    unfolding ipm_memory_release_region
    release_region_wakes claim_id res w u e =
        let msg : String = "Could not lock access list mutex, reason: %s (%s)" in
        let body : ℕ → IpmResult → M K IpmResult =
          λ o got. claim_remove_from_list os claim_id o >>= signalled os memory o in
        let fail : IpmResult → IpmResult = λ bad. bad in
        elim (guarded-Course os memory msg fail body res w u (ground (arith, e))) [
          | refused q at bad same end ↦
              let mtx = Mutex.list_mutex q.object in
              let out = ipm_mutex_lock os mtx w in
              let told = report_kept os memory.ctx a.woken kept msg (reason out.0) out.1 in
              let all = ap (wakened os a) end ∙ told ∙ wakened-ipm_mutex_lock os a mtx w in
              ground (arith, bad, same, all)
          | entered q at good rest ↦
              let o = q.object in
              let mtx = Mutex.list_mutex o in
              let out = ipm_mutex_lock os mtx w in
              let s =
                bind-Stepped (claim_remove_from_list os claim_id o) (signalled os memory o) out.1
                  (res, u) rest in
              let removed =
                remove_still os (wakened os a) (λ x list v. refl) claim_id o s.value out.1 s.between
                  s.first in
              let unlocked = (ipm_mutex_unlock os mtx s.between).1 in
              let told =
                report_kept os memory.ctx a.woken kept
                  "Could not add memory claim to list, reason: %s (%s)" (reason s.value) unlocked in
              let before =
                wakened-ipm_mutex_unlock os a mtx s.between
                ∙ removed
                ∙ wakened-ipm_mutex_lock os a mtx w in
              let object : o ≡ p.object = ground (arith, at, mapped) in
              ground
                (arith, s.rest, told, before, wakened-ipm_condition_signal os a o unlocked, object)
        ]

    abbrev locks :
        (mtx : Mutex) (w : World K) → wakened os a (ipm_mutex_lock os mtx w).1 ≡ wakened os a w
    locks = wakened-ipm_mutex_lock os a

    abbrev unlocks :
        (mtx : Mutex) (w : World K) → wakened os a (ipm_mutex_unlock os mtx w).1 ≡ wakened os a w
    unlocks = wakened-ipm_mutex_unlock os a

    -- The release of one claim signals the list's condition variable once if it returns success, and
    -- not at all if it fails. The calls that remove all claims, of this handle or of every one,
    -- never signal it, whatever they removed: a thread that waits for a region is not woken by them.
    -- The callbacks signal nothing.
    pub removals_wake :
        (wakes : Bool) (w u : World K)
        → Removal w u wakes
        → wakened os a u ≡ (if wakes then p.object ∷ wakened os a w else wakened os a w)
    removals_wake wakes w u (releases claim_id res e) = release_region_wakes claim_id res w u e
    removals_wake wakes w u (releases_all fuel res e) =
        release_all_still os (wakened os a) memory locks unlocks (λ o l v. refl)
          (report_kept os memory.ctx a.woken kept) fuel res w u e
    removals_wake wakes w u (removes_all fuel res e) =
        remove_all_still os (wakened os a) memory locks unlocks (λ o l v. refl)
          (report_kept os memory.ctx a.woken kept) fuel res w u e
