-- ===== src/Memory/Region/Guarded.antt =====
-- The form of the calls that change the claim list under its mutex (source/ipm_memory.c).
use ipm.Base.{
  ℕ, ◌≡◌, Bool-cases, true, false, String, some, arith, inl, inr, Option-cases, Option,
  if◌then◌else◌,
}
use ipm.Error.{IpmResult}
use ipm.Layout.{Ptr}
use ipm.System.{Mutex, World, Posix, done, M, pure, run, ◌>>=◌, ◌>>◌}
use ipm.Platform.{ipm_mutex_lock, ipm_condition_signal}
use ipm.Common.{ipm_report_error}
use ipm.Claim.{is_success}
use ipm.Memory.{IpmMemory, reason, report, pointed}
use ipm.Memory.Region.{unlock_list}

module _ {K : Type 0} (os : Posix K) (memory : IpmMemory K) where
  -- They lock the list's mutex and go on, or report that they could not.
  abbrev pub guarded : {A : Type 0} → String → (IpmResult → A) → (ℕ → IpmResult → M K A) → M K A
  guarded msg fail body = do
    o ← pointed memory.active_claims.memory
    res ← run (ipm_mutex_lock os (Mutex.list_mutex o))
    if is_success res
        then body o res
        else (do report os memory.ctx msg (reason res); pure (fail res))

  -- Two of them go over the list, and return what the lock returned.
  abbrev pub looping : (ℕ → M K (Unit {0})) → M K IpmResult
  looping loop =
      guarded "Could not lock the claim list mutex, reason: %s (%s)" (λ bad. bad)
        (λ o res. loop o >> (unlock_list os o >> pure res))

  -- What `ipm_memory_claim_region` does once the claim was put into the list.
  abbrev pub conclude : ℕ → ℕ → IpmResult → M K (IpmResult × Option ℕ)
  conclude o id res = do
    unlock_list os o
    (if is_success res
        then pure tt
        else report os memory.ctx "Could not add memory claim to list, reason: %s (%s)"
            (reason res))
    pure (res, some id)

  -- What `ipm_memory_release_region` does after the removal.
  abbrev pub signalled : ℕ → IpmResult → M K IpmResult
  signalled o res = do
    unlock_list os o
    (if is_success res
        then (do run (ipm_condition_signal os o); pure tt)
        else report os memory.ctx "Could not add memory claim to list, reason: %s (%s)"
            (reason res))
    pure res

  module _ {A : Type 0} (msg : String) (fail : IpmResult → A) (body : ℕ → IpmResult → M K A) (r : A)
      (w u : World K) where
    abbrev lock_of : Ptr → IpmResult × World K
    lock_of p = ipm_mutex_lock os (Mutex.list_mutex p.object) w

    -- How such a call went.
    pub data Course : Type 0 where
      entered :
          (p : Ptr)
          → memory.active_claims.memory ≡ some p
          → is_success (lock_of p).0 ≡ true
          → body p.object (lock_of p).0 (lock_of p).1 ≡ done (r, u)
          → Course
      refused :
          (p : Ptr)
          → memory.active_claims.memory ≡ some p
          → is_success (lock_of p).0 ≡ false
          → r ≡ fail (lock_of p).0
          → u ≡ ipm_report_error os memory.ctx msg (reason (lock_of p).0) (lock_of p).1
          → Course

    pub guarded-Course : guarded msg fail body w ≡ done (r, u) → Course
    guarded-Course e = elim (Option-cases memory.active_claims.memory) [
      | inl null ↦ absurd (ground (arith, null, e))
      | inr (p, mapped) ↦ elim (Bool-cases (is_success (lock_of p).0)) [
        | inl good ↦ entered p mapped good (ground (arith, mapped, good, e))
        | inr bad ↦
            refused p mapped bad (ground (arith, mapped, bad, e)) (ground (arith, mapped, bad, e))
      ]
    ]
