-- ===== src/Platform/Results.antt =====
-- What the results of the wrappers mean (source/ipm_platform.c).
use ipm.Base.{◌≡◌, ◌↔◌, ◌⊎◌, ℕ, arith}
use ipm.Error.{IpmResult}
use ipm.System.{Errno, Mutex, Call, World, Posix}
use ipm.Platform.{
  ipm_mutex_lock, ipm_mutex_unlock, ipm_mutex_destroy, ipm_condition_wait, ipm_condition_broadcast,
  ipm_condition_signal, ipm_condition_destroy, lock_failure,
}

lock_failure_iff :
    {K : Type 0} (os : Posix K) (mtx : Mutex) (e : Errno) (w : World K)
    → ((lock_failure os mtx e w).0 ≡ IpmResult.success) ↔ (e ≡ Errno.eownerdead)
unfolding lock_failure
lock_failure_iff os mtx e w = (λ h. ground arith, λ h. ground arith)

module _ {K : Type 0} (os : Posix K) where
  -- `ipm_mutex_lock` reports success exactly when the lock returned 0 or EOWNERDEAD, or when it
  -- returned any other number while `errno` held EOWNERDEAD.
  pub mutex_lock_success_iff :
      (mtx : Mutex) (w : World K)
      → ((ipm_mutex_lock os mtx w).0 ≡ IpmResult.success) ↔ (
          ((os.call (Call.pthread_mutex_lock mtx) w).0 ≡ Errno.ok)
          ⊎ ((os.call (Call.pthread_mutex_lock mtx) w).0 ≡ Errno.eownerdead)
          ⊎ ((os.call (Call.pthread_mutex_lock mtx) w).1.errno ≡ Errno.eownerdead))
  unfolding ipm_mutex_lock
  mutex_lock_success_iff mtx w = (λ h. ground arith, λ h. ground arith)

  -- The wrappers of unlock, wait, broadcast, signal and the two destructions report success exactly
  -- when their call returned 0.
  pub plain_success_iff :
      (mtx : Mutex) (cnd : ℕ) (w : World K)
      → (((ipm_mutex_unlock os mtx w).0 ≡ IpmResult.success)
          ↔ ((os.call (Call.pthread_mutex_unlock mtx) w).0 ≡ Errno.ok))
        × (((ipm_mutex_destroy os mtx w).0 ≡ IpmResult.success)
            ↔ ((os.call (Call.pthread_mutex_destroy mtx) w).0 ≡ Errno.ok))
        × (((ipm_condition_wait os cnd mtx w).0 ≡ IpmResult.success)
            ↔ ((os.call (Call.pthread_cond_wait cnd mtx) w).0 ≡ Errno.ok))
        × (((ipm_condition_broadcast os cnd w).0 ≡ IpmResult.success)
            ↔ ((os.call (Call.pthread_cond_broadcast cnd) w).0 ≡ Errno.ok))
        × (((ipm_condition_signal os cnd w).0 ≡ IpmResult.success)
            ↔ ((os.call (Call.pthread_cond_signal cnd) w).0 ≡ Errno.ok))
        × (((ipm_condition_destroy os cnd w).0 ≡ IpmResult.success)
            ↔ ((os.call (Call.pthread_cond_destroy cnd) w).0 ≡ Errno.ok))
  unfolding ipm_mutex_unlock ipm_mutex_destroy ipm_condition_wait ipm_condition_broadcast
      ipm_condition_signal ipm_condition_destroy
  plain_success_iff mtx cnd w = (
    (λ h. ground arith, λ h. ground arith),
    (λ h. ground arith, λ h. ground arith),
    (λ h. ground arith, λ h. ground arith),
    (λ h. ground arith, λ h. ground arith),
    (λ h. ground arith, λ h. ground arith),
    (λ h. ground arith, λ h. ground arith),
  )
