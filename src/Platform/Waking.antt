-- ===== src/Platform/Waking.antt =====
-- Which condition variables are signalled, and that locking and unlocking signal none
-- (source/ipm_platform.c).
use ipm.Base.{ℕ, ◌≡◌, List, ◌∷◌, arith}
use ipm.System.{Errno, Mutex, Call, World, Posix}
use ipm.Platform.{lock_failure, ipm_mutex_lock, ipm_mutex_unlock, ipm_condition_signal}

abbrev pub after_wake : Call → List ℕ → List ℕ
after_wake (Call.pthread_cond_signal cnd) woken = cnd ∷ woken
after_wake (Call.pthread_cond_broadcast cnd) woken = cnd ∷ woken
after_wake _ woken = woken

-- The kernel's record of the signals and broadcasts, the last one first.
pub record Wakes {K : Type 0} (os : Posix K) : Type 0 where
  pub woken : K → List ℕ
  pub calls :
      (c : Call) (w : World K) → woken (os.call c w).1.kernel ≡ after_wake c (woken w.kernel)

module _ {K : Type 0} (os : Posix K) (a : Wakes os) where
  abbrev pub wakened : World K → List ℕ
  wakened w = a.woken w.kernel

  wakened-lock_failure :
      (mtx : Mutex) (e : Errno) (w : World K) → wakened (lock_failure os mtx e w).1 ≡ wakened w
  unfolding lock_failure
  wakened-lock_failure mtx e w = ground (arith, a.calls (Call.pthread_mutex_consistent mtx) w)

  pub wakened-ipm_mutex_lock :
      (mtx : Mutex) (w : World K) → wakened (ipm_mutex_lock os mtx w).1 ≡ wakened w
  unfolding ipm_mutex_lock
  wakened-ipm_mutex_lock mtx w =
      let w1 = (os.call (Call.pthread_mutex_lock mtx) w).1 in
      ground (
        arith,
        a.calls (Call.pthread_mutex_lock mtx) w,
        a.calls (Call.pthread_mutex_consistent mtx) w1,
        wakened-lock_failure mtx w1.errno w1,
      )

  pub wakened-ipm_mutex_unlock :
      (mtx : Mutex) (w : World K) → wakened (ipm_mutex_unlock os mtx w).1 ≡ wakened w
  unfolding ipm_mutex_unlock
  wakened-ipm_mutex_unlock mtx w = ground (arith, a.calls (Call.pthread_mutex_unlock mtx) w)

  pub wakened-ipm_condition_signal :
      (cnd : ℕ) (w : World K) → wakened (ipm_condition_signal os cnd w).1 ≡ cnd ∷ wakened w
  unfolding ipm_condition_signal
  wakened-ipm_condition_signal cnd w = ground (arith, a.calls (Call.pthread_cond_signal cnd) w)
