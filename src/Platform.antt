-- ===== src/Platform.antt =====
-- source/ipm_platform.c: the wrappers of the semaphores, mutexes and condition variables. A
-- pthread call returns its error number, but the wrappers switch on `errno`.
pub mod Results
pub mod Still
pub mod Undisturbed
pub mod Locking
pub mod Waking
pub mod Init
use ipm.Base.{ℕ, ◌-◌, ◌^◌, none, some}
use ipm.Error.{IpmResult}
use ipm.System.{Errno, Mutex, Call, World, Posix}

module _ {K : Type 0} (os : Posix K) where
  -- A call whose result the code drops.
  abbrev pub ignoring : Call → World K → World K
  ignoring c w = (os.call c w).1

  succeeded : Errno → IpmResult → IpmResult
  succeeded Errno.ok failure = IpmResult.success
  succeeded _ failure = failure

  unfoldable pub ipm_semaphore_init : ℕ → ℕ → World K → IpmResult × World K
  unfolding succeeded
  ipm_semaphore_init p_sem val w =
      let (ret, w1) = os.call (Call.sem_init p_sem val) w in
      (succeeded ret IpmResult.err_no_sem, w1)

  unfoldable pub ipm_semaphore_destroy : ℕ → World K → World K
  ipm_semaphore_destroy p_sem w = ignoring (Call.sem_destroy p_sem) w

  unfoldable pub ipm_semaphore_post : ℕ → World K → World K
  ipm_semaphore_post p_sem w = ignoring (Call.sem_post p_sem) w

  unfoldable pub ipm_semaphore_wait : ℕ → World K → IpmResult × World K
  unfolding succeeded
  ipm_semaphore_wait p_sem w =
      let (res, w1) = os.call (Call.sem_wait p_sem) w in
      (succeeded res IpmResult.err_no_sem_wait, w1)

  -- The failure's -1 is returned as an `unsigned`.
  unfoldable pub ipm_semaphore_count : ℕ → World K → ℕ × World K
  ipm_semaphore_count p_sem w =
      let (out, w1) = os.sem_getvalue p_sem w in (elim out [ none ↦ 2 ^ 32 - 1 | some n ↦ n ], w1)

  -- One call on the attributes: `k` goes on, and a failure destroys them.
  attribute_step : Call → Call → World K → (World K → IpmResult × World K) → IpmResult × World K
  attribute_step c destroy w k =
      let (res, w1) = os.call c w in
      elim res [ Errno.ok ↦ k w1 | _ ↦ (IpmResult.err_os_unexpected, ignoring destroy w1) ]

  pub mutex_init_failure : Errno → IpmResult
  mutex_init_failure Errno.eagain = IpmResult.err_os_out_of_memory
  mutex_init_failure Errno.enomem = IpmResult.err_os_out_of_memory
  mutex_init_failure Errno.eperm = IpmResult.err_access
  mutex_init_failure Errno.ebusy = IpmResult.err_bad_init
  mutex_init_failure Errno.einval = IpmResult.err_bad_value
  mutex_init_failure _ = IpmResult.err_os_unexpected

  -- `pthread_mutex_init` and what follows it. The attributes go before `errno` is read.
  mutex_create : Mutex → World K → IpmResult × World K
  unfolding mutex_init_failure
  mutex_create p_mtx w =
      let (res, w1) = os.call (Call.pthread_mutex_init p_mtx) w in
      let w2 = ignoring Call.pthread_mutexattr_destroy w1 in
      elim res [ Errno.ok ↦ (IpmResult.success, w2) | _ ↦ (mutex_init_failure w2.errno, w2) ]

  unfoldable pub ipm_mutex_init : Mutex → World K → IpmResult × World K
  unfolding attribute_step mutex_create
  ipm_mutex_init p_mtx w =
      let (res, w1) = os.call Call.pthread_mutexattr_init w in
      elim res [
        | Errno.ok ↦
            attribute_step Call.pthread_mutexattr_setpshared Call.pthread_mutexattr_destroy w1 λ w2.
              attribute_step Call.pthread_mutexattr_settype Call.pthread_mutexattr_destroy w2 λ w3.
                attribute_step Call.pthread_mutexattr_setrobust Call.pthread_mutexattr_destroy w3
                  (mutex_create p_mtx)
        | _ ↦ (IpmResult.err_os_unexpected, w1)
      ]

  lock_failure : Mutex → Errno → World K → IpmResult × World K
  lock_failure mtx Errno.einval w = (IpmResult.err_bad_value, w)
  lock_failure mtx Errno.edeadlk w = (IpmResult.err_deadlock, w)
  lock_failure mtx Errno.eownerdead w =
      (IpmResult.success, ignoring (Call.pthread_mutex_consistent mtx) w)
  lock_failure mtx _ w = (IpmResult.err_os_unexpected, w)

  unfoldable pub ipm_mutex_lock : Mutex → World K → IpmResult × World K
  unfolding lock_failure
  ipm_mutex_lock mtx w =
      let (res, w1) = os.call (Call.pthread_mutex_lock mtx) w in
      elim res [
        | Errno.ok ↦ (IpmResult.success, w1)
        | Errno.eownerdead ↦ (IpmResult.success, ignoring (Call.pthread_mutex_consistent mtx) w1)
        | _ ↦ lock_failure mtx w1.errno w1
      ]

  unlock_failure : Errno → IpmResult
  unlock_failure Errno.eperm = IpmResult.err_not_locked
  unlock_failure _ = IpmResult.err_os_unexpected

  -- A call with one result, and a table for `errno` when it fails.
  returning : Call → (Errno → IpmResult) → World K → IpmResult × World K
  returning c failure w =
      let (res, w1) = os.call c w in
      elim res [ Errno.ok ↦ (IpmResult.success, w1) | _ ↦ (failure w1.errno, w1) ]

  unfoldable pub ipm_mutex_unlock : Mutex → World K → IpmResult × World K
  unfolding returning unlock_failure
  ipm_mutex_unlock mtx w = returning (Call.pthread_mutex_unlock mtx) unlock_failure w

  destroy_failure : Errno → IpmResult
  destroy_failure Errno.ebusy = IpmResult.err_already_locked
  destroy_failure Errno.einval = IpmResult.err_bad_value
  destroy_failure _ = IpmResult.err_os_unexpected

  unfoldable pub ipm_mutex_destroy : Mutex → World K → IpmResult × World K
  unfolding returning destroy_failure
  ipm_mutex_destroy p_mtx w = returning (Call.pthread_mutex_destroy p_mtx) destroy_failure w

  -- This switch has no default: any other number falls through to the success below it, after the
  -- attributes are destroyed again.
  condition_init_failure : Errno → World K → IpmResult × World K
  condition_init_failure Errno.eagain w = (IpmResult.err_os_out_of_memory, w)
  condition_init_failure Errno.enomem w = (IpmResult.err_os_out_of_memory, w)
  condition_init_failure Errno.ebusy w = (IpmResult.err_bad_init, w)
  condition_init_failure Errno.einval w = (IpmResult.err_bad_value, w)
  condition_init_failure _ w = (IpmResult.success, ignoring Call.pthread_condattr_destroy w)

  condition_create : ℕ → World K → IpmResult × World K
  unfolding condition_init_failure
  condition_create p_cnd w =
      let (res, w1) = os.call (Call.pthread_cond_init p_cnd) w in
      let w2 = ignoring Call.pthread_condattr_destroy w1 in
      elim res [ Errno.ok ↦ (IpmResult.success, w2) | _ ↦ condition_init_failure w2.errno w2 ]

  unfoldable pub ipm_condition_init : ℕ → World K → IpmResult × World K
  unfolding attribute_step condition_create
  ipm_condition_init p_cnd w =
      let (res, w1) = os.call Call.pthread_condattr_init w in
      elim res [
        | Errno.ok ↦
            attribute_step Call.pthread_condattr_setpshared Call.pthread_condattr_destroy w1
              (condition_create p_cnd)
        | _ ↦ (IpmResult.err_os_unexpected, w1)
      ]

  condition_wait_failure : Errno → IpmResult
  condition_wait_failure Errno.einval = IpmResult.err_bad_value
  condition_wait_failure Errno.eperm = IpmResult.err_not_locked
  condition_wait_failure _ = IpmResult.err_os_unexpected

  unfoldable pub ipm_condition_wait : ℕ → Mutex → World K → IpmResult × World K
  unfolding returning condition_wait_failure
  ipm_condition_wait cnd mtx w = returning (Call.pthread_cond_wait cnd mtx) condition_wait_failure w

  condition_wake_failure : Errno → IpmResult
  condition_wake_failure Errno.einval = IpmResult.err_bad_value
  condition_wake_failure _ = IpmResult.err_os_unexpected

  pub ipm_condition_broadcast : ℕ → World K → IpmResult × World K
  unfolding returning condition_wake_failure
  ipm_condition_broadcast cnd w =
      returning (Call.pthread_cond_broadcast cnd) condition_wake_failure w

  unfoldable pub ipm_condition_signal : ℕ → World K → IpmResult × World K
  unfolding returning condition_wake_failure
  ipm_condition_signal cnd w = returning (Call.pthread_cond_signal cnd) condition_wake_failure w

  unfoldable pub ipm_condition_destroy : ℕ → World K → IpmResult × World K
  unfolding returning destroy_failure
  ipm_condition_destroy p_cnd w = returning (Call.pthread_cond_destroy p_cnd) destroy_failure w
