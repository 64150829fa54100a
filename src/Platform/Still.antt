-- ===== src/Platform/Still.antt =====
-- What the wrappers of semaphores, mutexes and condition variables leave alone
-- (source/ipm_platform.c): whatever the calls on such objects leave alone.
use ipm.Base.{◌⊎◌, ◌≢◌, inl, inr, ℕ, ◌≡◌, Bool, true, false, refl, arith}
use ipm.Error.{IpmResult}
use ipm.System.{Errno, Mutex, Call, World, Posix}
use ipm.Platform.{
  attribute_step, mutex_create, ipm_mutex_init, lock_failure, ipm_mutex_lock, ipm_mutex_unlock,
  ipm_mutex_destroy, condition_init_failure, condition_create, ipm_condition_init,
  ipm_condition_signal, ipm_condition_wait, ipm_condition_destroy,
}

-- The calls on descriptors, names and mappings are the others.
abbrev pub synchronizes : Call → Bool
synchronizes (Call.ftruncate fd len) = false
synchronizes (Call.close fd) = false
synchronizes (Call.shm_unlink name) = false
synchronizes (Call.munmap p len) = false
synchronizes _ = true

-- To split on a call's result.
pub ok-cases : (e : Errno) → (e ≡ Errno.ok) ⊎ (e ≢ Errno.ok)
ok-cases Errno.ok = inl refl
ok-cases e = inr (ground arith)

module _ {K B : Type 0} (os : Posix K) (f : World K → B)
    (still : (c : Call) (w : World K) → synchronizes c ≡ true → f (os.call c w).1 ≡ f w) where
  attribute_step_still :
      (c destroy : Call) (w : World K) (k : World K → IpmResult × World K)
      → synchronizes c ≡ true
      → synchronizes destroy ≡ true
      → ((v : World K) → f (k v).1 ≡ f v)
      → f (attribute_step os c destroy w k).1 ≡ f w
  unfolding attribute_step
  attribute_step_still c destroy w k sc sd keeps =
      let w1 = (os.call c w).1 in ground (arith, still c w, still destroy w1, keeps w1)

  mutex_create_still : (mtx : Mutex) (w : World K) → f (mutex_create os mtx w).1 ≡ f w
  unfolding mutex_create
  mutex_create_still mtx w =
      let w1 = (os.call (Call.pthread_mutex_init mtx) w).1 in
      ground (arith, still (Call.pthread_mutex_init mtx) w, still Call.pthread_mutexattr_destroy w1)

  pub mutex_init_still : (mtx : Mutex) (w : World K) → f (ipm_mutex_init os mtx w).1 ≡ f w
  unfolding ipm_mutex_init
  mutex_init_still mtx w =
      let w1 = (os.call Call.pthread_mutexattr_init w).1 in
      let give_up = Call.pthread_mutexattr_destroy in
      let create = mutex_create os mtx in
      let robust =
        λ (v : World K). attribute_step os Call.pthread_mutexattr_setrobust give_up v create in
      let typed =
        λ (v : World K). attribute_step os Call.pthread_mutexattr_settype give_up v robust in
      let steps =
        attribute_step_still Call.pthread_mutexattr_setpshared give_up w1 typed refl refl (λ v.
          attribute_step_still Call.pthread_mutexattr_settype give_up v robust refl refl (λ u.
            attribute_step_still Call.pthread_mutexattr_setrobust give_up u create refl refl
              (mutex_create_still mtx))) in
      ground (arith, still Call.pthread_mutexattr_init w, steps)

  failed_lock_still : (mtx : Mutex) (e : Errno) (w : World K) → f (lock_failure os mtx e w).1 ≡ f w
  unfolding lock_failure
  failed_lock_still mtx e w = ground (arith, still (Call.pthread_mutex_consistent mtx) w)

  pub mutex_lock_still : (mtx : Mutex) (w : World K) → f (ipm_mutex_lock os mtx w).1 ≡ f w
  unfolding ipm_mutex_lock
  mutex_lock_still mtx w =
      let w1 = (os.call (Call.pthread_mutex_lock mtx) w).1 in
      ground (
        arith,
        still (Call.pthread_mutex_lock mtx) w,
        still (Call.pthread_mutex_consistent mtx) w1,
        failed_lock_still mtx w1.errno w1,
      )

  pub mutex_unlock_still : (mtx : Mutex) (w : World K) → f (ipm_mutex_unlock os mtx w).1 ≡ f w
  unfolding ipm_mutex_unlock
  mutex_unlock_still mtx w = ground (arith, still (Call.pthread_mutex_unlock mtx) w)

  pub mutex_destroy_still : (mtx : Mutex) (w : World K) → f (ipm_mutex_destroy os mtx w).1 ≡ f w
  unfolding ipm_mutex_destroy
  mutex_destroy_still mtx w = ground (arith, still (Call.pthread_mutex_destroy mtx) w)

  failed_init_still : (e : Errno) (w : World K) → f (condition_init_failure os e w).1 ≡ f w
  unfolding condition_init_failure
  failed_init_still e w = ground (arith, still Call.pthread_condattr_destroy w)

  condition_create_still : (cnd : ℕ) (w : World K) → f (condition_create os cnd w).1 ≡ f w
  unfolding condition_create
  condition_create_still cnd w =
      let w1 = (os.call (Call.pthread_cond_init cnd) w).1 in
      let w2 = (os.call Call.pthread_condattr_destroy w1).1 in
      ground (
        arith,
        still (Call.pthread_cond_init cnd) w,
        still Call.pthread_condattr_destroy w1,
        failed_init_still w2.errno w2,
      )

  pub condition_init_still : (cnd : ℕ) (w : World K) → f (ipm_condition_init os cnd w).1 ≡ f w
  unfolding ipm_condition_init
  condition_init_still cnd w =
      let w1 = (os.call Call.pthread_condattr_init w).1 in
      let steps =
        attribute_step_still Call.pthread_condattr_setpshared Call.pthread_condattr_destroy w1
          (condition_create os cnd) refl refl (condition_create_still cnd) in
      ground (arith, still Call.pthread_condattr_init w, steps)

  pub condition_wait_still :
      (cnd : ℕ) (mtx : Mutex) (w : World K) → f (ipm_condition_wait os cnd mtx w).1 ≡ f w
  unfolding ipm_condition_wait
  condition_wait_still cnd mtx w = ground (arith, still (Call.pthread_cond_wait cnd mtx) w)

  pub condition_signal_still : (cnd : ℕ) (w : World K) → f (ipm_condition_signal os cnd w).1 ≡ f w
  unfolding ipm_condition_signal
  condition_signal_still cnd w = ground (arith, still (Call.pthread_cond_signal cnd) w)

  pub condition_destroy_still : (cnd : ℕ) (w : World K) → f (ipm_condition_destroy os cnd w).1 ≡ f w
  unfolding ipm_condition_destroy
  condition_destroy_still cnd w = ground (arith, still (Call.pthread_cond_destroy cnd) w)
