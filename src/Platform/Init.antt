-- ===== src/Platform/Init.antt =====
-- When `ipm_mutex_init` and `ipm_condition_init` report success (source/ipm_platform.c).
use ipm.Base.{ℕ, ◌≡◌, ◌≢◌, ◌↔◌, ◌⊎◌, inl, inr, arith}
use ipm.Error.{IpmResult}
use ipm.System.{Errno, Mutex, Call, World, Posix}
use ipm.Platform.{
  ipm_mutex_init, mutex_create, mutex_init_failure, attribute_step, ipm_condition_init,
  condition_create, condition_init_failure,
}
use ipm.Platform.Still.{ok-cases}

module _ {K : Type 0} (os : Posix K) where
  -- What a call returns, and the world after it.
  abbrev pub returned : Call → World K → Errno
  returned c w = (os.call c w).0

  abbrev pub after : Call → World K → World K
  after c w = (os.call c w).1

  -- The attributes are set one after the other, and then the mutex is made.
  abbrev pub shared_at : World K → World K
  shared_at w = after Call.pthread_mutexattr_init w

  abbrev pub typed_at : World K → World K
  typed_at w = after Call.pthread_mutexattr_setpshared (shared_at w)

  abbrev pub robust_at : World K → World K
  robust_at w = after Call.pthread_mutexattr_settype (typed_at w)

  abbrev pub made_at : World K → World K
  made_at w = after Call.pthread_mutexattr_setrobust (robust_at w)

  create_iff :
      (mtx : Mutex) (w : World K)
      → ((mutex_create os mtx w).0 ≡ IpmResult.success)
        ↔ (returned (Call.pthread_mutex_init mtx) w ≡ Errno.ok)
  unfolding mutex_create mutex_init_failure
  create_iff mtx w = (λ h. ground arith, λ h. ground arith)

  step_iff :
      (c : Call) (w : World K) (k : World K → IpmResult × World K)
      → ((attribute_step os c Call.pthread_mutexattr_destroy w k).0 ≡ IpmResult.success)
        ↔ ((returned c w ≡ Errno.ok) × ((k (after c w)).0 ≡ IpmResult.success))
  unfolding attribute_step
  step_iff c w k = (λ h. (ground arith, ground arith), λ (good, rest). ground (arith, good, rest))

  -- `ipm_mutex_init` reports success exactly when each of its calls, in its turn, returned 0: that
  -- which makes the attributes, the three that set them, and `pthread_mutex_init`.
  pub mutex_init_success_iff :
      (mtx : Mutex) (w : World K)
      → ((ipm_mutex_init os mtx w).0 ≡ IpmResult.success) ↔ (
          (returned Call.pthread_mutexattr_init w ≡ Errno.ok)
          × (returned Call.pthread_mutexattr_setpshared (shared_at w) ≡ Errno.ok)
          × (returned Call.pthread_mutexattr_settype (typed_at w) ≡ Errno.ok)
          × (returned Call.pthread_mutexattr_setrobust (robust_at w) ≡ Errno.ok)
          × (returned (Call.pthread_mutex_init mtx) (made_at w) ≡ Errno.ok))
  unfolding ipm_mutex_init
  mutex_init_success_iff mtx w =
      let create = mutex_create os mtx in
      let gone = Call.pthread_mutexattr_destroy in
      let robust =
        λ (v : World K). attribute_step os Call.pthread_mutexattr_setrobust gone v create in
      let typed = λ (v : World K). attribute_step os Call.pthread_mutexattr_settype gone v robust in
      let (shared→, shared←) = step_iff Call.pthread_mutexattr_setpshared (shared_at w) typed in
      let (typed→, typed←) = step_iff Call.pthread_mutexattr_settype (typed_at w) robust in
      let (robust→, robust←) = step_iff Call.pthread_mutexattr_setrobust (robust_at w) create in
      let (create→, create←) = create_iff mtx (made_at w) in
      (
        λ h.
            let (s, h1) = shared→ (ground arith) in
            let (t, h2) = typed→ h1 in
            let (r, h3) = robust→ h2 in (ground arith, s, t, r, create→ h3),
        λ (a, s, t, r, c).
            let all = shared← (s, typed← (t, robust← (r, create← c))) in ground (arith, a, all),
      )

  -- The switch of `ipm_condition_init` has no case for these.
  abbrev pub Unlisted : Errno → Type 0
  Unlisted e = (e ≢ Errno.eagain) × (e ≢ Errno.enomem) × (e ≢ Errno.ebusy) × (e ≢ Errno.einval)

  condition_failure_iff :
      (e : Errno) (w : World K)
      → ((condition_init_failure os e w).0 ≡ IpmResult.success) ↔ Unlisted e
  unfolding condition_init_failure
  condition_failure_iff e w = (
    λ h. (λ q. ground arith, λ q. ground arith, λ q. ground arith, λ q. ground arith),
    λ n. ground arith,
  )

  -- `errno` once the attributes are gone, after the condition variable was made or was not.
  abbrev pub errno_left : ℕ → World K → Errno
  errno_left cnd w =
      (after Call.pthread_condattr_destroy (after (Call.pthread_cond_init cnd) w)).errno

  condition_create_iff :
      (cnd : ℕ) (w : World K)
      → ((condition_create os cnd w).0 ≡ IpmResult.success)
        ↔ ((returned (Call.pthread_cond_init cnd) w ≡ Errno.ok) ⊎ Unlisted (errno_left cnd w))
  unfolding condition_create
  condition_create_iff cnd w =
      let w2 = after Call.pthread_condattr_destroy (after (Call.pthread_cond_init cnd) w) in
      let (failed→, failed←) = condition_failure_iff w2.errno w2 in
      elim (ok-cases (returned (Call.pthread_cond_init cnd) w)) [
        | inl good ↦ (λ h. inl good, λ h. ground (arith, good))
        | inr bad ↦ (
          λ h. inr (failed→ (ground (arith, bad, h))),
          λ h. elim h [
            | inl good ↦ absurd (bad good)
            | inr n ↦ let fine = failed← n in ground (arith, bad, fine)
          ],
        )
      ]

  condition_step_iff :
      (w : World K) (k : World K → IpmResult × World K)
      → ((attribute_step os Call.pthread_condattr_setpshared Call.pthread_condattr_destroy w k).0
          ≡ IpmResult.success)
        ↔ ((returned Call.pthread_condattr_setpshared w ≡ Errno.ok)
            × ((k (after Call.pthread_condattr_setpshared w)).0 ≡ IpmResult.success))
  unfolding attribute_step
  condition_step_iff w k =
      (λ h. (ground arith, ground arith), λ (good, rest). ground (arith, good, rest))

  -- `ipm_condition_init` reports success exactly when its attributes were made and set, and
  -- `pthread_cond_init` returned 0, or it failed and `errno`, once the attributes are gone, is none of
  -- EAGAIN, ENOMEM, EBUSY and EINVAL.
  pub condition_init_success_iff :
      (cnd : ℕ) (w : World K)
      → ((ipm_condition_init os cnd w).0 ≡ IpmResult.success) ↔ (
          (returned Call.pthread_condattr_init w ≡ Errno.ok)
          × (returned Call.pthread_condattr_setpshared (after Call.pthread_condattr_init w)
              ≡ Errno.ok)
          × ((returned
                  (Call.pthread_cond_init cnd)
                  (after Call.pthread_condattr_setpshared (after Call.pthread_condattr_init w))
                ≡ Errno.ok)
              ⊎ Unlisted (
                  errno_left cnd
                    (after Call.pthread_condattr_setpshared (after Call.pthread_condattr_init w)))))
  unfolding ipm_condition_init
  condition_init_success_iff cnd w =
      let w1 = after Call.pthread_condattr_init w in
      let (shared→, shared←) = condition_step_iff w1 (condition_create os cnd) in
      let (made→, made←) = condition_create_iff cnd (after Call.pthread_condattr_setpshared w1) in
      (
        λ h. let (s, h1) = shared→ (ground arith) in (ground arith, s, made→ h1),
        λ (a, s, c). let all = shared← (s, made← c) in ground (arith, a, all),
      )
