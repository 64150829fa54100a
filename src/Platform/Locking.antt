-- ===== src/Platform/Locking.antt =====
-- The mutexes that a thread holds, and the wrappers that lock and unlock them
-- (`ipm_mutex_lock`, `ipm_mutex_unlock`, `ipm_condition_wait`).
use ipm.Base.{ℕ, ◌≡◌, ◌≢◌, Bool, true, false, List, ◌∷◌, Option, arith}
use ipm.Error.{IpmResult}
use ipm.Layout.{AccessMode, Ptr}
use ipm.System.{Errno, Mutex, Call, World, Posix}
use ipm.Platform.{
  lock_failure, ipm_mutex_lock, ipm_mutex_unlock, ipm_condition_wait, ipm_condition_signal,
  ipm_mutex_destroy, ipm_condition_destroy,
}

-- A lock of a robust mutex whose owner has died is granted too.
abbrev pub after_lock : Errno → Mutex → List Mutex → List Mutex
after_lock Errno.ok mtx held = mtx ∷ held
after_lock Errno.eownerdead mtx held = mtx ∷ held
after_lock _ mtx held = held

abbrev pub is_locking : Call → Bool
is_locking (Call.pthread_mutex_lock mtx) = true
is_locking (Call.pthread_mutex_unlock mtx) = true
is_locking _ = false

-- What POSIX says of a thread's mutexes, the one locked last first: a granted lock adds one; the one
-- locked last can be unlocked; a wait on a condition variable gives its mutex up and takes it back;
-- and a lock does not put EOWNERDEAD into `errno`, since the pthread calls return it.
pub record Locks {K : Type 0} (os : Posix K) : Type 0 where
  pub owned : K → List Mutex
  pub locks :
      (mtx : Mutex) (w : World K)
      → owned (os.call (Call.pthread_mutex_lock mtx) w).1.kernel
        ≡ after_lock (os.call (Call.pthread_mutex_lock mtx) w).0 mtx (owned w.kernel)
  pub told :
      (mtx : Mutex) (w : World K)
      → w.errno ≢ Errno.eownerdead
      → (os.call (Call.pthread_mutex_lock mtx) w).1.errno ≢ Errno.eownerdead
  pub unlocks :
      (mtx : Mutex) (held : List Mutex) (w : World K)
      → owned w.kernel ≡ mtx ∷ held
      → owned (os.call (Call.pthread_mutex_unlock mtx) w).1.kernel ≡ held
  pub others :
      (c : Call) (w : World K)
      → is_locking c ≡ false
      → owned (os.call c w).1.kernel ≡ owned w.kernel
  pub maps :
      (hint : Option Ptr) (len : ℕ) (mode : AccessMode) (fd offset : ℕ) (w : World K)
      → owned (os.mmap hint len mode fd offset w).1.kernel ≡ owned w.kernel

module _ {K : Type 0} (os : Posix K) (l : Locks os) where
  abbrev pub holds : World K → List Mutex
  holds w = l.owned w.kernel

  -- A lock that reports success has taken the mutex, any other has not.
  abbrev pub after_wrapped : IpmResult → Mutex → List Mutex → List Mutex
  after_wrapped IpmResult.success mtx held = mtx ∷ held
  after_wrapped _ mtx held = held

  failure_lem :
      (mtx : Mutex) (e : Errno) (w : World K)
      → e ≢ Errno.eownerdead
      → (holds (lock_failure os mtx e w).1 ≡ holds w)
        × ((lock_failure os mtx e w).0 ≢ IpmResult.success)
        × ((lock_failure os mtx e w).0 ≢ IpmResult.interrupted)
  unfolding lock_failure
  failure_lem mtx e w n = (ground arith, ground arith, ground arith)

  pub holds-ipm_mutex_lock :
      (mtx : Mutex) (w : World K)
      → w.errno ≢ Errno.eownerdead
      → holds (ipm_mutex_lock os mtx w).1 ≡ after_wrapped (ipm_mutex_lock os mtx w).0 mtx (holds w)
  unfolding ipm_mutex_lock
  holds-ipm_mutex_lock mtx w fresh =
      let w1 = (os.call (Call.pthread_mutex_lock mtx) w).1 in
      ground (
        arith,
        l.locks mtx w,
        failure_lem mtx w1.errno w1 (l.told mtx w fresh),
        l.others (Call.pthread_mutex_consistent mtx) w1,
      )

  pub lock-ne-interrupted :
      (mtx : Mutex) (w : World K)
      → w.errno ≢ Errno.eownerdead
      → (ipm_mutex_lock os mtx w).0 ≢ IpmResult.interrupted
  unfolding ipm_mutex_lock
  lock-ne-interrupted mtx w fresh e =
      let w1 = (os.call (Call.pthread_mutex_lock mtx) w).1 in
      ground (arith, failure_lem mtx w1.errno w1 (l.told mtx w fresh))

  pub holds-ipm_mutex_unlock :
      (mtx : Mutex) (held : List Mutex) (w : World K)
      → holds w ≡ mtx ∷ held
      → holds (ipm_mutex_unlock os mtx w).1 ≡ held
  unfolding ipm_mutex_unlock
  holds-ipm_mutex_unlock mtx held w e = ground (arith, l.unlocks mtx held w e)

  pub holds-ipm_condition_wait :
      (cnd : ℕ) (mtx : Mutex) (w : World K) → holds (ipm_condition_wait os cnd mtx w).1 ≡ holds w
  unfolding ipm_condition_wait
  holds-ipm_condition_wait cnd mtx w = ground (arith, l.others (Call.pthread_cond_wait cnd mtx) w)

  pub holds-ipm_condition_signal :
      (cnd : ℕ) (w : World K) → holds (ipm_condition_signal os cnd w).1 ≡ holds w
  unfolding ipm_condition_signal
  holds-ipm_condition_signal cnd w = ground (arith, l.others (Call.pthread_cond_signal cnd) w)

  pub holds-ipm_mutex_destroy :
      (mtx : Mutex) (w : World K) → holds (ipm_mutex_destroy os mtx w).1 ≡ holds w
  unfolding ipm_mutex_destroy
  holds-ipm_mutex_destroy mtx w = ground (arith, l.others (Call.pthread_mutex_destroy mtx) w)

  pub holds-ipm_condition_destroy :
      (cnd : ℕ) (w : World K) → holds (ipm_condition_destroy os cnd w).1 ≡ holds w
  unfolding ipm_condition_destroy
  holds-ipm_condition_destroy cnd w = ground (arith, l.others (Call.pthread_cond_destroy cnd) w)
