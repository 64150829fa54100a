-- ===== src/Platform/Undisturbed.antt =====
-- Calls during which no other process changes the shared memory.
use ipm.Base.{ℕ, ◌≡◌, Bool, List, Option}
use ipm.Layout.{AccessMode, SharedMemoryHeader, Ptr}
use ipm.System.{Mutex, Call, World, Posix}
use ipm.Platform.{ipm_mutex_init, ipm_mutex_unlock, ipm_mutex_destroy}
use ipm.Platform.Still.{mutex_init_still, mutex_unlock_still, mutex_destroy_still}

-- The kernel changes no contents of shared memory in these calls, and no other process runs.
pub record Undisturbed {K : Type 0} (os : Posix K) : Type 0 where
  pub calls : (c : Call) (w : World K) → (os.call c w).1.headers ≡ w.headers
  pub maps :
      (hint : Option Ptr) (size : ℕ) (mode : AccessMode) (fd offset : ℕ) (w : World K)
      → (os.mmap hint size mode fd offset w).1.headers ≡ w.headers
  pub opens :
      (name : List ℕ) (create : Bool) (w : World K)
      → (os.shm_open name create w).1.headers ≡ w.headers

abbrev pub headers_of : {K : Type 0} → World K → ℕ → SharedMemoryHeader
headers_of v = v.headers

module _ {K : Type 0} (os : Posix K) (calm : Undisturbed os) (mtx : Mutex) (w : World K) where
  pub unlock_same : (ipm_mutex_unlock os mtx w).1.headers ≡ w.headers
  unlock_same = mutex_unlock_still os headers_of (λ c v _. calm.calls c v) mtx w

  pub mutex_init_same : (ipm_mutex_init os mtx w).1.headers ≡ w.headers
  mutex_init_same = mutex_init_still os headers_of (λ c v _. calm.calls c v) mtx w

  pub mutex_destroy_same : (ipm_mutex_destroy os mtx w).1.headers ≡ w.headers
  mutex_destroy_same = mutex_destroy_still os headers_of (λ c v _. calm.calls c v) mtx w
