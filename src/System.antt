-- ===== src/System.antt =====
-- What the code runs on. The C library's and the kernel's calls are fields of `Posix`, a parameter
-- of every definition that makes them. Each takes the world and returns it changed, so another
-- process may run, and change the shared memory, inside any of them.
pub mod Inversion
pub mod Returns
use ipm.Base.{ℕ, ◌==◌, Bool, true, false, Option, List, String, if◌then◌else◌, none, some}
use ipm.Layout.{AccessMode, ClaimList, SharedMemoryHeader, Ptr}

-- `0` (`ok`), the codes that the source tells apart, and all others.
pub data Errno : Type 0 where
  ok eperm enoent eagain enomem eacces ebusy eexist einval enfile emfile efbig erofs : Errno
  ebadf enametoolong edeadlk eownerdead eintr : Errno
  other : ℕ → Errno

-- `segment_mutex` of the header, or `list_mutex` of the claim list, in a shared object.
pub data Mutex : Type 0 where
  segment_mutex list_mutex : (object : ℕ) → Mutex

-- The calls that return an `int`: `ok` for 0, an error number for a failure. `sem_init`,
-- `sem_wait`, `ftruncate` and `shm_unlink` report a failure as -1 and put its number into `errno`;
-- of their result the code reads the sign only. `list_cnd` of an object is the argument of the
-- `pthread_cond_*` calls, and an address that of the `sem_*` calls.
pub data Call : Type 0 where
  sem_init : (sem val : ℕ) → Call
  sem_destroy sem_post sem_wait : (sem : ℕ) → Call
  pthread_mutexattr_init pthread_mutexattr_setpshared pthread_mutexattr_settype : Call
  pthread_mutexattr_setrobust pthread_mutexattr_destroy : Call
  pthread_mutex_init pthread_mutex_lock pthread_mutex_consistent : Mutex → Call
  pthread_mutex_unlock pthread_mutex_destroy : Mutex → Call
  pthread_condattr_init pthread_condattr_setpshared pthread_condattr_destroy : Call
  pthread_cond_init : (cnd : ℕ) → Call
  pthread_cond_wait : (cnd : ℕ) → Mutex → Call
  pthread_cond_broadcast pthread_cond_signal pthread_cond_destroy : (cnd : ℕ) → Call
  ftruncate : (fd len : ℕ) → Call
  close : (fd : ℕ) → Call
  shm_unlink : (name : List ℕ) → Call
  munmap : Option Ptr → (len : ℕ) → Call
  sched_yield : Call

-- `kernel` is what the code cannot see: the operating system, and the state behind the callbacks.
-- `headers` and `lists` are the shared objects' contents.
pub record World (K : Type 0) : Type 0 where
  pub kernel : K
  pub errno : Errno
  pub headers : ℕ → SharedMemoryHeader
  pub lists : ℕ → ClaimList

abbrev pub update {ℓ} : {A : Type ℓ} → (ℕ → A) → ℕ → A → ℕ → A
update f i a j = if i == j then a else f j

-- An argument of a format.
pub data Arg : Type 0 where
  number : ℕ → Arg
  text : String → Arg
  bytes : List ℕ → Arg

pub record Posix (K : Type 0) : Type 0 where
  pub ndebug : Bool  -- whether the build defines NDEBUG, which takes the asserts out
  pub call : Call → World K → Errno × World K
  -- `create` is O_CREAT | O_EXCL; `none` is a negative result
  pub shm_open : (name : List ℕ) → (create : Bool) → World K → Option ℕ × World K
  -- address hint, length, protection, descriptor, offset; `none` is MAP_FAILED
  pub mmap : Option Ptr → ℕ → AccessMode → ℕ → ℕ → World K → Option Ptr × World K
  -- a negative result is `none`
  pub sem_getvalue : (sem : ℕ) → World K → Option ℕ × World K
  pub strerror : Errno → String
  -- a negative result is `none`
  pub vsnprintf : String → List Arg → Option String

-- How a call into the library ends: it returns, an assert stops the process, it touches memory
-- out of bounds, or the fuel of a waiting loop has run out and it still waits.
pub data Outcome {ℓ} (A : Type ℓ) : Type ℓ where
  done : A → Outcome A
  aborted fault blocked : Outcome A

abbrev pub M : Type 0 → Type 0 → Type 0
M K A = World K → Outcome (A × World K)

-- Where a computation leaves the world, if it returns.
abbrev pub world_after : {K A : Type 0} → Outcome (A × World K) → World K → World K
world_after (done (a, w)) start = w
world_after aborted start = start
world_after fault start = start
world_after blocked start = start

infixl 5 ◌>>=◌ ◌>>◌
abbrev pub ◌>>=◌ : {K A B : Type 0} → M K A → (A → M K B) → M K B
◌>>=◌ m f w = elim (m w) [
  | done (a, w') ↦ f a w'
  | aborted ↦ aborted
  | fault ↦ fault
  | blocked ↦ blocked
]

abbrev pub ◌>>◌ : {K A B : Type 0} → M K A → M K B → M K B
m >> k = m >>= λ _. k

module _ {K : Type 0} where
  abbrev pub pure : {A : Type 0} → A → M K A
  pure a w = done (a, w)

  -- A step that always returns.
  abbrev pub run : {A : Type 0} → (World K → A × World K) → M K A
  run f w = done (f w)

  -- A value that is read off the world.
  abbrev pub read : {A : Type 0} → (World K → A) → M K A
  read f w = done (f w, w)

  abbrev pub modify : (World K → World K) → M K (Unit {0})
  modify f w = done (tt, f w)

  -- `none` is an access out of bounds.
  abbrev pub checked : {A : Type 0} → Option A → M K A
  checked none w = fault
  checked (some a) w = done (a, w)

  -- The C library's `assert`: in a build with NDEBUG it does nothing.
  abbrev pub assert : Posix K → Bool → M K (Unit {0})
  assert os true w = done (tt, w)
  assert os false w = if os.ndebug then done (tt, w) else aborted

  abbrev pub set_list : ℕ → ClaimList → World K → World K
  set_list o l w = record w { lists = update w.lists o l }

  abbrev pub set_header : ℕ → SharedMemoryHeader → World K → World K
  set_header o h w = record w { headers = update w.headers o h }
