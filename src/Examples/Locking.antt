-- ===== src/Examples/Locking.antt =====
-- The mutexes that a thread holds, for a system that keeps them in a list.
use ipm.Base.{◌+◌, ◌*◌, ◌≡◌, ◌≢◌, refl, Bool, true, false, String, List, [], ◌∷◌, none, some, arith}
use ipm.Error.{IpmResult}
use ipm.Layout.{MemoryClaim}
use ipm.System.{Errno, Mutex, Call, Posix, World, world_after}
use ipm.Platform.{ipm_mutex_lock, ipm_mutex_unlock, ipm_condition_signal}
use ipm.Platform.Locking.{Locks, holds, is_locking}
use ipm.Common.{Context}
use ipm.Common.Kept.{Kept}
use ipm.Claim.{claim_remove_from_list, visit, claims_iterate}
use ipm.Claim.Iterate.Stopping.{holds-claims_iterate}
use ipm.Memory.{IpmMemory}
use ipm.Memory.Locking.{releases, mutexes_given_back}
use ipm.Memory.Region.{ipm_memory_release_region}
use ipm.Examples.{block_at, fresh_header, last_digit, three_claims}

-- A lock adds its mutex, an unlock takes the last one away.
abbrev after_call : Call → List Mutex → List Mutex
after_call (Call.pthread_mutex_lock mtx) held = mtx ∷ held
after_call (Call.pthread_mutex_unlock mtx) (m ∷ held) = held
after_call _ held = held

abbrev keeping : Posix (List Mutex)
keeping = record {
  ndebug = false;
  call = λ c w. (Errno.ok, record w { kernel = after_call c w.kernel });
  shm_open = λ name create w. (some (last_digit name), w);
  mmap = λ hint len mode fd offset w.
      (some (record { address = 65536 + 16384 * fd + offset; object = fd }), w);
  sem_getvalue = λ sem w. (some 1, w);
  strerror = λ e. "error";
  vsnprintf = λ format args. some format;
}

abbrev hushed : Context (List Mutex)
hushed = record {
  report_callback = none;
  alloc_callback = λ size k e. (some 64, k, e);
  free_callback = λ p k e. (k, e);
}

no_report :
    (f : String → List Mutex → Errno → List Mutex × Errno) (msg : String) (k : List Mutex)
    (e : Errno)
    → none ≡ some f
    → (f msg k e).0 ≡ k
no_report f msg k e q = absurd (ground arith)

hushed-Kept : Kept hushed (λ (k : List Mutex). k)
hushed-Kept = record { reports = no_report; allocates = λ size k e. refl; frees = λ p k e. refl }

other_call : (c : Call) (held : List Mutex) → is_locking c ≡ false → after_call c held ≡ held
other_call (Call.pthread_mutex_lock mtx) held e = absurd (ground arith)
other_call (Call.pthread_mutex_unlock mtx) held e = absurd (ground arith)
other_call c held e = ground arith

unlocks_last :
    (mtx : Mutex) (held all : List Mutex)
    → all ≡ mtx ∷ held
    → after_call (Call.pthread_mutex_unlock mtx) all ≡ held
unlocks_last mtx held all e = ground (arith, e)

abbrev keeping-Locks : Locks keeping
keeping-Locks = record {
  owned = λ k. k;
  locks = λ mtx w. refl;
  told = λ mtx w fresh. fresh;
  unlocks = λ mtx held w e. unlocks_last mtx held w.kernel e;
  others = λ c w e. other_call c w.kernel e;
  maps = λ hint len mode fd offset w. refl;
}

-- The thread holds the segment's mutex of another object.
abbrev busy : World (List Mutex)
busy = record {
  kernel = Mutex.segment_mutex 7 ∷ [];
  errno = Errno.ok;
  headers = λ o. record fresh_header { refcount = 1; block_size = 8192; block_id = o };
  lists = λ o. three_claims;
}

abbrev owner : IpmMemory (List Mutex)
owner = record {
  address = 64;
  ctx = hushed;
  block_name = b'm' ∷ [];
  real_memory = block_at 1;
  active_claims = block_at 2;
}

abbrev released : World (List Mutex)
released = world_after (ipm_memory_release_region keeping owner 5 busy) busy

mutexes_given_back_example : holds keeping keeping-Locks released ≡ Mutex.segment_mutex 7 ∷ []
unfolding ipm_memory_release_region claim_remove_from_list ipm_mutex_lock ipm_mutex_unlock
    ipm_condition_signal
mutexes_given_back_example =
    mutexes_given_back keeping owner keeping-Locks busy released IpmResult.success hushed-Kept
      (ground arith) (releases 5 refl) (ground arith)

-- A callback that stops at once.
abbrev stopping : MemoryClaim → World (List Mutex) → Bool × World (List Mutex)
stopping c w = (true, w)

abbrev stopped : World (List Mutex)
stopped = world_after (claims_iterate keeping 2 stopping busy) busy

holds-claims_iterate_example :
    (IpmResult.interrupted ≢ IpmResult.interrupted
      → holds keeping keeping-Locks stopped ≡ Mutex.segment_mutex 7 ∷ [])
    × (IpmResult.interrupted ≡ IpmResult.interrupted
        → holds keeping keeping-Locks stopped ≡ Mutex.list_mutex 2 ∷ Mutex.segment_mutex 7 ∷ [])
unfolding claims_iterate visit ipm_mutex_lock
holds-claims_iterate_example =
    holds-claims_iterate keeping keeping-Locks 2 stopping IpmResult.interrupted busy stopped
      (ground arith) (λ c w. refl) refl
