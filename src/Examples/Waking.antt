-- ===== src/Examples/Waking.antt =====
-- The signals of a system that notes them, at the release of one claim and of all.
use ipm.Base.{◌+◌, ◌*◌, ℕ, ◌≡◌, refl, true, false, String, List, [], ◌∷◌, none, some, arith}
use ipm.Error.{IpmResult}
use ipm.System.{Errno, Posix, World, world_after}
use ipm.Platform.{ipm_mutex_lock, ipm_mutex_unlock, ipm_condition_signal}
use ipm.Platform.Waking.{Wakes, wakened, after_wake}
use ipm.Common.{Context}
use ipm.Common.Kept.{Kept}
use ipm.Claim.{claim_remove_from_list}
use ipm.Memory.{IpmMemory}
use ipm.Memory.Region.{ipm_memory_release_region}
use ipm.Memory.Region.Waking.{releases, removals_wake}
use ipm.Examples.{block_at, fresh_header, last_digit, three_claims, pointer}

abbrev signalling : Posix (List ℕ)
signalling = record {
  ndebug = false;
  call = λ c w. (Errno.ok, record w { kernel = after_wake c w.kernel });
  shm_open = λ name create w. (some (last_digit name), w);
  mmap = λ hint len mode fd offset w.
      (some (record { address = 65536 + 16384 * fd + offset; object = fd }), w);
  sem_getvalue = λ sem w. (some 1, w);
  strerror = λ e. "error";
  vsnprintf = λ format args. some format;
}

abbrev reportless : Context (List ℕ)
reportless = record {
  report_callback = none;
  alloc_callback = λ size k e. (some 64, k, e);
  free_callback = λ p k e. (k, e);
}

no_report :
    (f : String → List ℕ → Errno → List ℕ × Errno) (msg : String) (k : List ℕ) (e : Errno)
    → none ≡ some f
    → (f msg k e).0 ≡ k
no_report f msg k e q = absurd (ground arith)

abbrev signalling-Wakes : Wakes signalling
signalling-Wakes = record { woken = λ k. k; calls = λ c w. refl }

reportless-Kept : Kept reportless signalling-Wakes.woken
reportless-Kept = record {
  reports = no_report;
  allocates = λ size k e. refl;
  frees = λ p k e. refl;
}

-- Three claims are live, of the handles 10, 11 and 10.
abbrev unsignalled : World (List ℕ)
unsignalled = record {
  kernel = [];
  errno = Errno.ok;
  headers = λ o. record fresh_header { refcount = 1; block_size = 8192; block_id = o };
  lists = λ o. three_claims;
}

abbrev holder : IpmMemory (List ℕ)
holder = record {
  address = 64;
  ctx = reportless;
  block_name = b'm' ∷ [];
  real_memory = block_at 1;
  active_claims = block_at 2;
}

abbrev one_released : World (List ℕ)
one_released = world_after (ipm_memory_release_region signalling holder 5 unsignalled) unsignalled

removals_wake_example : wakened signalling signalling-Wakes one_released ≡ 2 ∷ []
unfolding ipm_memory_release_region claim_remove_from_list ipm_mutex_lock ipm_mutex_unlock
    ipm_condition_signal
removals_wake_example =
    removals_wake signalling holder signalling-Wakes reportless-Kept (pointer 2) refl true
      unsignalled one_released (releases 5 IpmResult.success refl)
