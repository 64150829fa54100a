-- ===== src/Examples/Census.antt =====
-- The life of a block (source/shared_memory.c): it is created, opened once more, and closed twice.
use ipm.Base.{◌+◌, ◌*◌, false, ℕ, ◌≡◌, refl, String, List, [], ◌∷◌, none, some, arith, get_elem?}
use ipm.Error.{IpmResult}
use ipm.Layout.{AccessMode, read_only, read_write, SharedMemoryBlock}
use ipm.System.{Errno, Posix, World, world_after}
use ipm.Platform.{ipm_mutex_init, ipm_mutex_destroy, ipm_condition_destroy}
use ipm.Claim.{claim_list_uninit}
use ipm.Platform.Undisturbed.{Undisturbed}
use ipm.Common.{Context}
use ipm.Common.Kept.{Kept}
use ipm.Common.Unlinks.{Unlinks, unlinked, after_unlink}
use ipm.SharedMemory.{make_block_name_based_on_id}
use ipm.SharedMemory.Create.{shared_memory_block_create}
use ipm.SharedMemory.Open.{shared_memory_block_open}
use ipm.SharedMemory.Close.{shared_memory_block_close}
use ipm.Memory.{IpmMemory}
use ipm.Memory.Lifetime.{claim_list_dtor_wrapper}
use ipm.Memory.Lifetime.Destroying.{claim_list_dtor_wrapper-Quiet}
use ipm.SharedMemory.Census.{Census, creates, opens, closes}
use ipm.SharedMemory.Census.Counting.{open_handles_counted, unlinked_with_last}
use ipm.Examples.{last_digit, fresh_header, full_list}
use ipm.Examples.Runs.{name}

-- Every call succeeds, no other process runs, and the kernel notes what is unlinked.
abbrev noting : Posix (List (List ℕ))
noting = record {
  ndebug = false;
  call = λ c w. (Errno.ok, record w { kernel = after_unlink c w.kernel });
  shm_open = λ name create w. (some (last_digit name), w);
  mmap = λ hint len mode fd offset w.
      (some (record { address = 65536 + 16384 * fd + offset; object = fd }), w);
  sem_getvalue = λ sem w. (some 1, w);
  strerror = λ e. "error";
  vsnprintf = λ format args. some format;
}

abbrev mute : Context (List (List ℕ))
mute = record {
  report_callback = none;
  alloc_callback = λ size k e. (some 64, k, e);
  free_callback = λ p k e. (k, e);
}

no_report :
    (f : String → List (List ℕ) → Errno → List (List ℕ) × Errno) (msg : String) (k : List (List ℕ))
    (e : Errno)
    → none ≡ some f
    → (f msg k e).0 ≡ k
no_report f msg k e q = absurd (ground arith)

abbrev noted : Unlinks noting
noted = record {
  log = λ k. k;
  calls = λ c w. refl;
  opens = λ name create w. refl;
  maps = λ hint len mode fd offset w. refl;
}

mute-Kept : Kept mute noted.log
mute-Kept = record { reports = no_report; allocates = λ size k e. refl; frees = λ p k e. refl }

noting-Undisturbed : Undisturbed noting
noting-Undisturbed = record {
  calls = λ c w. refl;
  maps = λ hint size mode fd offset w. refl;
  opens = λ name create w. refl;
}

-- Nothing has been unlinked, and no block created.
abbrev empty_world : World (List (List ℕ))
empty_world = record {
  kernel = [];
  errno = Errno.ok;
  headers = λ o. fresh_header;
  lists = λ o. full_list;
}

abbrev numbered_handle : ℕ → AccessMode → SharedMemoryBlock
numbered_handle access_id mode = record {
  access_id = access_id;
  size = 8192;
  header = record { address = 81920; object = 1 };
  memory = some (record { address = 86016; object = 1 });
  has_ownership = false;
  access_mode = mode;
  mem_fd = 1;
}

abbrev both : List SharedMemoryBlock
both = numbered_handle 2 read_only ∷ numbered_handle 1 read_write ∷ []

abbrev one_open : World (List (List ℕ))
one_open =
    world_after (shared_memory_block_create noting mute name 1 8192 read_write empty_world)
      empty_world

abbrev two_open : World (List (List ℕ))
two_open = world_after (shared_memory_block_open noting mute 1 name 1 read_only one_open) one_open

abbrev creator_gone : World (List (List ℕ))
creator_gone =
    world_after (shared_memory_block_close noting mute (numbered_handle 1 read_write) none two_open)
      two_open

-- A handle whose claims are in the block, and that is the last to close.
abbrev sharing : IpmMemory (List (List ℕ))
sharing = record {
  ctx = mute;
  address = 64;
  block_name = name;
  real_memory = numbered_handle 2 read_only;
  active_claims = numbered_handle 2 read_only;
}

abbrev all_gone : World (List (List ℕ))
all_gone =
    world_after
      (shared_memory_block_close noting mute (numbered_handle 2 read_only)
        (some (claim_list_dtor_wrapper noting sharing)) creator_gone)
      creator_gone

opened_twice : Census noting noted name 1 1 empty_world 1 0 both two_open
unfolding shared_memory_block_create shared_memory_block_open make_block_name_based_on_id
    ipm_mutex_init
opened_twice =
    opens mute 1 1 name read_only one_open (creates mute 8192 read_write refl refl) refl refl

closed_twice : Census noting noted name 1 1 empty_world 1 0 [] all_gone
unfolding shared_memory_block_create shared_memory_block_open shared_memory_block_close
    make_block_name_based_on_id ipm_mutex_init claim_list_dtor_wrapper claim_list_uninit
    ipm_mutex_destroy ipm_condition_destroy
closed_twice =
    closes (numbered_handle 2 read_only ∷ []) 0 (numbered_handle 2 read_only)
      (some (claim_list_dtor_wrapper noting sharing)) mute IpmResult.success creator_gone mute-Kept
      (claim_list_dtor_wrapper-Quiet noting noting-Undisturbed sharing noted)
      (closes both 1 (numbered_handle 1 read_write) none mute IpmResult.success two_open mute-Kept
        tt opened_twice refl refl)
      refl refl

open_handles_counted_example :
    ◌≡◌ {A = ℕ} (two_open.headers 1).refcount 2
    × ((i j : ℕ) (b c : SharedMemoryBlock)
        → get_elem? both i ≡ some b
        → get_elem? both j ≡ some c
        → b.access_id ≡ c.access_id
        → i ≡ j)
open_handles_counted_example =
    open_handles_counted noting noting-Undisturbed noted name 1 1 empty_world opened_twice
      (omega arith)

unlinked_with_last_example :
    unlinked noting noted all_gone ≡ make_block_name_based_on_id name 1 ∷ []
unlinked_with_last_example =
    unlinked_with_last noting noting-Undisturbed noted name 1 1 empty_world closed_twice
      (omega arith)
