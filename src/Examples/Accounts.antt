-- ===== src/Examples/Accounts.antt =====
-- The theorems on descriptors and mappings (source/ipm_memory.c, source/shared_memory.c) for a system
-- that counts them.
use ipm.Base.{
  replicate, ℕ, String, ◌+◌, ◌*◌, ◌≡◌, ◌≢◌, refl, true, false, arith, [], ◌∷◌, Option, none, some,
}
use ipm.Error.{IpmResult}
use ipm.Layout.{read_write, Ptr, SharedMemoryBlock}
use ipm.System.{Call, Errno, Posix, World, done, world_after}
use ipm.Platform.{ipm_mutex_init, ipm_mutex_lock, ipm_condition_init}
use ipm.Common.{Context, ipm_alloc_real, ipm_free}
use ipm.Common.Accounts.{Held, held, with_fd, with_map, after_call, if_some, Accounts, now}
use ipm.Claim.{claim_list_init}
use ipm.SharedMemory.{make_block_name_based_on_id}
use ipm.SharedMemory.Mapping.{shared_memory_block_update_mapping}
use ipm.SharedMemory.Create.{shared_memory_block_create}
use ipm.SharedMemory.Create.Returning.{MapsHeaders}
use ipm.Memory.{IpmMemory}
use ipm.Memory.Handle.{ipm_memory_sync}
use ipm.Memory.Handle.Leaking.{synced_close_leaks}
use ipm.Memory.Lifetime.{has_slash, ipm_memory_create, ipm_memory_close}
use ipm.Memory.Lifetime.Balance.{with_handle, knows_both}
use ipm.Memory.Lifetime.Settling.{Fits, memory_create_balances}
use ipm.Memory.Lifetime.RoundTrip.{Closable}
use ipm.Examples.{unused, fresh_header, last_digit, full_list}
use ipm.Examples.Runs.{linux, name}

-- Every call succeeds, and the kernel counts what is held.
abbrev counting : Posix Held
counting = record {
  ndebug = false;
  call = λ c w. (Errno.ok, record w { kernel = after_call c w.kernel });
  shm_open = λ name create w. (some (last_digit name), record w { kernel = with_fd w.kernel });
  mmap = λ hint len mode fd offset w. (
    some (record { address = 65536 + 16384 * fd + offset; object = fd }),
    record w { kernel = with_map w.kernel },
  );
  sem_getvalue = λ sem w. (some 1, w);
  strerror = λ e. "error";
  vsnprintf = λ format args. some format;
}

abbrev plain : Context Held
plain = record {
  report_callback = none;
  alloc_callback = λ size k e. (some 64, k, e);
  free_callback = λ p k e. (k, e);
}

not_at_zero :
    (fd offset : ℕ) (p : Ptr)
    → some (record { address = 65536 + 16384 * fd + offset; object = fd }) ≡ some p
    → p.address ≢ 0
not_at_zero fd offset p e = ground arith

-- No report is made.
no_report :
    (f : String → Held → Errno → Held × Errno) (msg : String) (k : Held) (e : Errno)
    → none ≡ some f
    → (f msg k e).0 ≡ k
no_report f msg k e q = absurd (ground arith)

abbrev counted : Accounts counting plain
counted = record {
  count = λ h. h;
  calls = λ c w. refl;
  opens = λ name create w. refl;
  maps = λ hint len mode fd offset w. refl;
  not_null = λ len mode fd offset w p e. not_at_zero fd offset p e;
  reports = no_report;
  allocates = λ size k e. refl;
  frees = λ p k e. refl;
}

header_mapped : MapsHeaders counting
header_mapped fd w = (record { address = 65536 + 16384 * fd + 0; object = fd }, refl)

linux-Fits : Fits linux
linux-Fits = record { some_size = omega arith; fits = omega arith }

-- Three descriptors and ten mappings are held, and no block has been created. The list in a new
-- object has room for the claims that `claim_list_init` counts on.
abbrev lone_world : World Held
lone_world = record {
  kernel = held 3 10;
  errno = Errno.ok;
  headers = λ o. record fresh_header { block_size = 8192 };
  lists = λ o. record full_list { count = 0; capacity = 99; claims = replicate 99 unused };
}

memory_create_balances_example :
    (res : IpmResult) × (made : Option (IpmMemory Held)) × (last : World Held) × (ipm_memory_create
        counting linux plain 5000 name read_write lone_world
      ≡ done ((res, made), last))
    × (now counting plain counted last ≡ if_some made with_handle (held 3 10))
    × (knows_both res made ≡ true)
unfolding has_slash
memory_create_balances_example =
    memory_create_balances counting plain counted header_mapped linux linux-Fits name (omega arith)
      (held 3 10) 5000 read_write lone_world (omega arith) (omega arith) refl refl

-- The same with blocks that another handle created, under another name.
abbrev foreign_world : World Held
foreign_world = record lone_world {
  headers = λ o. record fresh_header { refcount = 1; block_size = 8192; block_name = b'n' ∷ [] };
}

-- A yield lets every creator finish.
abbrev yielding_call : Call → World Held → Errno × World Held
yielding_call Call.sched_yield w =
    (Errno.ok, record w { headers = λ o. record (w.headers o) { refcount = 1 } })
yielding_call c w = (Errno.ok, record w { kernel = after_call c w.kernel })

abbrev yielding : Posix Held
yielding = record counting { call = yielding_call }

yields_held : (c : Call) (w : World Held) → (yielding_call c w).1.kernel ≡ after_call c w.kernel
yields_held Call.sched_yield w = refl
yields_held c w = ground arith

abbrev yielded : Accounts yielding plain
yielded = record {
  count = λ h. h;
  calls = yields_held;
  opens = λ name create w. refl;
  maps = λ hint len mode fd offset w. refl;
  not_null = λ len mode fd offset w p e. not_at_zero fd offset p e;
  reports = no_report;
  allocates = λ size k e. refl;
  frees = λ p k e. refl;
}

abbrev page_block : ℕ → ℕ → SharedMemoryBlock
page_block object size = record {
  access_id = 1;
  size = size;
  header = record { address = 65536 + 16384 * object; object = object };
  memory = some (record { address = 69632 + 16384 * object; object = object });
  has_ownership = false;
  access_mode = read_write;
  mem_fd = object;
}

abbrev made_handle : IpmMemory Held
made_handle = record {
  address = 64;
  ctx = plain;
  block_name = name;
  real_memory = page_block 1 8192;
  active_claims = page_block 2 4096;
}

abbrev made_world : World Held
made_world =
    world_after (ipm_memory_create counting linux plain 5000 name read_write lone_world) lone_world

-- No claim is live.
made-Closable : Closable counting 1 2 made_world
unfolding has_slash ipm_memory_create ipm_mutex_lock claim_list_init ipm_mutex_init
    ipm_condition_init ipm_alloc_real ipm_free make_block_name_based_on_id
    shared_memory_block_create
made-Closable = record {
  locked = made_world;
  locks = refl;
  valid = record { slots = refl; within = omega arith; small = omega arith };
  room = omega arith;
  ids = λ i j c d li lj ec ed same. absurd (omega (arith, li));
  enough = omega arith;
}

-- Another handle has made the block of the handle's memory a page longer.
abbrev grown_world : World Held
grown_world = record lone_world {
  kernel = held 5 14;
  headers = λ o. record fresh_header { refcount = 2; block_size = 12288 };
}

abbrev synced_block : SharedMemoryBlock
synced_block = record (page_block 1 12288) { memory = none }

abbrev synced_world : World Held
synced_world = world_after (ipm_memory_sync counting made_handle grown_world) grown_world

-- The sync leaves the claim list as it is.
synced-Closable : Closable counting 1 2 synced_world
unfolding ipm_memory_sync shared_memory_block_update_mapping ipm_mutex_lock
synced-Closable = record {
  locked = synced_world;
  locks = refl;
  valid = record { slots = refl; within = omega arith; small = omega arith };
  room = omega arith;
  ids = λ i j c d li lj ec ed same. absurd (omega (arith, li));
  enough = omega arith;
}

synced_close_leaks_example :
    (last : World Held) × (ipm_memory_close counting 1
        (record made_handle { real_memory = synced_block })
        synced_world
      ≡ done (tt, last))
    × (now counting plain counted last ≡ held 3 11)
unfolding ipm_memory_sync shared_memory_block_update_mapping
synced_close_leaks_example =
    synced_close_leaks counting made_handle counted synced_block grown_world synced_world 1
      (record { address = 102400; object = 2 }) (held 3 10) refl refl (omega arith) refl refl
      synced-Closable
