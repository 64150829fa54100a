-- ===== src/Examples/Mappings.antt =====
-- A handle that is created and closed, on a system that keeps a table of its mappings
-- (source/ipm_memory.c).
use mathlib.Core.List.Perm
use mathlib.Core.List.{Perm, cons-perm_iff_perm-erase, erase}
use native.Mathlib.Decide.{ℕ_discrete}
use ipm.Base.{
  ℕ, ◌+◌, ◌*◌, false, ◌≡◌, ◌≢◌, String, List, [], ◌∷◌, none, replicate, some, arith, refl,
}
use ipm.Error.{IpmResult}
use ipm.Layout.{Ptr, SharedMemoryBlock, read_write}
use ipm.System.{Errno, Call, World, Posix, done, world_after}
use ipm.Platform.{ipm_mutex_lock, ipm_mutex_init, ipm_condition_init}
use ipm.Platform.Undisturbed.{Undisturbed}
use ipm.Common.{Context, ipm_alloc_real, ipm_free}
use ipm.Common.Kept.{Kept}
use ipm.Common.Accounts.{Held, held, with_fd, with_map, after_call, Accounts}
use ipm.Common.Mappings.{Mappings, is_unmapping}
use ipm.Claim.{claim_list_init}
use ipm.SharedMemory.{make_block_name_based_on_id}
use ipm.SharedMemory.Create.{shared_memory_block_create}
use ipm.Memory.{IpmMemory}
use ipm.Memory.Lifetime.{has_slash, ipm_memory_create, ipm_memory_close}
use ipm.Memory.Lifetime.RoundTrip.{Closable, close-create_balances}
use ipm.Examples.{unused, fresh_header, last_digit, full_list}
use ipm.Examples.Runs.{linux, name}

-- Two entries are the same.
same_entry : (x y : Ptr × ℕ) → Dec (x ≡ y)
same_entry (p, m) (q, n) = elim (ℕ_discrete p.address q.address) [
  | no d ↦ no (λ e. d (ground (arith, e)))
  | yes a ↦ elim (ℕ_discrete p.object q.object) [
    | no d ↦ no (λ e. d (ground (arith, e)))
    | yes o ↦ elim (ℕ_discrete m n) [
      | no d ↦ no (λ e. d (ground (arith, e)))
      | yes l ↦ yes (ground (arith, a, o, l))
    ]
  ]
]

abbrev table_after : Call → List (Ptr × ℕ) → List (Ptr × ℕ)
table_after (Call.munmap (some p) len) table = erase same_entry table (p, len)
table_after _ table = table

-- Every call succeeds; the kernel counts what is held, and has a table of the mappings.
abbrev charting : Posix (Held × List (Ptr × ℕ))
charting = record {
  ndebug = false;
  call =
      λ c w. (Errno.ok, record w { kernel = (after_call c w.kernel.0, table_after c w.kernel.1) });
  shm_open = λ name create w.
      (some (last_digit name), record w { kernel = (with_fd w.kernel.0, w.kernel.1) });
  mmap = λ hint len mode fd offset w. (
    some (record { address = 65536 + 16384 * fd + offset; object = fd }),
    record w {
      kernel = (
        with_map w.kernel.0,
        (record { address = 65536 + 16384 * fd + offset; object = fd }, len) ∷ w.kernel.1,
      );
    },
  );
  sem_getvalue = λ sem w. (some 1, w);
  strerror = λ e. "error";
  vsnprintf = λ format args. some format;
}

abbrev terse : Context (Held × List (Ptr × ℕ))
terse = record {
  report_callback = none;
  alloc_callback = λ size k e. (some 64, k, e);
  free_callback = λ p k e. (k, e);
}

no_report :
    {B : Type 0} (get : Held × List (Ptr × ℕ) → B)
    (f : String → Held × List (Ptr × ℕ) → Errno → (Held × List (Ptr × ℕ)) × Errno) (msg : String)
    (k : Held × List (Ptr × ℕ)) (e : Errno)
    → none ≡ some f
    → get (f msg k e).0 ≡ get k
no_report get f msg k e q = absurd (ground arith)

unmapped :
    (p : Ptr) (len : ℕ) (rest table : List (Ptr × ℕ))
    → Perm table ((p, len) ∷ rest)
    → Perm (erase same_entry table (p, len)) rest
unmapped p len rest table h =
    let there =
      (cons-perm_iff_perm-erase same_entry {a = (p, len)} {l₁ = rest} {l₂ = table}).0
        (Perm.symm h) in
    Perm.symm there.1

others_keep :
    (c : Call) (table : List (Ptr × ℕ)) → is_unmapping c ≡ false → table_after c table ≡ table
others_keep c table e = ground arith

abbrev charted : Mappings charting
charted = record {
  table = λ k. k.1;
  maps = λ hint len mode fd offset w. refl;
  unmaps = λ p len rest w h. unmapped p len rest w.kernel.1 h;
  others = λ c w e. others_keep c w.kernel.1 e;
  opens = λ name create w. refl;
}

charted-Kept : Kept terse charted.table
charted-Kept = record {
  reports = no_report (λ k. k.1);
  allocates = λ size k e. refl;
  frees = λ p k e. refl;
}

not_at_zero :
    (fd offset : ℕ) (p : Ptr)
    → some (record { address = 65536 + 16384 * fd + offset; object = fd }) ≡ some p
    → p.address ≢ 0
not_at_zero fd offset p e = ground arith

abbrev tallied : Accounts charting terse
tallied = record {
  count = λ k. k.0;
  calls = λ c w. refl;
  opens = λ name create w. refl;
  maps = λ hint len mode fd offset w. refl;
  not_null = λ len mode fd offset w p e. not_at_zero fd offset p e;
  reports = no_report (λ k. k.0);
  allocates = λ size k e. refl;
  frees = λ p k e. refl;
}

charting-Undisturbed : Undisturbed charting
charting-Undisturbed = record {
  calls = λ c w. refl;
  maps = λ hint size mode fd offset w. refl;
  opens = λ name create w. refl;
}

-- Three descriptors and a page are held.
abbrev old_page : Ptr × ℕ
old_page = (record { address = 32768; object = 9 }, 4096)

abbrev old_world : World (Held × List (Ptr × ℕ))
old_world = record {
  kernel = (held 3 1, old_page ∷ []);
  errno = Errno.ok;
  headers = λ o. fresh_header;
  lists = λ o. record full_list { count = 0; capacity = 99; claims = replicate 99 unused };
}

abbrev page_block : ℕ → ℕ → SharedMemoryBlock
page_block object size = record {
  access_id = 1;
  size = size;
  header = record { address = 65536 + 16384 * object; object = object };
  memory = some (record { address = 69632 + 16384 * object; object = object });
  has_ownership = false;
  access_mode = read_write;
  mem_fd = object;
}

abbrev made_handle : IpmMemory (Held × List (Ptr × ℕ))
made_handle = record {
  address = 64;
  ctx = terse;
  block_name = name;
  real_memory = page_block 1 8192;
  active_claims = page_block 2 4096;
}

abbrev made_world : World (Held × List (Ptr × ℕ))
made_world =
    world_after (ipm_memory_create charting linux terse 5000 name read_write old_world) old_world

-- Later the process has mapped a page more.
abbrev new_page : Ptr × ℕ
new_page = (record { address = 49152; object = 8 }, 4096)

abbrev later_world : World (Held × List (Ptr × ℕ))
later_world = record made_world { kernel = (made_world.kernel.0, new_page ∷ made_world.kernel.1) }

later-Closable : Closable charting 1 2 later_world
unfolding has_slash ipm_memory_create ipm_mutex_lock claim_list_init ipm_mutex_init
    ipm_condition_init ipm_alloc_real ipm_free make_block_name_based_on_id
    shared_memory_block_create
later-Closable = record {
  locked = later_world;
  locks = refl;
  valid = record { slots = refl; within = omega arith; small = omega arith };
  room = omega arith;
  ids = λ i j c d li lj ec ed same. absurd (omega (arith, li));
  enough = omega arith;
}

close-create_balances_example :
    (last : World (Held × List (Ptr × ℕ))) × (ipm_memory_close charting 1 made_handle later_world
      ≡ done (tt, last))
    × Perm last.kernel.1 (new_page ∷ old_page ∷ [])
    × ◌≡◌ {A = ℕ} last.kernel.0.fds 3
unfolding has_slash ipm_memory_create claim_list_init ipm_mutex_init ipm_condition_init
    ipm_alloc_real ipm_free make_block_name_based_on_id shared_memory_block_create
close-create_balances_example =
    close-create_balances charting made_handle tallied linux name read_write IpmResult.success
      (record { address = 102400; object = 2 }) old_world made_world 1 charting-Undisturbed charted
      charted-Kept 5000 0 (new_page ∷ []) later_world refl refl later-Closable
      (record { real = refl; claims = refl }) (Perm.refl later_world.kernel.1) refl
