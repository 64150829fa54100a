-- ===== src/Examples.antt =====
-- Concrete systems, lists, blocks and handles, for the runs and the examples of the children.
mod Claims
mod Regions
mod Calls
mod Handing
mod Blocks
mod Sharing
mod Runs
mod Accounts
mod Census
mod Mappings
mod Locking
mod Waking
mod Exclusive
use ipm.Base.{
  zero, suc, ◌<◌, ◌≤◌, ◌≡◌, get_elem?, ℕ, ◌+◌, ◌-◌, ◌*◌, refl, false, List, [], ◌∷◌, none, some,
  arith,
}
use ipm.Error.{IpmResult}
use ipm.Layout.{
  AccessMode, read_only, read_write, MemoryClaim, ClaimList, SharedMemoryHeader, Ptr,
  SharedMemoryBlock,
}
use ipm.System.{Errno, Call, World, Posix}
use ipm.Platform.Undisturbed.{Undisturbed}
use ipm.Common.{Context}
use ipm.Claim.Valid.{IsValid}
use ipm.Memory.{IpmMemory}

-- The number that a name ends in stands for its descriptor, and so for its object.
abbrev pub last_digit : List ℕ → ℕ
last_digit [] = 0
last_digit (b ∷ []) = b - b'0'
last_digit (b ∷ c ∷ bs) = last_digit (c ∷ bs)

-- Every call succeeds, and no other process runs.
abbrev pub quiet : Posix (Unit {0})
quiet = record {
  ndebug = false;
  call = λ c w. (Errno.ok, w);
  shm_open = λ name create w. (some (last_digit name), w);
  mmap = λ hint len mode fd offset w.
      (some (record { address = 65536 + 16384 * fd + offset; object = fd }), w);
  sem_getvalue = λ sem w. (some 1, w);
  strerror = λ e. "error";
  vsnprintf = λ format args. some format;
}

abbrev pub refusing : Call → Errno
refusing (Call.pthread_cond_init cnd) = Errno.eperm
refusing (Call.pthread_cond_wait cnd mtx) = Errno.einval
refusing _ = Errno.ok

-- The calls on condition variables fail and, as POSIX has it, leave `errno` alone.
abbrev pub failing : Posix (Unit {0})
failing = record quiet { call = λ c w. (refusing c, w) }

abbrev pub silent : Context (Unit {0})
silent = record {
  report_callback = none;
  alloc_callback = λ size k e. (some 64, k, e);
  free_callback = λ p k e. (k, e);
}

abbrev pub claim : ℕ → ℕ → ℕ → ℕ → MemoryClaim
claim claim_id proc_id offset size = record {
  claim_id = claim_id;
  proc_id = proc_id;
  access = read_only;
  offset = offset;
  size = size;
}

abbrev pub writer : ℕ → ℕ → ℕ → ℕ → MemoryClaim
writer claim_id proc_id offset size = record (claim claim_id proc_id offset size) {
  access = read_write;
}

abbrev pub unused : MemoryClaim
unused = claim 0 0 0 0

-- Two claims of the handles 10 and 11, in order, with two slots to spare.
abbrev pub two_claims : ClaimList
two_claims = record {
  count = 2;
  capacity = 4;
  claim_counter = 7;
  claims = claim 5 10 0 8 ∷ claim 6 11 16 8 ∷ unused ∷ unused ∷ [];
}

-- One slot to spare.
abbrev pub three_claims : ClaimList
three_claims = record {
  count = 3;
  capacity = 4;
  claim_counter = 8;
  claims = claim 5 10 0 8 ∷ claim 6 11 16 8 ∷ claim 7 10 20 8 ∷ unused ∷ [];
}

-- Two slots, both in use.
abbrev pub full_list : ClaimList
full_list = record {
  count = 2;
  capacity = 2;
  claim_counter = 7;
  claims = claim 5 10 0 8 ∷ claim 6 11 16 8 ∷ [];
}

pub quiet-Undisturbed : Undisturbed quiet
quiet-Undisturbed = record {
  calls = λ c w. refl;
  maps = λ hint size mode fd offset w. refl;
  opens = λ name create w. refl;
}

pub two_claims-IsValid : IsValid two_claims
two_claims-IsValid = record { slots = refl; within = omega arith; small = omega arith }

pub three_claims-IsValid : IsValid three_claims
three_claims-IsValid = record { slots = refl; within = omega arith; small = omega arith }

pub full_list-IsValid : IsValid full_list
full_list-IsValid = record { slots = refl; within = omega arith; small = omega arith }

abbrev pub fresh_header : SharedMemoryHeader
fresh_header = record {
  refcount = 0;
  block_size = 0;
  id_counter = 0;
  block_id = 0;
  block_name = [];
}

-- All objects hold these contents; the claims of the handles below are in object 2.
abbrev pub world_of : ClaimList → World (Unit {0})
world_of l = record {
  kernel = tt;
  errno = Errno.ok;
  headers = λ o. record fresh_header { refcount = 1; block_size = 8192; block_id = o };
  lists = λ o. l;
}

abbrev pub pointer : ℕ → Ptr
pointer object = record { address = 69632; object = object }

abbrev pub block_at : ℕ → SharedMemoryBlock
block_at object = record {
  access_id = 10;
  size = 4096;
  header = record { address = 65536; object = object };
  memory = some (pointer object);
  has_ownership = false;
  access_mode = read_only;
  mem_fd = object;
}

abbrev pub handle : IpmMemory (Unit {0})
handle = record {
  address = 64;
  ctx = silent;
  block_name = b'm' ∷ [];
  real_memory = block_at 1;
  active_claims = block_at 2;
}

-- Both live claims start at or before 16.
pub start_low :
    (i : ℕ) (c : MemoryClaim) → i < 2 → get_elem? two_claims.claims i ≡ some c → c.offset ≤ 24
start_low zero c lt e = ground arith
start_low (suc zero) c lt e = ground arith
start_low (suc (suc i)) c lt e = absurd (omega (arith, lt))
