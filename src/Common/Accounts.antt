-- ===== src/Common/Accounts.antt =====
-- How many descriptors the process holds, and how many mappings it has made and not unmapped, by the
-- calls that it made: the lengths of the mappings are the matter of Common/Mappings.antt. An error
-- report and an allocation (source/ipm_common.c) change neither.
use ipm.Base.{ℕ, ◌+◌, ◌-◌, ◌≡◌, ◌≢◌, Bool, true, String, List, Option, none, some, arith}
use ipm.Layout.{AccessMode, Ptr}
use ipm.System.{Errno, Call, Arg, World, Posix}
use ipm.Platform.Still.{synchronizes}
use ipm.Common.{Context, ipm_alloc_real, ipm_free, ipm_report_error}
use ipm.Common.Kept.{Kept, alloc_kept, free_kept, report_kept}

pub record Held : Type 0 where
  pub fds : ℕ
  pub maps : ℕ

abbrev pub held : ℕ → ℕ → Held
held fds maps = record { fds = fds; maps = maps }

abbrev pub with_fd : Held → Held
with_fd h = held (h.fds + 1) h.maps

abbrev pub with_map : Held → Held
with_map h = held h.fds (h.maps + 1)

-- `close` gives a descriptor back, `munmap` of an address counts for a mapping.
abbrev pub after_call : Call → Held → Held
after_call (Call.close fd) h = held (h.fds - 1) h.maps
after_call (Call.munmap (some p) len) h = held h.fds (h.maps - 1)
after_call _ h = h

abbrev pub if_some : {A : Type 0} → Option A → (Held → Held) → Held → Held
if_some none f h = h
if_some (some a) f h = f h

-- What the documentation of the calls says, and that the callbacks neither map nor open.
pub record Accounts {K : Type 0} (os : Posix K) (context : Context K) : Type 0 where
  pub count : K → Held
  pub calls :
      (c : Call) (w : World K) → count (os.call c w).1.kernel ≡ after_call c (count w.kernel)
  pub opens :
      (name : List ℕ) (create : Bool) (w : World K)
      → count (os.shm_open name create w).1.kernel
        ≡ if_some (os.shm_open name create w).0 with_fd (count w.kernel)
  pub maps :
      (hint : Option Ptr) (len : ℕ) (mode : AccessMode) (fd offset : ℕ) (w : World K)
      → count (os.mmap hint len mode fd offset w).1.kernel
        ≡ if_some (os.mmap hint len mode fd offset w).0 with_map (count w.kernel)
  pub not_null :
      (len : ℕ) (mode : AccessMode) (fd offset : ℕ) (w : World K) (p : Ptr)
      → (os.mmap none len mode fd offset w).0 ≡ some p
      → p.address ≢ 0
  pub reports :
      (f : String → K → Errno → K × Errno) (msg : String) (k : K) (e : Errno)
      → context.report_callback ≡ some f
      → count (f msg k e).0 ≡ count k
  pub allocates :
      (size : ℕ) (k : K) (e : Errno) → count (context.alloc_callback size k e).1 ≡ count k
  pub frees : (p : ℕ) (k : K) (e : Errno) → count (context.free_callback p k e).0 ≡ count k

module _ {K : Type 0} (os : Posix K) (context : Context K) (a : Accounts os context) where
  abbrev pub now : World K → Held
  now w = a.count w.kernel

  pub calls_still : (c : Call) (w : World K) → synchronizes c ≡ true → now (os.call c w).1 ≡ now w
  calls_still c w s = ground (arith, a.calls c w)

  abbrev kept : Kept context a.count
  kept = record { reports = a.reports; allocates = a.allocates; frees = a.frees }

  pub alloc_held : (size : ℕ) (w : World K) → now (ipm_alloc_real os context size w).1 ≡ now w
  alloc_held = alloc_kept os context a.count kept

  pub free_held : (p : Option ℕ) (w : World K) → now (ipm_free os context p w) ≡ now w
  free_held = free_kept os context a.count kept

  pub report_held :
      (msg : String) (args : List Arg) (w : World K)
      → now (ipm_report_error os context msg args w) ≡ now w
  report_held = report_kept os context a.count kept
