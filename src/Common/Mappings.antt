-- ===== src/Common/Mappings.antt =====
-- The mappings that the process holds (source/shared_memory.c), each with its length: an address that
-- was mapped in one piece is given back by its whole length.
use mathlib.Core.List.{Perm}
use ipm.Base.{ℕ, ◌≡◌, Bool, true, false, List, ◌∷◌, Option, none, some, arith}
use ipm.Layout.{AccessMode, Ptr}
use ipm.System.{Call, World, Posix, M, done}
use ipm.Platform.Still.{synchronizes}

abbrev pub is_unmapping : Call → Bool
is_unmapping (Call.munmap (some p) len) = true
is_unmapping _ = false

abbrev pub with_mapping : Option Ptr → ℕ → List (Ptr × ℕ) → List (Ptr × ℕ)
with_mapping none len table = table
with_mapping (some p) len table = (p, len) ∷ table

-- What the documentation of the calls says: a successful `mmap` adds a mapping; `munmap` of a
-- mapping's address takes it away if the length is the mapping's too. Nothing is said of another
-- length.
pub record Mappings {K : Type 0} (os : Posix K) : Type 0 where
  pub table : K → List (Ptr × ℕ)
  pub maps :
      (hint : Option Ptr) (len : ℕ) (mode : AccessMode) (fd offset : ℕ) (w : World K)
      → table (os.mmap hint len mode fd offset w).1.kernel
        ≡ with_mapping (os.mmap hint len mode fd offset w).0 len (table w.kernel)
  pub unmaps :
      (p : Ptr) (len : ℕ) (rest : List (Ptr × ℕ)) (w : World K)
      → Perm (table w.kernel) ((p, len) ∷ rest)
      → Perm (table (os.call (Call.munmap (some p) len) w).1.kernel) rest
  pub others :
      (c : Call) (w : World K)
      → is_unmapping c ≡ false
      → table (os.call c w).1.kernel ≡ table w.kernel
  pub opens :
      (name : List ℕ) (create : Bool) (w : World K)
      → table (os.shm_open name create w).1.kernel ≡ table w.kernel

module _ {K : Type 0} (os : Posix K) (t : Mappings os) where
  abbrev pub mapped : World K → List (Ptr × ℕ)
  mapped w = t.table w.kernel

  pub mappings_still :
      (c : Call) (w : World K) → synchronizes c ≡ true → mapped (os.call c w).1 ≡ mapped w
  mappings_still c w s = t.others c w (ground (arith, s))

  -- A callback that, if it returns, leaves the headers and the mappings.
  abbrev pub Spares : Option (M K (Unit {0})) → Type 0
  Spares none = Unit
  Spares (some f) =
      (w v : World K) → f w ≡ done (tt, v) → (v.headers ≡ w.headers) × (mapped v ≡ mapped w)
