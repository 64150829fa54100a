-- ===== src/Common/Unlinks.antt =====
-- The names that `shm_unlink` was called with (source/shared_memory.c).
use ipm.Base.{ℕ, ◌≡◌, Bool, true, List, ◌∷◌, Option, none, some, arith}
use ipm.Layout.{AccessMode, Ptr}
use ipm.System.{Call, World, Posix, M, done}
use ipm.Platform.Still.{synchronizes}

abbrev pub after_unlink : Call → List (List ℕ) → List (List ℕ)
after_unlink (Call.shm_unlink name) names = name ∷ names
after_unlink _ names = names

-- The kernel's record of the calls, the last one first.
pub record Unlinks {K : Type 0} (os : Posix K) : Type 0 where
  pub log : K → List (List ℕ)
  pub calls : (c : Call) (w : World K) → log (os.call c w).1.kernel ≡ after_unlink c (log w.kernel)
  pub opens :
      (name : List ℕ) (create : Bool) (w : World K)
      → log (os.shm_open name create w).1.kernel ≡ log w.kernel
  pub maps :
      (hint : Option Ptr) (len : ℕ) (mode : AccessMode) (fd offset : ℕ) (w : World K)
      → log (os.mmap hint len mode fd offset w).1.kernel ≡ log w.kernel

module _ {K : Type 0} (os : Posix K) (u : Unlinks os) where
  abbrev pub unlinked : World K → List (List ℕ)
  unlinked w = u.log w.kernel

  pub unlinks_still :
      (c : Call) (w : World K) → synchronizes c ≡ true → unlinked (os.call c w).1 ≡ unlinked w
  unlinks_still c w s = ground (arith, u.calls c w)

  -- A callback that, if it returns, leaves the headers and unlinks no name.
  abbrev pub Quiet : Option (M K (Unit {0})) → Type 0
  Quiet none = Unit
  Quiet (some f) =
      (w v : World K) → f w ≡ done (tt, v) → (v.headers ≡ w.headers) × (unlinked v ≡ unlinked w)
