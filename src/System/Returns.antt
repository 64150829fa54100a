-- ===== src/System/Returns.antt =====
-- Whether a computation returns: it is not stopped by an assert, does not touch memory out of bounds
-- and does not wait for ever.
use ipm.Base.{Bool, true, false, ◌≡◌, refl, arith}
use ipm.System.{World, Outcome, done, aborted, fault, blocked, M, ◌>>=◌}

abbrev pub returns : {A : Type 0} → Outcome A → Bool
returns (done r) = true
returns _ = false

pub returns-done : {A : Type 0} (out : Outcome A) → returns out ≡ true → (r : A) × (out ≡ done r)
returns-done (done r) e = (r, refl)
returns-done aborted e = absurd (ground arith)
returns-done fault e = absurd (ground arith)
returns-done blocked e = absurd (ground arith)

-- A sequence returns if its first step does, and then the rest.
pub returns-bind :
    {K A B : Type 0} (m : M K A) (f : A → M K B) (w : World K)
    → returns (m w) ≡ true
    → ((a : A) (v : World K) → m w ≡ done (a, v) → returns (f a v) ≡ true)
    → returns ((m >>= f) w) ≡ true
returns-bind {K} {A} {B} m f w first rest = split (m w) refl
  where
    split : (out : Outcome (A × World K)) → m w ≡ out → returns ((m >>= f) w) ≡ true
    split (done (a, v)) q = ground (arith, q, rest a v q)
    split aborted q = absurd (ground (arith, q, first))
    split fault q = absurd (ground (arith, q, first))
    split blocked q = absurd (ground (arith, q, first))
