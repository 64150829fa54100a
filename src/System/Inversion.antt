-- ===== src/System/Inversion.antt =====
-- What a sequence of steps that returned did.
use ipm.Base.{◌≡◌, refl, arith}
use ipm.System.{World, Outcome, done, aborted, fault, blocked, M, ◌>>=◌}

module _ {K A B : Type 0} (m : M K A) (f : A → M K B) (w : World K) (r : B × World K) where
  -- It ran its first step, and the rest from there.
  pub record Stepped : Type 0 where
    pub value : A
    pub between : World K
    pub first : m w ≡ done (value, between)
    pub rest : f value between ≡ done r

  pub bind-Stepped : (m >>= f) w ≡ done r → Stepped
  bind-Stepped e = split (m w) refl
    where
      split : (out : Outcome (A × World K)) → m w ≡ out → Stepped
      split (done (a, v)) q = record {
        value = a;
        between = v;
        first = q;
        rest = ground (arith, q, e);
      }
      split aborted q = absurd (ground (arith, q, e))
      split fault q = absurd (ground (arith, q, e))
      split blocked q = absurd (ground (arith, q, e))
