-- ===== src/Memory/Lifetime/Destroying.antt =====
-- The callback of `ipm_memory_close` (source/ipm_memory.c), as the close of a block meets it.
use ipm.Base.{ℕ, ◌≡◌, true, some, arith}
use ipm.System.{Mutex, Call, World, Posix, done}
use ipm.System.Inversion.{bind-Stepped}
use ipm.Platform.{ipm_mutex_destroy}
use ipm.Platform.Still.{synchronizes, mutex_destroy_still, condition_destroy_still}
use ipm.Platform.Undisturbed.{Undisturbed, headers_of}
use ipm.Common.Unlinks.{Unlinks, unlinked, unlinks_still, Quiet}
use ipm.Common.Mappings.{Mappings, mapped, mappings_still, Spares}
use ipm.Claim.{claim_list_uninit}
use ipm.Memory.{IpmMemory, pointed}
use ipm.Memory.Lifetime.{claim_list_dtor_wrapper}

module _ {K B : Type 0} (os : Posix K) (f : World K → B)
    (still : (c : Call) (w : World K) → synchronizes c ≡ true → f (os.call c w).1 ≡ f w) where
  uninit_still : (o : ℕ) (w v : World K) → claim_list_uninit os o w ≡ done (tt, v) → f v ≡ f w
  unfolding claim_list_uninit
  uninit_still o w v e =
      let mtx = Mutex.list_mutex o in
      let w1 = (ipm_mutex_destroy os mtx w).1 in
      ground
        (arith, e, condition_destroy_still os f still o w1, mutex_destroy_still os f still mtx w)

  pub dtor_still :
      (memory : IpmMemory K) (w v : World K)
      → claim_list_dtor_wrapper os memory w ≡ done (tt, v)
      → f v ≡ f w
  unfolding claim_list_dtor_wrapper
  dtor_still memory w v e =
      let p = bind-Stepped (pointed memory.active_claims.memory) _ w (tt, v) e in
      let same = uninit_still p.value p.between v p.rest in ground (arith, p.first, same)

module _ {K : Type 0} (os : Posix K) (calm : Undisturbed os) (memory : IpmMemory K) where
  headers_still :
      (w v : World K) → claim_list_dtor_wrapper os memory w ≡ done (tt, v) → v.headers ≡ w.headers
  headers_still = dtor_still os headers_of (λ c w s. calm.calls c w) memory

  -- The callback leaves the headers, and unlinks no name.
  pub claim_list_dtor_wrapper-Quiet :
      (u : Unlinks os) → Quiet os u (some (claim_list_dtor_wrapper os memory))
  claim_list_dtor_wrapper-Quiet u w v e =
      (headers_still w v e, dtor_still os (unlinked os u) (unlinks_still os u) memory w v e)

  -- It leaves the headers and the mappings.
  pub claim_list_dtor_wrapper-Spares :
      (t : Mappings os) → Spares os t (some (claim_list_dtor_wrapper os memory))
  claim_list_dtor_wrapper-Spares t w v e =
      (headers_still w v e, dtor_still os (mapped os t) (mappings_still os t) memory w v e)
