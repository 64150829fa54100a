-- ===== src/Memory/Lifetime/Closing.antt =====
-- What `ipm_memory_close` and `ipm_memory_clean` give back (source/ipm_memory.c).
use ipm.Base.{ℕ, ◌≡◌, true, none, some, arith, refl}
use ipm.System.{World, Posix, done}
use ipm.System.Inversion.{bind-Stepped}
use ipm.Platform.Still.{mutex_lock_still, mutex_unlock_still}
use ipm.Common.Accounts.{Held, Accounts, now, calls_still, report_held, free_held}
use ipm.SharedMemory.Mapping.{is_mapped}
use ipm.SharedMemory.Close.{shared_memory_block_close, shared_memory_block_clean}
use ipm.SharedMemory.Close.Balance.{block_close_held, block_clean_held, without_block}
use ipm.Memory.{IpmMemory, pointed}
use ipm.Memory.Region.{ipm_memory_release_all}
use ipm.Memory.Region.Still.{release_all_still}
use ipm.Memory.Lifetime.{claim_list_dtor_wrapper, ipm_memory_close, ipm_memory_clean}
use ipm.Memory.Lifetime.Balance.{with_handle, list_uninit_held}

module _ {K : Type 0} (os : Posix K) (memory : IpmMemory K) (a : Accounts os memory.ctx)
    (w last : World K) where
  dtor_held :
      (v u : World K)
      → claim_list_dtor_wrapper os memory v ≡ done (tt, u)
      → now os memory.ctx a u ≡ now os memory.ctx a v
  unfolding claim_list_dtor_wrapper
  dtor_held v u e =
      let p = bind-Stepped (pointed memory.active_claims.memory) _ v (tt, u) e in
      let same = list_uninit_held os memory.ctx a p.value p.between u p.rest in
      ground (arith, p.first, same)

  pub memory_close_held :
      (fuel : ℕ)
      → ipm_memory_close os fuel memory w ≡ done (tt, last)
      → now os memory.ctx a last
        ≡ without_block memory.real_memory
            (without_block memory.active_claims (now os memory.ctx a w))
  unfolding ipm_memory_close
  memory_close_held fuel e =
      let r = bind-Stepped (ipm_memory_release_all os fuel memory) _ w (tt, last) e in
      let count = now os memory.ctx a in
      let still = calls_still os memory.ctx a in
      let released =
        release_all_still os count memory (mutex_lock_still os count still)
          (mutex_unlock_still os count still) (λ o l v. refl) (report_held os memory.ctx a) fuel
          r.value w r.between r.first in
      let c =
        bind-Stepped
          (shared_memory_block_close os memory.ctx memory.active_claims
            (some (claim_list_dtor_wrapper os memory)))
          _ r.between (tt, last) r.rest in
      let d =
        bind-Stepped (shared_memory_block_close os memory.ctx memory.real_memory none) _ c.between
          (tt, last) c.rest in
      let freed = free_held os memory.ctx a (some memory.address) d.between in
      ground (
        arith,
        released,
        block_close_held os memory.ctx a memory.active_claims
            (some (claim_list_dtor_wrapper os memory)) c.value r.between c.between dtor_held
            c.first,
        block_close_held os memory.ctx a memory.real_memory none d.value c.between d.between tt
            d.first,
        d.rest,
        freed,
      )

  -- `ipm_memory_close` of a handle that knows where its memory and its claims are gives back the two
  -- descriptors and the four mappings of the handle, if it returns.
  pub memory_close_balances :
      (h : Held) (fuel : ℕ)
      → is_mapped memory.real_memory.memory ≡ true
      → is_mapped memory.active_claims.memory ≡ true
      → now os memory.ctx a w ≡ with_handle h
      → ipm_memory_close os fuel memory w ≡ done (tt, last)
      → now os memory.ctx a last ≡ h
  memory_close_balances h fuel real claims start e =
      ground (arith, start, real, claims, memory_close_held fuel e)

  -- So does `ipm_memory_clean`.
  pub memory_clean_balances :
      (h : Held)
      → is_mapped memory.real_memory.memory ≡ true
      → is_mapped memory.active_claims.memory ≡ true
      → now os memory.ctx a w ≡ with_handle h
      → ipm_memory_clean os memory w ≡ done (tt, last)
      → now os memory.ctx a last ≡ h
  unfolding ipm_memory_clean
  memory_clean_balances h real claims start e =
      let c = bind-Stepped (shared_memory_block_clean os memory.active_claims) _ w (tt, last) e in
      let d =
        bind-Stepped (shared_memory_block_clean os memory.real_memory) _ c.between (tt, last)
          c.rest in
      ground (
        arith,
        start,
        real,
        claims,
        block_clean_held os memory.ctx a memory.active_claims c.value w c.between c.first,
        block_clean_held os memory.ctx a memory.real_memory d.value c.between d.between d.first,
        d.rest,
        free_held os memory.ctx a (some memory.address) d.between,
      )
