-- ===== src/Memory/Lifetime/Leaving.antt =====
-- `ipm_memory_close` returns, and what it holds then (source/ipm_memory.c).
use ipm.Base.{ℕ, ◌<◌, ◌≡◌, true, false, none, some, arith, refl}
use ipm.Error.{IpmResult}
use ipm.Layout.{Ptr}
use ipm.System.{Mutex, World, Posix, done}
use ipm.System.Returns.{returns, returns-done, returns-bind}
use ipm.Platform.{ipm_mutex_lock}
use ipm.Common.Accounts.{Held, Accounts, now}
use ipm.Claim.{claim_list_uninit}
use ipm.Claim.Valid.{IsValid}
use ipm.SharedMemory.Mapping.{is_mapped}
use ipm.SharedMemory.Close.{shared_memory_block_close, shared_memory_block_clean}
use ipm.SharedMemory.Close.Returning.{close_returns, clean_returns}
use ipm.Memory.{IpmMemory}
use ipm.Memory.Region.{ipm_memory_release_all}
use ipm.Memory.Region.Scanning.{IdsIdentify}
use ipm.Memory.Region.Releasing.{release_all_clears}
use ipm.Memory.Lifetime.{claim_list_dtor_wrapper, ipm_memory_close, ipm_memory_clean}
use ipm.Memory.Lifetime.Balance.{with_handle}
use ipm.Memory.Lifetime.Closing.{memory_close_balances, memory_clean_balances}

module _ {K : Type 0} (os : Posix K) (memory : IpmMemory K) (a : Accounts os memory.ctx) where
  dtor_returns :
      (p : Ptr) (w : World K)
      → memory.active_claims.memory ≡ some p
      → returns (claim_list_dtor_wrapper os memory w) ≡ true
  unfolding claim_list_dtor_wrapper claim_list_uninit
  dtor_returns p w at = ground (arith, at)

  pub close_returns_after :
      (fuel : ℕ) (p : Ptr) (w : World K)
      → memory.active_claims.memory ≡ some p
      → memory.active_claims.has_ownership ≡ false
      → memory.real_memory.has_ownership ≡ false
      → returns (ipm_memory_release_all os fuel memory w) ≡ true
      → returns (ipm_memory_close os fuel memory w) ≡ true
  unfolding ipm_memory_close
  close_returns_after fuel p w at claims_free real_free releases =
      returns-bind (ipm_memory_release_all os fuel memory) _ w releases λ r v e.
        returns-bind
          (shared_memory_block_close os memory.ctx memory.active_claims
            (some (claim_list_dtor_wrapper os memory)))
          _ v
          (close_returns os memory.active_claims memory.ctx
            (some (claim_list_dtor_wrapper os memory)) v (λ u. dtor_returns p u at) claims_free)
          λ s u q.
            returns-bind (shared_memory_block_close os memory.ctx memory.real_memory none) _ u
              (close_returns os memory.real_memory memory.ctx none u tt real_free) λ t x z. refl

  -- `ipm_memory_close` ends and gives everything back: for a handle that knows where its memory and
  -- its claims are and has not taken a block for itself, if the lock succeeds on a valid list that is
  -- not full, in which live claims with one id are of one handle, then with more fuel than there are
  -- claims the call returns, and of what the process held with the handle, two descriptors and four
  -- mappings are gone.
  pub memory_close_ends :
      (fuel : ℕ) (p : Ptr) (h : Held) (w locked : World K)
      → memory.active_claims.memory ≡ some p
      → is_mapped memory.real_memory.memory ≡ true
      → memory.active_claims.has_ownership ≡ false
      → memory.real_memory.has_ownership ≡ false
      → ipm_mutex_lock os (Mutex.list_mutex p.object) w ≡ (IpmResult.success, locked)
      → IsValid (locked.lists p.object)
      → (locked.lists p.object).count < (locked.lists p.object).capacity
      → IdsIdentify (locked.lists p.object)
      → (locked.lists p.object).count < fuel
      → now os memory.ctx a w ≡ with_handle h
      → (last : World K) × (ipm_memory_close os fuel memory w ≡ done (tt, last))
        × (now os memory.ctx a last ≡ h)
  memory_close_ends fuel p h w locked at real claims_free real_free locks v room ids enough start =
      let (_, released, _) =
        release_all_clears os memory fuel p w locked at locks v room ids enough in
      let ((_, last), closes) =
        returns-done (ipm_memory_close os fuel memory w)
          (close_returns_after fuel p w at claims_free real_free (ground (arith, released))) in
      (
        last,
        closes,
        memory_close_balances os memory a w last h fuel real (ground (arith, at)) start closes,
      )

  -- So does `ipm_memory_clean`, whatever the claim list holds.
  memory_clean_ends :
      (h : Held) (w : World K)
      → is_mapped memory.real_memory.memory ≡ true
      → is_mapped memory.active_claims.memory ≡ true
      → memory.active_claims.has_ownership ≡ false
      → memory.real_memory.has_ownership ≡ false
      → now os memory.ctx a w ≡ with_handle h
      → (last : World K) × (ipm_memory_clean os memory w ≡ done (tt, last))
        × (now os memory.ctx a last ≡ h)
  unfolding ipm_memory_clean
  memory_clean_ends h w real claims claims_free real_free start =
      let ends =
        returns-bind (shared_memory_block_clean os memory.active_claims) _ w
          (clean_returns os memory.active_claims w claims_free)
          λ r v e.
            returns-bind (shared_memory_block_clean os memory.real_memory) _ v
              (clean_returns os memory.real_memory v real_free) λ s u q. refl in
      let ((_, last), cleans) = returns-done (ipm_memory_clean os memory w) ends in
      (last, cleans, memory_clean_balances os memory a w last h real claims start cleans)
