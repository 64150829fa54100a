-- ===== src/Memory/Lifetime/Opening.antt =====
-- What `ipm_memory_open` holds in the end.
use ipm.Base.{false, ℕ, ◌≡◌, inl, inr, true, List, Option, arith, Bool-cases, Option-cases}
use ipm.Error.{IpmResult}
use ipm.Layout.{AccessMode, SharedMemoryBlock, read_write}
use ipm.System.{World, Posix, done, pure}
use ipm.System.Inversion.{bind-Stepped}
use ipm.Common.{Context, ipm_alloc_real}
use ipm.Common.Accounts.{Held, if_some, Accounts, now, alloc_held}
use ipm.Claim.{is_success}
use ipm.SharedMemory.Mapping.{is_mapped}
use ipm.SharedMemory.Create.Balance.{with_block}
use ipm.SharedMemory.Open.{shared_memory_block_open}
use ipm.SharedMemory.Open.Balance.{block_open-Balanced}
use ipm.Memory.{IpmMemory, real_memory_id, active_claims_id}
use ipm.Memory.Lifetime.{Abi, undo_block, ipm_memory_open, open_claims, open_blocks}
use ipm.Memory.Lifetime.Balance.{
  with_handle, knows_both, Balanced, undo_block_held, give_up-Balanced,
}

module _ {K : Type 0} (os : Posix K) (context : Context K) (a : Accounts os context) (name : List ℕ)
    (res : IpmResult) (made : Option (IpmMemory K)) (last : World K) (h : Held) where
  module _ (this : ℕ) where
    open_claims-Balanced :
        (fuel : ℕ) (real : SharedMemoryBlock) (w : World K)
        → is_mapped real.memory ≡ true
        → real.has_ownership ≡ false
        → now os context a w ≡ with_block h
        → open_claims os fuel context this name real w ≡ done ((res, made), last)
        → Balanced os context a this name res made last h
    unfolding open_claims
    open_claims-Balanced fuel real w known free start e =
        let out = shared_memory_block_open os context fuel name active_claims_id read_write in
        let s = bind-Stepped out _ w ((res, made), last) e in
        let (counted, sound) =
          block_open-Balanced os context a fuel name active_claims_id read_write s.value.0 s.value.1
            s.between (with_block h) w start s.first in
        elim (Bool-cases (is_success s.value.0)) [
          | inr bad ↦
              give_up-Balanced os context a this name res made last h
                "Could not open the shared memory block claim list %s, reason: %s (%s)"
                (undo_block os context real) s.value.0 (with_block h) s.between
                (λ v u. undo_block_held os context a real h v u known)
                (ground (arith, bad, counted, sound)) (ground (arith, bad, s.rest))
          | inl good ↦ elim (Option-cases s.value.1) [
            | inl missing ↦ absurd (ground (arith, good, missing, s.rest))
            | inr (claims, at) ↦ (
              ground (arith, good, at, s.rest, counted),
              ground (arith, good, at, s.rest, sound, known, free),
            )
          ]
        ]

    open_blocks-Balanced :
        (fuel : ℕ) (access : AccessMode) (w : World K)
        → now os context a w ≡ h
        → open_blocks os fuel context this name access w ≡ done ((res, made), last)
        → Balanced os context a this name res made last h
    unfolding open_blocks
    open_blocks-Balanced fuel access w start e =
        let out = shared_memory_block_open os context fuel name real_memory_id access in
        let s = bind-Stepped out _ w ((res, made), last) e in
        let (counted, sound) =
          block_open-Balanced os context a fuel name real_memory_id access s.value.0 s.value.1
            s.between h w start s.first in
        elim (Bool-cases (is_success s.value.0)) [
          | inr bad ↦
              give_up-Balanced os context a this name res made last h
                "Could not open the shared memory block %s, reason: %s (%s)" (pure tt) s.value.0 h
                s.between (λ v u same q. ground (arith, same, q))
                (ground (arith, bad, counted, sound)) (ground (arith, bad, s.rest))
          | inl good ↦ elim (Option-cases s.value.1) [
            | inl missing ↦ absurd (ground (arith, good, missing, s.rest))
            | inr (real, at) ↦
                open_claims-Balanced fuel real s.between (ground (arith, sound, at))
                  (ground (arith, sound, at)) (ground (arith, counted, at))
                  (ground (arith, good, at, s.rest))
          ]
        ]

  -- `ipm_memory_open` that returns holds two descriptors and four mappings more than before when it
  -- returns a handle, and as many as before when it returns none. A handle comes with success only.
  pub memory_open_held :
      (fuel : ℕ) (abi : Abi) (access : AccessMode) (w : World K)
      → now os context a w ≡ h
      → ipm_memory_open os fuel abi context name access w ≡ done ((res, made), last)
      → (now os context a last ≡ if_some made with_handle h) × (knows_both res made ≡ true)
  unfolding ipm_memory_open
  memory_open_held fuel abi access w start e =
      let allocated = ipm_alloc_real os context abi.sizeof_memory w in
      let same = alloc_held os context a abi.sizeof_memory w in
      elim (Option-cases allocated.0) [
        | inl failed ↦ (ground (arith, failed, start, same), ground (arith, failed))
        | inr (this, at) ↦
            open_blocks-Balanced this fuel access allocated.1 (ground (arith, start, same))
              (ground (arith, at))
      ]
