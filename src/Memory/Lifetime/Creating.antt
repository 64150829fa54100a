-- ===== src/Memory/Lifetime/Creating.antt =====
-- What `ipm_memory_create` holds in the end.
use ipm.Base.{false, ℕ, ◌≡◌, inl, inr, true, List, Option, arith, Bool-cases, Option-cases}
use ipm.Error.{IpmResult}
use ipm.Layout.{AccessMode, SharedMemoryBlock, read_write}
use ipm.System.{World, Posix, done, pure}
use ipm.System.Inversion.{bind-Stepped}
use ipm.Common.{Context, ipm_alloc_real}
use ipm.Common.Accounts.{Held, if_some, Accounts, now, alloc_held}
use ipm.Claim.{is_success, claim_list_init}
use ipm.SharedMemory.Mapping.{is_mapped}
use ipm.SharedMemory.Create.{shared_memory_block_create}
use ipm.SharedMemory.Create.Balance.{with_block, block_create-Balanced}
use ipm.Memory.{IpmMemory, real_memory_id, active_claims_id, pointed, round_size}
use ipm.Memory.Lifetime.{
  Abi, undo_block, undo_list, create_real, create_list, create_blocks, claim_size,
  real_claim_capacity, ipm_memory_create,
}
use ipm.Memory.Lifetime.Balance.{
  with_handle, knows_both, Balanced, list_init_held, undo_block_held, undo_list_held,
  give_up-Balanced,
}

module _ {K : Type 0} (os : Posix K) (context : Context K) (a : Accounts os context) (name : List ℕ)
    (res : IpmResult) (made : Option (IpmMemory K)) (last : World K) (h : Held) where
  module _ (this : ℕ) where
    module _ (abi : Abi) (size : ℕ) (access : AccessMode) where
      create_real-Balanced :
          (claims : SharedMemoryBlock) (w : World K)
          → is_mapped claims.memory ≡ true
          → claims.has_ownership ≡ false
          → now os context a w ≡ with_block h
          → create_real os abi context this name claims size access w ≡ done ((res, made), last)
          → Balanced os context a this name res made last h
      unfolding create_real
      create_real-Balanced claims w known free start e =
          let out = shared_memory_block_create os context name real_memory_id size access in
          let s = bind-Stepped out _ w ((res, made), last) e in
          let (counted, sound) =
            block_create-Balanced os context a name real_memory_id size access s.value.0 s.value.1
              s.between (with_block h) w start s.first in
          elim (Bool-cases (is_success s.value.0)) [
            | inr bad ↦
                give_up-Balanced os context a this name res made last h
                  "Could not create the shared memory block %s, reason: %s (%s)"
                  (undo_list os context claims) s.value.0 (with_block h) s.between
                  (λ v u. undo_list_held os context a claims h v u known)
                  (ground (arith, bad, counted, sound)) (ground (arith, bad, s.rest))
            | inl good ↦ elim (Option-cases s.value.1) [
              | inl missing ↦ absurd (ground (arith, good, missing, s.rest))
              | inr (real, at) ↦ (
                ground (arith, good, at, s.rest, counted),
                ground (arith, good, at, s.rest, sound, known, free),
              )
            ]
          ]

      create_list-Balanced :
          (claims : SharedMemoryBlock) (w : World K)
          → is_mapped claims.memory ≡ true
          → claims.has_ownership ≡ false
          → now os context a w ≡ with_block h
          → create_list os abi context this name claims size access w ≡ done ((res, made), last)
          → Balanced os context a this name res made last h
      unfolding create_list
      create_list-Balanced claims w known free start e =
          let p = bind-Stepped (pointed claims.memory) _ w ((res, made), last) e in
          let s =
            bind-Stepped (claim_list_init os p.value (real_claim_capacity abi)) _ p.between
              ((res, made), last) p.rest in
          let same =
            list_init_held os context a p.value (real_claim_capacity abi) s.value p.between
              s.between s.first in
          let still : now os context a s.between ≡ with_block h =
            ground (arith, start, p.first, same) in
          elim (Bool-cases (is_success s.value)) [
            | inl good ↦
                create_real-Balanced claims s.between known free still
                  (ground (arith, good, s.rest))
            | inr bad ↦
                give_up-Balanced os context a this name res made last h
                  "Could not initialize the claims list for the memory block %s, reason: %s (%s)"
                  (undo_block os context claims) s.value (with_block h) s.between
                  (λ v u. undo_block_held os context a claims h v u known) still
                  (ground (arith, bad, s.rest))
          ]

      create_blocks-Balanced :
          (w : World K)
          → now os context a w ≡ h
          → create_blocks os abi context this name size access w ≡ done ((res, made), last)
          → Balanced os context a this name res made last h
      unfolding create_blocks
      create_blocks-Balanced w start e =
          let out =
            shared_memory_block_create os context name active_claims_id (claim_size abi)
              read_write in
          let s = bind-Stepped out _ w ((res, made), last) e in
          let (counted, sound) =
            block_create-Balanced os context a name active_claims_id (claim_size abi) read_write
              s.value.0 s.value.1 s.between h w start s.first in
          elim (Bool-cases (is_success s.value.0)) [
            | inr bad ↦
                give_up-Balanced os context a this name res made last h
                  "Could not create the shared memory block claim list %s, reason: %s (%s)"
                  (pure tt) s.value.0 h s.between (λ v u same q. ground (arith, same, q))
                  (ground (arith, bad, counted, sound)) (ground (arith, bad, s.rest))
            | inl good ↦ elim (Option-cases s.value.1) [
              | inl missing ↦ absurd (ground (arith, good, missing, s.rest))
              | inr (claims, at) ↦
                  create_list-Balanced claims s.between (ground (arith, sound, at))
                    (ground (arith, sound, at)) (ground (arith, counted, at))
                    (ground (arith, good, at, s.rest))
            ]
          ]

  -- `ipm_memory_create` that returns holds two descriptors and four mappings more than before when
  -- it returns a handle, and as many as before when it returns none, whichever step failed. A handle
  -- comes with success only.
  pub memory_create_held :
      (abi : Abi) (size : ℕ) (access : AccessMode) (w : World K)
      → now os context a w ≡ h
      → ipm_memory_create os abi context size name access w ≡ done ((res, made), last)
      → (now os context a last ≡ if_some made with_handle h) × (knows_both res made ≡ true)
  unfolding ipm_memory_create
  memory_create_held abi size access w start e =
      let allocated = ipm_alloc_real os context abi.sizeof_memory w in
      let same = alloc_held os context a abi.sizeof_memory w in
      elim (Option-cases allocated.0) [
        | inl failed ↦ (ground (arith, failed, start, same), ground (arith, failed))
        | inr (this, at) ↦
            create_blocks-Balanced this abi (round_size size) access allocated.1
              (ground (arith, start, same)) (ground (arith, at))
      ]
