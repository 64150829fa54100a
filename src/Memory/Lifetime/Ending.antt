-- ===== src/Memory/Lifetime/Ending.antt =====
-- How `ipm_memory_create` and `ipm_memory_open` end.
use ipm.Base.{
  ℕ, String, ◌≡◌, ◌≢◌, ◌⊎◌, inl, inr, List, ◌∷◌, Option, none, some, arith, Bool-cases,
  Option-cases, refl,
}
use ipm.Error.{IpmResult}
use ipm.Layout.{AccessMode, SharedMemoryBlock, read_write}
use ipm.System.{World, Posix, done, M, ◌>>=◌, pure, Arg}
use ipm.System.Inversion.{bind-Stepped}
use ipm.Common.{Context, ipm_free, ipm_alloc_real, ipm_report_error}
use ipm.Claim.{is_success, claim_list_init}
use ipm.SharedMemory.Create.{shared_memory_block_create}
use ipm.SharedMemory.Open.{shared_memory_block_open}
use ipm.Memory.{IpmMemory, real_memory_id, active_claims_id, reason, pointed, round_size}
use ipm.Memory.Lifetime.{
  Abi, free_handle, give_up, handle_of, undo_block, undo_list, create_real, create_list,
  create_blocks, claim_size, real_claim_capacity, ipm_memory_create, ipm_memory_open, open_blocks,
  open_claims, open_blocks,
}

-- With success there is a handle, at the address that was allocated for it. With an error there is
-- none, and the last thing done was to free that memory.
abbrev pub Ended :
    {K : Type 0} → Posix K → Context K → ℕ → IpmResult → Option (IpmMemory K) → World K → Type 0
Ended {K = K} os context this res made last =
    ((res ≡ IpmResult.success)
      × ((memory : IpmMemory K) × (made ≡ some memory) × (memory.address ≡ this)))
    ⊎ ((res ≢ IpmResult.success)
        × (made ≡ none)
        × ((before : World K) × (last ≡ ipm_free os context (some this) before)))

module _ {K : Type 0} (os : Posix K) (context : Context K) (this : ℕ) (name : List ℕ)
    (res : IpmResult) (made : Option (IpmMemory K)) (last : World K) where
  give_up-Ended :
      (msg : String) (undo : M K (Unit {0})) (failure : IpmResult) (w : World K)
      → failure ≢ IpmResult.success
      → give_up os context this name msg undo failure w ≡ done ((res, made), last)
      → Ended os context this res made last
  unfolding give_up
  give_up-Ended msg undo failure w bad e =
      let reported = ipm_report_error os context msg (Arg.bytes name ∷ reason failure) w in
      let s =
        bind-Stepped undo
          (λ (_ : Unit {0}). free_handle os context this >>= λ (_ : Unit {0}). pure (failure, none))
          reported ((res, made), last) e in
      inr (ground (arith, s.rest, bad), ground (arith, s.rest), (s.between, ground (arith, s.rest)))

  module _ (abi : Abi) (size : ℕ) (access : AccessMode) where
    create_real-Ended :
        (claims : SharedMemoryBlock) (w : World K)
        → create_real os abi context this name claims size access w ≡ done ((res, made), last)
        → Ended os context this res made last
    unfolding create_real
    create_real-Ended claims w e =
        let out = shared_memory_block_create os context name real_memory_id size access in
        let s = bind-Stepped out _ w ((res, made), last) e in
        elim (Bool-cases (is_success s.value.0)) [
          | inr bad ↦
              give_up-Ended "Could not create the shared memory block %s, reason: %s (%s)"
                (undo_list os context claims) s.value.0 s.between (ground (arith, bad))
                (ground (arith, bad, s.rest))
          | inl good ↦ elim (Option-cases s.value.1) [
            | inl missing ↦ absurd (ground (arith, good, missing, s.rest))
            | inr (real, at) ↦ inl (
              ground (arith, good, at, s.rest),
              (handle_of os context this name real claims, ground (arith, good, at, s.rest), refl),
            )
          ]
        ]

    create_list-Ended :
        (claims : SharedMemoryBlock) (w : World K)
        → create_list os abi context this name claims size access w ≡ done ((res, made), last)
        → Ended os context this res made last
    unfolding create_list
    create_list-Ended claims w e =
        let p = bind-Stepped (pointed claims.memory) _ w ((res, made), last) e in
        let s =
          bind-Stepped (claim_list_init os p.value (real_claim_capacity abi)) _ p.between
            ((res, made), last) p.rest in
        elim (Bool-cases (is_success s.value)) [
          | inl good ↦ create_real-Ended claims s.between (ground (arith, good, s.rest))
          | inr bad ↦
              give_up-Ended
                "Could not initialize the claims list for the memory block %s, reason: %s (%s)"
                (undo_block os context claims) s.value s.between (ground (arith, bad))
                (ground (arith, bad, s.rest))
        ]

    create_blocks-Ended :
        (w : World K)
        → create_blocks os abi context this name size access w ≡ done ((res, made), last)
        → Ended os context this res made last
    unfolding create_blocks
    create_blocks-Ended w e =
        let out =
          shared_memory_block_create os context name active_claims_id (claim_size abi) read_write in
        let s = bind-Stepped out _ w ((res, made), last) e in
        elim (Bool-cases (is_success s.value.0)) [
          | inr bad ↦
              give_up-Ended
                "Could not create the shared memory block claim list %s, reason: %s (%s)" (pure tt)
                s.value.0 s.between (ground (arith, bad)) (ground (arith, bad, s.rest))
          | inl good ↦ elim (Option-cases s.value.1) [
            | inl missing ↦ absurd (ground (arith, good, missing, s.rest))
            | inr (claims, at) ↦
                create_list-Ended claims s.between (ground (arith, good, at, s.rest))
          ]
        ]

  open_claims-Ended :
      (fuel : ℕ) (real : SharedMemoryBlock) (w : World K)
      → open_claims os fuel context this name real w ≡ done ((res, made), last)
      → Ended os context this res made last
  unfolding open_claims
  open_claims-Ended fuel real w e =
      let out = shared_memory_block_open os context fuel name active_claims_id read_write in
      let s = bind-Stepped out _ w ((res, made), last) e in
      elim (Bool-cases (is_success s.value.0)) [
        | inr bad ↦
            give_up-Ended "Could not open the shared memory block claim list %s, reason: %s (%s)"
              (undo_block os context real) s.value.0 s.between (ground (arith, bad))
              (ground (arith, bad, s.rest))
        | inl good ↦ elim (Option-cases s.value.1) [
          | inl missing ↦ absurd (ground (arith, good, missing, s.rest))
          | inr (claims, at) ↦ inl (
            ground (arith, good, at, s.rest),
            (handle_of os context this name real claims, ground (arith, good, at, s.rest), refl),
          )
        ]
      ]

  open_blocks-Ended :
      (fuel : ℕ) (access : AccessMode) (w : World K)
      → open_blocks os fuel context this name access w ≡ done ((res, made), last)
      → Ended os context this res made last
  unfolding open_blocks
  open_blocks-Ended fuel access w e =
      let out = shared_memory_block_open os context fuel name real_memory_id access in
      let s = bind-Stepped out _ w ((res, made), last) e in
      elim (Bool-cases (is_success s.value.0)) [
        | inr bad ↦
            give_up-Ended "Could not open the shared memory block %s, reason: %s (%s)" (pure tt)
              s.value.0 s.between (ground (arith, bad)) (ground (arith, bad, s.rest))
        | inl good ↦ elim (Option-cases s.value.1) [
          | inl missing ↦ absurd (ground (arith, good, missing, s.rest))
          | inr (real, at) ↦
              open_claims-Ended fuel real s.between (ground (arith, good, at, s.rest))
        ]
      ]

  -- An `ipm_memory_create` that returns, after the handle's memory was allocated, ends in one of two
  -- ways: with success and a handle that lies there, or with an error, no handle, and that memory
  -- freed as the last thing.
  pub memory_create-Ended :
      (abi : Abi) (size : ℕ) (access : AccessMode) (w allocated : World K)
      → ipm_alloc_real os context abi.sizeof_memory w ≡ (some this, allocated)
      → ipm_memory_create os abi context size name access w ≡ done ((res, made), last)
      → Ended os context this res made last
  unfolding ipm_memory_create
  memory_create-Ended abi size access w allocated gives e =
      create_blocks-Ended abi (round_size size) access allocated (ground (arith, gives))

  -- An `ipm_memory_open` that returns, after the handle's memory was allocated, ends in one of two
  -- ways: with success and a handle that lies there, or with an error, no handle, and that memory
  -- freed as the last thing.
  pub memory_open-Ended :
      (fuel : ℕ) (abi : Abi) (access : AccessMode) (w allocated : World K)
      → ipm_alloc_real os context abi.sizeof_memory w ≡ (some this, allocated)
      → ipm_memory_open os fuel abi context name access w ≡ done ((res, made), last)
      → Ended os context this res made last
  unfolding ipm_memory_open
  memory_open-Ended fuel abi access w allocated gives e =
      open_blocks-Ended fuel access allocated (ground (arith, gives))
