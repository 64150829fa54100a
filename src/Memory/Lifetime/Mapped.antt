-- ===== src/Memory/Lifetime/Mapped.antt =====
-- What a successful `ipm_memory_create` maps (source/ipm_memory.c).
use ipm.Base.{ℕ, ◌≡◌, inl, inr, String, ◌≢◌, List, ◌∷◌, none, some, arith, Bool-cases, Option-cases}
use ipm.Error.{IpmResult}
use ipm.Layout.{AccessMode, Ptr, SharedMemoryBlock, read_write, page_size}
use ipm.System.{Arg, Mutex, World, Posix, done, M, pure, ◌>>=◌}
use ipm.System.Inversion.{bind-Stepped}
use ipm.Platform.{ipm_mutex_init}
use ipm.Platform.Still.{mutex_init_still, condition_init_still}
use ipm.Common.{Context, ipm_alloc_real, ipm_report_error}
use ipm.Common.Kept.{Kept, alloc_kept}
use ipm.Common.Mappings.{Mappings, mapped, mappings_still}
use ipm.Claim.{is_success, claim_list_init}
use ipm.SharedMemory.Create.{shared_memory_block_create}
use ipm.SharedMemory.Create.Mapped.{block_create-BothAdded}
use ipm.Memory.{IpmMemory, real_memory_id, active_claims_id, pointed, reason, round_size}
use ipm.Memory.Lifetime.{
  Abi, free_handle, give_up, undo_block, undo_list, create_real, create_list, create_blocks,
  claim_size, real_claim_capacity, ipm_memory_create,
}

-- The entries of a block.
abbrev pub with_block_mapped : SharedMemoryBlock → Ptr → List (Ptr × ℕ) → List (Ptr × ℕ)
with_block_mapped b memory table = (b.header, page_size) ∷ (memory, b.size) ∷ table

module _ {K : Type 0} (os : Posix K) (context : Context K) (t : Mappings os) (name : List ℕ)
    (abi : Abi) (memory : IpmMemory K) (res : IpmResult) (last : World K) where
  -- From `w`, the mappings of the handle's two blocks were added, the claims' first.
  abbrev pub HandleAdded : World K → Type 0
  HandleAdded w =
      (real claims : Ptr) × (memory.real_memory.memory ≡ some real)
      × (memory.active_claims.memory ≡ some claims)
      × (mapped os t last
          ≡ with_block_mapped memory.real_memory real
              (with_block_mapped memory.active_claims claims (mapped os t w)))

  list_init_mapped :
      (o capacity : ℕ) (r : IpmResult) (w u : World K)
      → claim_list_init os o capacity w ≡ done (r, u)
      → mapped os t u ≡ mapped os t w
  unfolding claim_list_init
  list_init_mapped o capacity r w u e =
      let v = (ipm_mutex_init os (Mutex.list_mutex o) w).1 in
      ground (
        arith,
        mutex_init_still os (mapped os t) (mappings_still os t) (Mutex.list_mutex o) w,
        condition_init_still os (mapped os t) (mappings_still os t) o v,
      )

  module _ (this size : ℕ) (access : AccessMode) where
    -- The claims' block is made, and its mappings are there.
    RealAdded : SharedMemoryBlock → World K → Type 0
    RealAdded claims w =
        (memory.active_claims ≡ claims)
        × (real : Ptr) × (memory.real_memory.memory ≡ some real)
        × (mapped os t last ≡ with_block_mapped memory.real_memory real (mapped os t w))

    gave_up :
        (msg : String) (undo : M K (Unit {0})) (failure : IpmResult) (w : World K)
        → give_up os context this name msg undo failure w ≢ done ((res, some memory), last)
    unfolding give_up
    gave_up msg undo failure w e =
        let reported = ipm_report_error os context msg (Arg.bytes name ∷ reason failure) w in
        let s =
          bind-Stepped undo
            (λ (_ : Unit {0}).
              free_handle os context this >>= λ (_ : Unit {0}). pure (failure, none))
            reported ((res, some memory), last) e in
        absurd (ground (arith, s.rest))

    create_real-RealAdded :
        (claims : SharedMemoryBlock) (w : World K)
        → create_real os abi context this name claims size access w
          ≡ done ((res, some memory), last)
        → RealAdded claims w
    unfolding create_real RealAdded
    create_real-RealAdded claims w e =
        let out = shared_memory_block_create os context name real_memory_id size access in
        let s = bind-Stepped out _ w ((res, some memory), last) e in
        elim (Bool-cases (is_success s.value.0)) [
          | inr bad ↦ absurd (
              gave_up "Could not create the shared memory block %s, reason: %s (%s)"
                (undo_list os context claims) s.value.0 s.between (ground (arith, bad, s.rest)))
          | inl good ↦ elim (Option-cases s.value.1) [
            | inl missing ↦ absurd (ground (arith, good, missing, s.rest))
            | inr (real, at) ↦
                let (m, knows, added) =
                  block_create-BothAdded os context t name real_memory_id access real s.between size
                    w (ground (arith, s.first, at, good)) in
                (
                  ground (arith, good, at, s.rest),
                  m,
                  ground (arith, good, at, s.rest, knows),
                  ground (arith, good, at, s.rest, added),
                )
          ]
        ]

    create_list-RealAdded :
        (claims : SharedMemoryBlock) (w : World K)
        → create_list os abi context this name claims size access w
          ≡ done ((res, some memory), last)
        → RealAdded claims w
    unfolding create_list RealAdded
    create_list-RealAdded claims w e =
        let p = bind-Stepped (pointed claims.memory) _ w ((res, some memory), last) e in
        let s =
          bind-Stepped (claim_list_init os p.value (real_claim_capacity abi)) _ p.between
            ((res, some memory), last) p.rest in
        let same =
          list_init_mapped p.value (real_claim_capacity abi) s.value p.between s.between s.first in
        elim (Bool-cases (is_success s.value)) [
          | inr bad ↦ absurd (
              gave_up
                "Could not initialize the claims list for the memory block %s, reason: %s (%s)"
                (undo_block os context claims) s.value s.between (ground (arith, bad, s.rest)))
          | inl good ↦
              let (its, real, knows, added) =
                create_real-RealAdded claims s.between (ground (arith, good, s.rest)) in
              (its, real, knows, ground (arith, added, same, p.first))
        ]

    create_blocks-HandleAdded :
        (w : World K)
        → create_blocks os abi context this name size access w ≡ done ((res, some memory), last)
        → HandleAdded w
    unfolding create_blocks RealAdded
    create_blocks-HandleAdded w e =
        let out =
          shared_memory_block_create os context name active_claims_id (claim_size abi) read_write in
        let s = bind-Stepped out _ w ((res, some memory), last) e in
        elim (Bool-cases (is_success s.value.0)) [
          | inr bad ↦ absurd (
              gave_up "Could not create the shared memory block claim list %s, reason: %s (%s)"
                (pure tt) s.value.0 s.between (ground (arith, bad, s.rest)))
          | inl good ↦ elim (Option-cases s.value.1) [
            | inl missing ↦ absurd (ground (arith, good, missing, s.rest))
            | inr (claims, at) ↦
                let (m, claims_at, first) =
                  block_create-BothAdded os context t name active_claims_id read_write claims
                    s.between (claim_size abi) w (ground (arith, s.first, at, good)) in
                let (its, real, knows, added) =
                  create_list-RealAdded claims s.between (ground (arith, good, at, s.rest)) in
                (real, m, knows, ground (arith, its, claims_at), ground (arith, added, first, its))
          ]
        ]

  pub memory_create-HandleAdded :
      (kept : Kept context t.table) (size : ℕ) (access : AccessMode) (w : World K)
      → ipm_memory_create os abi context size name access w ≡ done ((res, some memory), last)
      → HandleAdded w
  unfolding ipm_memory_create
  memory_create-HandleAdded kept size access w e =
      let out = ipm_alloc_real os context abi.sizeof_memory w in
      let same = alloc_kept os context t.table kept abi.sizeof_memory w in
      elim (Option-cases out.0) [
        | inl full ↦ absurd (ground (arith, full))
        | inr (this, at) ↦
            let (real, claims, knows, claims_at, added) =
              create_blocks-HandleAdded this (round_size size) access out.1
                (ground (arith, at, e)) in
            (real, claims, knows, claims_at, ground (arith, added, same))
      ]
