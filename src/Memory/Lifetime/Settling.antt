-- ===== src/Memory/Lifetime/Settling.antt =====
-- `ipm_memory_create` returns, and what it holds then.
use ipm.Base.{
  ℕ, ◌+◌, ◌*◌, ◌%◌, ◌^◌, ◌≡◌, ◌≤◌, ◌<◌, inl, inr, true, false, List, Option, arith, Option-cases,
  refl, length,
}
use ipm.Error.{IpmResult}
use ipm.Layout.{
  AccessMode, SharedMemoryBlock, read_write, default_claim_capacity, max_name_len, page_size, u64,
}
use ipm.System.{World, Posix, done, pure}
use ipm.System.Returns.{returns, returns-done, returns-bind}
use ipm.Common.{Context, ipm_alloc_real}
use ipm.Common.Accounts.{Held, if_some, Accounts, now}
use ipm.Claim.{claim_list_init}
use ipm.SharedMemory.Mapping.{is_mapped}
use ipm.SharedMemory.Create.{shared_memory_block_create}
use ipm.SharedMemory.Create.Balance.{block_create-Balanced}
use ipm.SharedMemory.Create.Returning.{MapsHeaders, create_returns}
use ipm.Memory.{IpmMemory, real_memory_id, active_claims_id, pointed, round_size}
use ipm.Memory.Sizes.{round_size_least}
use ipm.Memory.Lifetime.{
  Abi, undo_block, undo_list, create_real, create_list, create_blocks, claim_size, has_slash,
  real_claim_capacity, ipm_memory_create,
}
use ipm.Memory.Lifetime.Balance.{with_handle, knows_both}
use ipm.Memory.Lifetime.Undoing.{undo_block_returns, undo_list_returns, give_up_returns}
use ipm.Memory.Lifetime.Creating.{memory_create_held}

-- The claim list has a size, and its block one that a `size_t` holds.
pub record Fits (abi : Abi) : Type 0 where
  pub some_size : 0 < abi.sizeof_claim_list
  pub fits :
      abi.sizeof_claim_list + default_claim_capacity * abi.sizeof_memory_claim + page_size ≤ 2 ^ 64

claim_size_whole : (abi : Abi) → Fits abi → (0 < claim_size abi) × (claim_size abi % page_size ≡ 0)
unfolding claim_size
claim_size_whole abi f =
    let size = u64 (abi.sizeof_claim_list + default_claim_capacity * abi.sizeof_memory_claim) in
    let (above, _, whole) = round_size_least size (omega (arith, f.fits)) in
    (omega (arith, above, f.fits, f.some_size), whole)

module _ {K : Type 0} (os : Posix K) (context : Context K) (a : Accounts os context)
    (maps : MapsHeaders os) (abi : Abi) (f : Fits abi) (name : List ℕ)
    (short : length name ≤ max_name_len) where
  init_returns :
      (o : ℕ) (v : World K) → returns (claim_list_init os o (real_claim_capacity abi) v) ≡ true
  unfolding claim_list_init
  init_returns o v = ground arith

  module _ (this : ℕ) where
    module _ (size : ℕ) (access : AccessMode) (positive : 0 < size)
        (whole : size % page_size ≡ 0) where
      real_returns :
          (claims : SharedMemoryBlock) (w : World K)
          → is_mapped claims.memory ≡ true
          → claims.has_ownership ≡ false
          → returns (create_real os abi context this name claims size access w) ≡ true
      unfolding create_real
      real_returns claims w known free =
          let out = shared_memory_block_create os context name real_memory_id size access in
          returns-bind out _ w
            (create_returns os context maps name real_memory_id size access w whole positive short)
            λ r v e.
              let (_, sound) =
                block_create-Balanced os context a name real_memory_id size access r.0 r.1 v
                  (now os context a w) w refl e in
              let gives_up =
                give_up_returns os context this name
                  "Could not create the shared memory block %s, reason: %s (%s)"
                  (undo_list os context claims) r.0 v
                  (λ u. undo_list_returns os context claims u known free) in
              elim (Option-cases r.1) [
                | inl missing ↦ ground (arith, missing, sound, gives_up)
                | inr (real, at) ↦ ground (arith, at, sound)
              ]

      list_returns :
          (claims : SharedMemoryBlock) (w : World K)
          → is_mapped claims.memory ≡ true
          → claims.has_ownership ≡ false
          → returns (create_list os abi context this name claims size access w) ≡ true
      unfolding create_list
      list_returns claims w known free = elim (Option-cases claims.memory) [
        | inl missing ↦ absurd (ground (arith, known, missing))
        | inr (p, at) ↦ returns-bind (pointed claims.memory) _ w (ground (arith, at)) λ o v e.
            returns-bind (claim_list_init os o (real_claim_capacity abi)) _ v (init_returns o v)
              λ r u q.
                let gives_up =
                  give_up_returns os context this name
                    "Could not initialize the claims list for the memory block %s, reason: %s (%s)"
                    (undo_block os context claims) r u
                    (λ x. undo_block_returns os context claims x free) in
                ground (arith, gives_up, real_returns claims u known free)
      ]

      blocks_return :
          (w : World K) → returns (create_blocks os abi context this name size access w) ≡ true
      unfolding create_blocks
      blocks_return w =
          let out =
            shared_memory_block_create os context name active_claims_id (claim_size abi)
              read_write in
          let (some_bytes, pages) = claim_size_whole abi f in
          returns-bind out _ w
            (create_returns os context maps name active_claims_id (claim_size abi) read_write w
              pages some_bytes short)
            λ r v e.
              let (_, sound) =
                block_create-Balanced os context a name active_claims_id (claim_size abi) read_write
                  r.0 r.1 v (now os context a w) w refl e in
              let gives_up =
                give_up_returns os context this name
                  "Could not create the shared memory block claim list %s, reason: %s (%s)"
                  (pure tt) r.0 v (λ u. refl) in
              elim (Option-cases r.1) [
                | inl missing ↦ ground (arith, missing, sound, gives_up)
                | inr (claims, at) ↦ ground (
                  arith,
                  at,
                  sound,
                  list_returns claims v (ground (arith, at, sound)) (ground (arith, at, sound)),
                )
              ]

  create_returns_always :
      (size : ℕ) (access : AccessMode) (w : World K)
      → 0 < size
      → size + page_size ≤ 2 ^ 64
      → has_slash name ≡ false
      → returns (ipm_memory_create os abi context size name access w) ≡ true
  unfolding ipm_memory_create
  create_returns_always size access w positive fits plain =
      let (above, _, whole) = round_size_least size fits in
      let allocated = ipm_alloc_real os context abi.sizeof_memory w in
      elim (Option-cases allocated.0) [
        | inl failed ↦ ground (arith, failed)
        | inr (this, at) ↦ ground (
          arith,
          at,
          above,
          whole,
          blocks_return this (round_size size) access (omega (arith, above)) whole allocated.1,
        )
      ]

  -- `ipm_memory_create` returns whichever call fails, if a header's page can always be mapped, for
  -- any name without a slash that is short enough and any size but 0 and the last page of the
  -- address space. It then holds two descriptors and four mappings more than before when it returns a
  -- handle, which comes with success only, and as many as before when it returns none.
  pub memory_create_balances :
      (h : Held) (size : ℕ) (access : AccessMode) (w : World K)
      → 0 < size
      → size + page_size ≤ 2 ^ 64
      → has_slash name ≡ false
      → now os context a w ≡ h
      → (res : IpmResult) × (made : Option (IpmMemory K)) × (last : World K) × (ipm_memory_create os
            abi context size name access w
          ≡ done ((res, made), last))
        × (now os context a last ≡ if_some made with_handle h)
        × (knows_both res made ≡ true)
  memory_create_balances h size access w positive fits plain start =
      let (((res, made), last), runs) =
        returns-done (ipm_memory_create os abi context size name access w)
          (create_returns_always size access w positive fits plain) in
      let (holds, knows) =
        memory_create_held os context a name res made last h abi size access w start runs in
      (res, made, last, runs, holds, knows)
