-- ===== src/Memory/Region/Refusing.antt =====
-- Calls of `ipm_memory_claim_region` that make no claim, and those that should not.
use ipm.Base.{
  ℕ, ◌+◌, ◌^◌, ◌≤◌, ◌<◌, ◌≡◌, ◌⊎◌, true, false, String, not, ◌&&◌, [], ◌∷◌, Option, none, arith,
  if◌then◌else◌,
}
use ipm.Error.{IpmResult}
use ipm.Layout.{AccessMode, u64}
use ipm.System.{World, Posix, Arg, Outcome, done, world_after}
use ipm.Common.Local.{report_local}
use ipm.Claim.{is_read_only}
use ipm.Memory.{IpmMemory}
use ipm.Memory.Region.{ipm_memory_claim_region}
use ipm.Memory.Region.Claiming.{Permitted}

-- What a refusal leaves: the result, no claim id, and the shared memory as it was.
pub record Refused {K : Type 0} (res : IpmResult) (w : World K)
    (out : Outcome ((IpmResult × Option ℕ) × World K)) : Type 0 where
  pub last : World K
  pub returns : out ≡ done ((res, none), last)
  pub same_lists : last.lists ≡ w.lists
  pub same_headers : last.headers ≡ w.headers

module _ {K : Type 0} (os : Posix K) (memory : IpmMemory K) (access : AccessMode)
    (offset count : ℕ) where
  -- A claim that is not empty and not permitted is refused before the mutex is touched: with
  -- ERR_BAD_ACCESS for writing through a read-only handle, and else with ERR_BAD_VALUE for a region
  -- whose computed end lies beyond the handle's size. No id is given and the shared memory is left
  -- as it was.
  pub claim_region_refuses :
      (fuel : ℕ) (w : World K)
      → 0 < count
      → (is_read_only memory.real_memory.access_mode && not (is_read_only access) ≡ true)
        ⊎ (memory.real_memory.size < u64 (offset + count))
      → Refused
          (if is_read_only memory.real_memory.access_mode && not (is_read_only access)
            then IpmResult.err_bad_access
            else IpmResult.err_bad_value)
          w
          (ipm_memory_claim_region os fuel memory access offset count w)
  unfolding ipm_memory_claim_region
  claim_region_refuses fuel w some_bytes bad =
      let out = ipm_memory_claim_region os fuel memory access offset count w in
      let readonly : String =
        "Memory block was opened as read-only and can not be claimed for read only access" in
      let outside : String =
        "Memory block has the size of %zu, so region [%zu, %zu) can not be claimed" in
      let args =
        Arg.number memory.real_memory.size
        ∷ Arg.number offset
        ∷ Arg.number (u64 (offset + count))
        ∷ [] in
      record {
        last = world_after out w;
        returns = ground arith;
        same_lists = ground (
          arith,
          report_local os memory.ctx readonly [] w,
          report_local os memory.ctx outside args w,
        );
        same_headers = ground (
          arith,
          report_local os memory.ctx readonly [] w,
          report_local os memory.ctx outside args w,
        );
      }

  -- A region whose end wraps round to a place inside the block is permitted, though it lies
  -- outside the block.
  wrapping_region_permitted :
      is_read_only memory.real_memory.access_mode && not (is_read_only access) ≡ false
      → memory.real_memory.size < 2 ^ 64
      → 2 ^ 64 ≤ offset + count
      → offset + count ≤ 2 ^ 64 + memory.real_memory.size
      → Permitted os memory access offset count × (memory.real_memory.size < offset + count)
  wrapping_region_permitted mode size wraps back =
      (record { mode = mode; inside = omega arith }, omega arith)
