-- ===== src/Memory/Region.antt =====
-- Claims on regions: `ipm_memory_claim_region`, `ipm_memory_release_region`,
-- `ipm_memory_release_all` and `ipm_memory_remove_all_active_claims`. An endless loop has fuel, one
-- unit to a round, and is `blocked` without it.
pub mod Waiting
pub mod Claiming
pub mod Refusing
pub mod Guarded
pub mod Still
pub mod Scanning
pub mod Releasing
pub mod Clearing
pub mod Peace
pub mod Obstacle
pub mod Handover
pub mod Alone
pub mod Unclaimed
pub mod LockedOut
pub mod Order
pub mod Steps
pub mod Calls
pub mod Exclusive
pub mod Locking
pub mod Waking
use ipm.Base.{
  ℕ, zero, suc, ◌+◌, ◌-◌, ◌^◌, Bool, true, false, not, ◌&&◌, List, [], ◌∷◌, ◌++◌, Option, none,
  some, ltb, ◌==◌, if◌then◌else◌, get_elem?,
}
use ipm.Error.{IpmResult}
use ipm.Layout.{AccessMode, MemoryClaim, ClaimList, Ptr, SharedMemoryBlock, u32, u64}
use ipm.System.{
  Mutex, Call, Arg, World, Posix, done, blocked, M, pure, ◌>>=◌, ◌>>◌, run, read, modify, checked,
  assert, set_list,
}
use ipm.Platform.{ipm_mutex_lock, ipm_mutex_unlock, ipm_condition_wait, ipm_condition_signal}
use ipm.Claim.{
  is_read_only, is_success, claims_conflict, scan, claim_add_to_list, claim_remove_from_list,
}
use ipm.SharedMemory.Mapping.{is_mapped}
use ipm.Memory.{IpmMemory, reason, report, pointed}

-- Whether a claim may join a list: nothing conflicts with it, and there is room.
unfoldable pub admits : MemoryClaim → ClaimList → Option Bool
unfolding scan
admits claim list = elim (scan (claims_conflict claim) list.claims list.count) [
  | none ↦ none
  | some i ↦ some ((i == list.count) && not (list.count == list.capacity))
]

-- `(int) list->count` as the bound of a loop from 0 on: a negative value is as good as 0.
abbrev pub int_bound : ℕ → ℕ
int_bound count = if ltb (u32 count) (2 ^ 31) then u32 count else 0

module _ {K : Type 0} (os : Posix K) where
  abbrev pub unlock_list : ℕ → M K (Unit {0})
  unlock_list o w = done (tt, (ipm_mutex_unlock os (Mutex.list_mutex o) w).1)

  -- The `for (;;)` of `ipm_memory_claim_region`: success, or the failure of a wait.
  pub await_turn : ℕ → MemoryClaim → ℕ → M K IpmResult
  unfolding admits
  await_turn zero claim o w = blocked
  await_turn (suc fuel) claim o w =
      let again : M K IpmResult = await_turn fuel claim o in
      (do
        list ← read (λ v. v.lists o)
        free ← checked (admits claim list)
        if free then pure IpmResult.success else (do
          res ← run (ipm_condition_wait os o (Mutex.list_mutex o))
          if is_success res then again else pure res))
        w

  -- The list's mutex is held. The option is what goes through `p_claim_id`.
  pub claim_locked : ℕ → IpmMemory K → AccessMode → ℕ → ℕ → ℕ → M K (IpmResult × Option ℕ)
  unfolding await_turn
  claim_locked fuel memory access offset count o = do
    list ← read (λ w. w.lists o)
    modify (set_list o (record list { claim_counter = u64 (list.claim_counter + 1) }))
    let claim : MemoryClaim = record {
      claim_id = list.claim_counter;
      proc_id = memory.real_memory.access_id;
      access = access;
      offset = offset;
      size = count;
    }
    waited ← await_turn fuel claim o
    if is_success waited
        then (do
          res ← claim_add_to_list os claim o
          unlock_list o
          (if is_success res
              then pure tt
              else report os memory.ctx "Could not add memory claim to list, reason: %s (%s)"
                  (reason res))
          pure (res, some claim.claim_id))
        else (do
          report os memory.ctx "Could not wait on condition variable, reason: %s (%s)"
              (reason waited)
          unlock_list o
          pure (IpmResult.success, none))

  unfoldable pub ipm_memory_claim_region :
      ℕ → IpmMemory K → AccessMode → ℕ → ℕ → M K (IpmResult × Option ℕ)
  unfolding claim_locked
  ipm_memory_claim_region fuel memory access offset count = do
    assert os (ltb 0 count)
    if is_read_only memory.real_memory.access_mode && not (is_read_only access)
        then (do
          report os memory.ctx
              "Memory block was opened as read-only and can not be claimed for read only access" []
          pure (IpmResult.err_bad_access, none))
        else if ltb memory.real_memory.size (u64 (offset + count))
        then (do
          report os memory.ctx
              "Memory block has the size of %zu, so region [%zu, %zu) can not be claimed"
              (Arg.number memory.real_memory.size
                ∷ Arg.number offset
                ∷ Arg.number (u64 (offset + count))
                ∷ [])
          pure (IpmResult.err_bad_value, none))
        else (do
          assert os (is_mapped memory.active_claims.memory)
          o ← pointed memory.active_claims.memory
          res ← run (ipm_mutex_lock os (Mutex.list_mutex o))
          if is_success res then claim_locked fuel memory access offset count o else (do
            report os memory.ctx "Could not lock access list mutex, reason: %s (%s)" (reason res)
            pure (res, none)))

  unfoldable pub ipm_memory_release_region : IpmMemory K → ℕ → M K IpmResult
  ipm_memory_release_region memory claim_id = do
    assert os (is_mapped memory.active_claims.memory)
    o ← pointed memory.active_claims.memory
    locked ← run (ipm_mutex_lock os (Mutex.list_mutex o))
    if is_success locked
        then (do
          res ← claim_remove_from_list os claim_id o
          unlock_list o
          (if is_success res
              then (do run (ipm_condition_signal os o); pure tt)
              else report os memory.ctx "Could not add memory claim to list, reason: %s (%s)"
                  (reason res))
          pure res)
        else (do
          report os memory.ctx "Could not lock access list mutex, reason: %s (%s)" (reason locked)
          pure locked)

  -- The loop of `ipm_memory_release_all`, from index `i` on. After a removal the index stays.
  pub release_from : ℕ → ℕ → ℕ → ℕ → M K (Unit {0})
  release_from zero proc_id o i w = blocked
  release_from (suc fuel) proc_id o i w =
      let again : M K (Unit {0}) = release_from fuel proc_id o i in
      let next : M K (Unit {0}) = release_from fuel proc_id o (i + 1) in
      (do
        list ← read (λ v. v.lists o)
        if ltb i (int_bound list.count)
            then (do
              claim ← checked (get_elem? list.claims i)
              if claim.proc_id == proc_id
                  then (do claim_remove_from_list os claim.claim_id o; again)
                  else next)
            else pure tt)
        w

  unfoldable pub ipm_memory_release_all : ℕ → IpmMemory K → M K IpmResult
  unfolding release_from
  ipm_memory_release_all fuel memory = do
    o ← pointed memory.active_claims.memory
    res ← run (ipm_mutex_lock os (Mutex.list_mutex o))
    if is_success res
        then (do release_from fuel memory.real_memory.access_id o 0; unlock_list o; pure res)
        else (do
          report os memory.ctx "Could not lock the claim list mutex, reason: %s (%s)" (reason res)
          pure res)

  -- `while (list->count)` of `ipm_memory_remove_all_active_claims`.
  pub remove_while_any : ℕ → ℕ → M K (Unit {0})
  remove_while_any zero o w = blocked
  remove_while_any (suc fuel) o w =
      let again : M K (Unit {0}) = remove_while_any fuel o in
      (do
        list ← read (λ v. v.lists o)
        if list.count == 0 then pure tt else (do
          claim ← checked (get_elem? list.claims (list.count - 1))
          claim_remove_from_list os claim.claim_id o
          again))
        w

  pub ipm_memory_remove_all_active_claims : ℕ → IpmMemory K → M K IpmResult
  unfolding remove_while_any
  ipm_memory_remove_all_active_claims fuel memory = do
    o ← pointed memory.active_claims.memory
    res ← run (ipm_mutex_lock os (Mutex.list_mutex o))
    if is_success res then (do remove_while_any fuel o; unlock_list o; pure res) else (do
      report os memory.ctx "Could not lock the claim list mutex, reason: %s (%s)" (reason res)
      pure res)
