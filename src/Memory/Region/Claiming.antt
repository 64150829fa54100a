-- ===== src/Memory/Region/Claiming.antt =====
-- What `ipm_memory_claim_region` grants, refuses and promises.
use ipm.Base.{ℕ, ◌+◌, ◌≤◌, ◌<◌, ◌≡◌, false, not, ◌&&◌, some, arith, get_elem?}
use ipm.Error.{IpmResult}
use ipm.Layout.{AccessMode, MemoryClaim, ClaimList, Ptr, u64}
use ipm.System.{world_after, Mutex, World, Posix, done, set_list}
use ipm.Platform.{ipm_mutex_lock, ipm_mutex_unlock}
use ipm.Claim.{is_read_only, claim_add_to_list}
use ipm.Claim.Valid.{live, IsValid}
use ipm.Claim.Add.Results.{add_places}
use ipm.Memory.{IpmMemory}
use ipm.Memory.Region.{await_turn, claim_locked, ipm_memory_claim_region}
use ipm.Memory.Region.Waiting.{
  TurnAfter, TurnAfter-admits, Admissible, admits-Admissible, await_turn_returns, await_turn-admits,
}

-- The claim that a call makes under a number.
abbrev pub claim_of : {K : Type 0} → IpmMemory K → AccessMode → ℕ → ℕ → ℕ → MemoryClaim
claim_of memory access offset count id = record {
  claim_id = id;
  proc_id = memory.real_memory.access_id;
  access = access;
  offset = offset;
  size = count;
}

module _ {K : Type 0} (os : Posix K) (memory : IpmMemory K) (access : AccessMode)
    (offset count : ℕ) where
  -- The access and the region that a handle may claim, as the code tests them.
  pub record Permitted : Type 0 where
    pub mode : is_read_only memory.real_memory.access_mode && not (is_read_only access) ≡ false
    pub inside : u64 (offset + count) ≤ memory.real_memory.size

  -- A granted claim's history: the moment at which it was added, and the world after that.
  pub record Granted (o id : ℕ) (last : World K) : Type 0 where
    pub moment : World K
    pub added : World K
    pub turn : Admissible (claim_of memory access offset count id) (moment.lists o)
    pub adds :
        claim_add_to_list os (claim_of memory access offset count id) o moment
        ≡ done (IpmResult.success, added)
    pub unlocked : last ≡ (ipm_mutex_unlock os (Mutex.list_mutex o) added).1

  abbrev pub numbered : ℕ → World K → World K
  numbered o w =
      set_list o (record (w.lists o) { claim_counter = u64 ((w.lists o).claim_counter + 1) }) w

  claim_locked-Granted :
      (fuel o id : ℕ) (w last : World K)
      → claim_locked os fuel memory access offset count o w
        ≡ done ((IpmResult.success, some id), last)
      → Granted o id last
  unfolding claim_locked
  claim_locked-Granted fuel o id w last e =
      let start = numbered o w in
      let c = claim_of memory access offset count id in
      let moment = world_after (await_turn os fuel c o start) start in
      let added = world_after (claim_add_to_list os c o moment) moment in
      record {
        moment = moment;
        added = added;
        turn =
            admits-Admissible c (moment.lists o)
              (ground (arith, await_turn-admits os c o fuel start moment));
        adds = ground arith;
        unlocked = ground arith;
      }

  -- A call that returns success and a claim id had the claim's access and region permitted, added
  -- the claim at a moment at which the list had room and no live claim conflicted with it, and
  -- returned after it unlocked the list's mutex.
  pub claim_region-Granted :
      (fuel id : ℕ) (p : Ptr) (w last : World K)
      → memory.active_claims.memory ≡ some p
      → ipm_memory_claim_region os fuel memory access offset count w
        ≡ done ((IpmResult.success, some id), last)
      → Permitted × Granted p.object id last
  unfolding ipm_memory_claim_region
  claim_region-Granted fuel id p w last mapped e =
      let locked = (ipm_mutex_lock os (Mutex.list_mutex p.object) w).1 in
      (
        record { mode = ground arith; inside = ground arith },
        claim_locked-Granted fuel p.object id locked last (ground arith),
      )

  claim_region-add :
      (fuel n : ℕ) (p : Ptr) (w locked moment added : World K)
      → memory.active_claims.memory ≡ some p
      → Permitted
      → 0 < count
      → ipm_mutex_lock os (Mutex.list_mutex p.object) w ≡ (IpmResult.success, locked)
      → TurnAfter os
          (claim_of memory access offset count (locked.lists p.object).claim_counter)
          p.object
          n
          (numbered p.object locked)
          moment
      → n < fuel
      → claim_add_to_list os
          (claim_of memory access offset count (locked.lists p.object).claim_counter)
          p.object
          moment
        ≡ done (IpmResult.success, added)
      → ipm_memory_claim_region os fuel memory access offset count w
        ≡ done (
          (IpmResult.success, some (locked.lists p.object).claim_counter),
          (ipm_mutex_unlock os (Mutex.list_mutex p.object) added).1,
        )
  unfolding ipm_memory_claim_region claim_locked
  claim_region-add fuel n p w locked moment added mapped ok some_bytes locks turn lt adds =
      let waited =
        await_turn_returns os
          (claim_of memory access offset count (locked.lists p.object).claim_counter) p.object fuel
          n turn lt in
      ground (arith, mapped, ok.mode, ok.inside, locks, waited, adds)

  -- A claim that is permitted and not empty is granted when its turn comes: if the lock succeeds,
  -- and after `n` waits, fewer than the fuel, the claim may join a valid list, the call returns
  -- success and the claim's id, which was the counter under the lock. It hands to the unlock a valid
  -- list with one claim more than there were, the new one among them.
  pub claim_region_returns :
      (fuel n : ℕ) (p : Ptr) (w locked moment : World K)
      → memory.active_claims.memory ≡ some p
      → Permitted
      → 0 < count
      → ipm_mutex_lock os (Mutex.list_mutex p.object) w ≡ (IpmResult.success, locked)
      → TurnAfter os
          (claim_of memory access offset count (locked.lists p.object).claim_counter)
          p.object
          n
          (numbered p.object locked)
          moment
      → n < fuel
      → IsValid (moment.lists p.object)
      → (l' : ClaimList) × (pos : ℕ) × (ipm_memory_claim_region os fuel memory access offset count w
          ≡ done (
            (IpmResult.success, some (locked.lists p.object).claim_counter),
            (ipm_mutex_unlock os (Mutex.list_mutex p.object) (set_list p.object l' moment)).1,
          ))
        × IsValid l'
        × (l'.count ≡ (moment.lists p.object).count + 1)
        × (get_elem? (live l') pos
            ≡ some (claim_of memory access offset count (locked.lists p.object).claim_counter))
  claim_region_returns fuel n p w locked moment mapped ok some_bytes locks turn lt v =
      let c = claim_of memory access offset count (locked.lists p.object).claim_counter in
      let free =
        admits-Admissible c (moment.lists p.object) (TurnAfter-admits os c p.object turn) in
      let room : (moment.lists p.object).count < (moment.lists p.object).capacity =
        omega (arith, v.within, free.room) in
      let (l', pos, adds, valid, more, there) = add_places os c p.object moment v room in
      (
        l',
        pos,
        claim_region-add fuel n p w locked moment (set_list p.object l' moment) mapped ok some_bytes
            locks turn lt adds,
        valid,
        more,
        there,
      )
