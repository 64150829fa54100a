-- ===== src/Memory/Region/Alone.antt =====
-- What whole calls of `ipm_memory_claim_region`, `ipm_memory_release_region` and
-- `ipm_memory_release_all` do to the list of claims when no other process changes it meanwhile.
use ipm.Base.{ℕ, zero, suc, ◌+◌, ◌<◌, ◌≡◌, ◌∙◌, true, some, arith, sym, ap, subst}
use ipm.Error.{IpmResult}
use ipm.Layout.{AccessMode, MemoryClaim, ClaimList, u64}
use ipm.System.{Mutex, Call, World, Posix, done, set_list, world_after}
use ipm.Platform.{ipm_mutex_lock, ipm_mutex_unlock, ipm_condition_wait}
use ipm.Platform.Still.{
  synchronizes, mutex_lock_still, mutex_unlock_still, condition_wait_still, condition_signal_still,
}
use ipm.Claim.{claim_add_to_list}
use ipm.Claim.Valid.{IsValid}
use ipm.Claim.Remove.{Cut, shrunk, lists-set_list, remove_runs}
use ipm.Claim.Remove.Results.{Holds, cut}
use ipm.Memory.{IpmMemory}
use ipm.Memory.Region.{
  admits, await_turn, claim_locked, ipm_memory_claim_region, ipm_memory_release_region,
  ipm_memory_release_all,
}
use ipm.Memory.Region.Waiting.{await_turn-admits}
use ipm.Memory.Region.Claiming.{claim_of, numbered}
use ipm.Memory.Region.Scanning.{IdsIdentify, Cleared}
use ipm.Memory.Region.Releasing.{release_all_clears}

abbrev pub lists_of : {K : Type 0} → World K → ℕ → ClaimList
lists_of w = w.lists

-- The calls on mutexes and condition variables leave all lists as they are.
abbrev pub KeepsLists : {K : Type 0} → Posix K → Type 0
KeepsLists {K} os =
    (c : Call) (w : World K) → synchronizes c ≡ true → (os.call c w).1.lists ≡ w.lists

module _ {K : Type 0} (os : Posix K) (keeps : KeepsLists os) (o : ℕ) where
  pub await_turn_alone :
      (fuel : ℕ) (claim : MemoryClaim) (res : IpmResult) (w u : World K)
      → await_turn os fuel claim o w ≡ done (res, u)
      → u.lists ≡ w.lists
  unfolding await_turn
  await_turn_alone zero claim res w u e = absurd (ground arith)
  await_turn_alone (suc fuel) claim res w u e =
      let waited = (ipm_condition_wait os o (Mutex.list_mutex o) w).1 in
      ground (
        arith,
        condition_wait_still os lists_of keeps o (Mutex.list_mutex o) w,
        await_turn_alone fuel claim res waited u,
      )

  module _ (memory : IpmMemory K) where
    module _ (access : AccessMode) (offset count : ℕ) where
      -- The list with the next id counted.
      abbrev pub counted : ClaimList → ClaimList
      counted l = record l { claim_counter = u64 (l.claim_counter + 1) }

      -- A claim that was granted: when, and with what list.
      pub record Joined (id : ℕ) (w last : World K) : Type 0 where
        pub moment : World K
        pub added : World K
        pub its_id : id ≡ (w.lists o).claim_counter
        pub list : moment.lists o ≡ counted (w.lists o)
        pub free : admits (claim_of memory access offset count id) (moment.lists o) ≡ some true
        pub adds :
            claim_add_to_list os (claim_of memory access offset count id) o moment
            ≡ done (IpmResult.success, added)
        pub after : last.lists ≡ added.lists

      claim_locked-Joined :
          (fuel id : ℕ) (w last : World K)
          → claim_locked os fuel memory access offset count o w
            ≡ done ((IpmResult.success, some id), last)
          → Joined id w last
      unfolding claim_locked
      claim_locked-Joined fuel id w last e =
          let start = numbered os memory access offset count o w in
          let c = claim_of memory access offset count id in
          let moment = world_after (await_turn os fuel c o start) start in
          let added = world_after (claim_add_to_list os c o moment) moment in
          let alone : moment.lists ≡ start.lists =
            ground (arith, await_turn_alone fuel c IpmResult.success start moment) in
          record {
            moment = moment;
            added = added;
            its_id = ground arith;
            list =
                ap (λ (ls : ℕ → ClaimList). ls o) alone ∙ lists-set_list o (counted (w.lists o)) w;
            free = ground (arith, await_turn-admits os c o fuel start moment);
            adds = ground arith;
            after = ground (arith, mutex_unlock_still os lists_of keeps (Mutex.list_mutex o) added);
          }

      Joined-same_list :
          (id : ℕ) (w locked last : World K)
          → locked.lists o ≡ w.lists o
          → Joined id locked last
          → Joined id w last
      Joined-same_list id w locked last here j = record {
        moment = j.moment;
        added = j.added;
        its_id = j.its_id ∙ ap ClaimList.claim_counter here;
        list = j.list ∙ ap counted here;
        free = j.free;
        adds = j.adds;
        after = j.after;
      }

      pub claim_region-Joined :
          (fuel id address : ℕ) (w last : World K)
          → memory.active_claims.memory ≡ some (record { address = address; object = o })
          → ipm_memory_claim_region os fuel memory access offset count w
            ≡ done ((IpmResult.success, some id), last)
          → Joined id w last
      unfolding ipm_memory_claim_region
      claim_region-Joined fuel id address w last at e =
          let locked = (ipm_mutex_lock os (Mutex.list_mutex o) w).1 in
          let same = mutex_lock_still os lists_of keeps (Mutex.list_mutex o) w in
          Joined-same_list id w locked last (ap (λ (ls : ℕ → ClaimList). ls o) same)
            (claim_locked-Joined fuel id locked last (ground (arith, at)))

    -- What a release leaves of a list: the list without one of its claims.
    pub record Left (claim_id : ℕ) (l after : ClaimList) : Type 0 where
      pub cut_out : Cut claim_id l.count l.claims
      pub rest : after ≡ shrunk l cut_out.ys

    release_locked-Left :
        (claim_id address : ℕ) (w last : World K)
        → memory.active_claims.memory ≡ some (record { address = address; object = o })
        → IsValid ((ipm_mutex_lock os (Mutex.list_mutex o) w).1.lists o)
        → ((ipm_mutex_lock os (Mutex.list_mutex o) w).1.lists o).count
          < ((ipm_mutex_lock os (Mutex.list_mutex o) w).1.lists o).capacity
        → Holds ((ipm_mutex_lock os (Mutex.list_mutex o) w).1.lists o) claim_id
        → ipm_memory_release_region os memory claim_id w ≡ done (IpmResult.success, last)
        → Left claim_id ((ipm_mutex_lock os (Mutex.list_mutex o) w).1.lists o) (last.lists o)
    unfolding ipm_memory_release_region
    release_locked-Left claim_id address w last at v room h e =
        let locked = (ipm_mutex_lock os (Mutex.list_mutex o) w).1 in
        let c = cut claim_id (locked.lists o) v h in
        let out = set_list o (shrunk (locked.lists o) c.ys) locked in
        let unlocked = (ipm_mutex_unlock os (Mutex.list_mutex o) out).1 in
        let runs = remove_runs os claim_id o locked v room c in
        let same : last.lists ≡ out.lists = ground (
          arith,
          at,
          runs,
          mutex_unlock_still os lists_of keeps (Mutex.list_mutex o) out,
          condition_signal_still os lists_of keeps o unlocked,
        ) in
        record {
          cut_out = c;
          rest =
              ap (λ (ls : ℕ → ClaimList). ls o) same
              ∙ lists-set_list o (shrunk (locked.lists o) c.ys) locked;
        }

    pub release_region-Left :
        (claim_id address : ℕ) (w last : World K)
        → memory.active_claims.memory ≡ some (record { address = address; object = o })
        → IsValid (w.lists o)
        → (w.lists o).count < (w.lists o).capacity
        → Holds (w.lists o) claim_id
        → ipm_memory_release_region os memory claim_id w ≡ done (IpmResult.success, last)
        → Left claim_id (w.lists o) (last.lists o)
    release_region-Left claim_id address w last at v room h e =
        let same =
          ap (λ (ls : ℕ → ClaimList). ls o)
            (mutex_lock_still os lists_of keeps (Mutex.list_mutex o) w) in
        subst (λ (l : ClaimList). Left claim_id l (last.lists o)) same
          (release_locked-Left claim_id address w last at (subst IsValid (sym same) v)
            (subst (λ (l : ClaimList). l.count < l.capacity) (sym same) room)
            (subst (λ (l : ClaimList). Holds l claim_id) (sym same) h) e)

    release_all_locks :
        (fuel address : ℕ) (w last : World K)
        → memory.active_claims.memory ≡ some (record { address = address; object = o })
        → ipm_memory_release_all os fuel memory w ≡ done (IpmResult.success, last)
        → (ipm_mutex_lock os (Mutex.list_mutex o) w).0 ≡ IpmResult.success
    unfolding ipm_memory_release_all
    release_all_locks fuel address w last at e = ground (arith, at)

    pub release_all-Cleared :
        (fuel address : ℕ) (w last : World K)
        → memory.active_claims.memory ≡ some (record { address = address; object = o })
        → IsValid (w.lists o)
        → (w.lists o).count < (w.lists o).capacity
        → IdsIdentify (w.lists o)
        → (w.lists o).count < fuel
        → ipm_memory_release_all os fuel memory w ≡ done (IpmResult.success, last)
        → Cleared memory.real_memory.access_id (w.lists o) (last.lists o)
    release_all-Cleared fuel address w last at v room ids enough e =
        let locked = (ipm_mutex_lock os (Mutex.list_mutex o) w).1 in
        let same =
          ap (λ (ls : ℕ → ClaimList). ls o)
            (mutex_lock_still os lists_of keeps (Mutex.list_mutex o) w) in
        let locks : ipm_mutex_lock os (Mutex.list_mutex o) w ≡ (IpmResult.success, locked) =
          ground (arith, release_all_locks fuel address w last at e) in
        let (l', runs, cleared) =
          release_all_clears os memory fuel (record { address = address; object = o }) w locked at
            locks (subst IsValid (sym same) v)
            (subst (λ (l : ClaimList). l.count < l.capacity) (sym same) room)
            (subst IdsIdentify (sym same) ids)
            (subst (λ (l : ClaimList). l.count < fuel) (sym same) enough) in
        let out = set_list o l' locked in
        let ends : last ≡ (ipm_mutex_unlock os (Mutex.list_mutex o) out).1 = cc (e, runs) in
        let there : last.lists o ≡ l' =
          ap (λ (u : World K). u.lists o) ends
          ∙ ap (λ (ls : ℕ → ClaimList). ls o)
              (mutex_unlock_still os lists_of keeps (Mutex.list_mutex o) out)
          ∙ lists-set_list o l' locked in
        subst (λ (l : ClaimList). Cleared memory.real_memory.access_id l (last.lists o)) same
          (subst (Cleared memory.real_memory.access_id (locked.lists o)) (sym there) cleared)
