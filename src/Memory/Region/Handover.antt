-- ===== src/Memory/Region/Handover.antt =====
-- The end of a wait: one handle releases a claim, and a handle that waits in
-- `ipm_memory_claim_region` gets its own.
use ipm.Base.{ℕ, ◌+◌, ◌<◌, ◌≡◌, sym, subst, ap, ◌∙◌, some, arith, get_elem?}
use ipm.Error.{IpmResult}
use ipm.Layout.{AccessMode, ClaimList, u64}
use ipm.System.{Mutex, Call, World, Posix, done, set_list, world_after}
use ipm.Platform.{ipm_mutex_lock, ipm_mutex_unlock, ipm_condition_wait, ipm_condition_signal}
use ipm.Claim.Valid.{live, IsValid}
use ipm.Claim.Remove.{Cut, shrunk, lists-set_list, remove_runs}
use ipm.Claim.Remove.Results.{cut, shrunk-IsValid}
use ipm.Memory.{IpmMemory}
use ipm.Memory.Region.{ipm_memory_claim_region, ipm_memory_release_region}
use ipm.Memory.Region.Waiting.{Admissible, TurnAfter, now, later, admits_iff}
use ipm.Memory.Region.Claiming.{Permitted, claim_of, numbered, claim_region_returns}
use ipm.Memory.Region.Obstacle.{Obstacle, Obstacle-admits, Obstacle-Holds, shrunk-Admissible}

module _ {K : Type 0} (os : Posix K) (o : ℕ)
    (unlocks : (v : World K)
      → (os.call (Call.pthread_mutex_unlock (Mutex.list_mutex o)) v).1.lists ≡ v.lists)
    (signals : (v : World K) → (os.call (Call.pthread_cond_signal o) v).1.lists ≡ v.lists) where
  unlock_lists : (w : World K) → (ipm_mutex_unlock os (Mutex.list_mutex o) w).1.lists ≡ w.lists
  unfolding ipm_mutex_unlock
  unlock_lists w = ground (arith, unlocks w)

  signal_lists : (w : World K) → (ipm_condition_signal os o w).1.lists ≡ w.lists
  unfolding ipm_condition_signal
  signal_lists w = ground (arith, signals w)

  woken_list :
      (l : ClaimList) (w : World K)
      → ((ipm_condition_signal os o (ipm_mutex_unlock os (Mutex.list_mutex o) (set_list o l w)).1).1
        ).lists
          o
        ≡ l
  woken_list l w =
      let v = set_list o l w in
      let u = (ipm_mutex_unlock os (Mutex.list_mutex o) v).1 in
      ap (λ (ls : ℕ → ClaimList). ls o) (signal_lists u ∙ unlock_lists v) ∙ lists-set_list o l w

  release_runs :
      (memory : IpmMemory K) (claim_id address : ℕ) (w locked : World K)
      → memory.active_claims.memory ≡ some (record { address = address; object = o })
      → ipm_mutex_lock os (Mutex.list_mutex o) w ≡ (IpmResult.success, locked)
      → IsValid (locked.lists o)
      → (locked.lists o).count < (locked.lists o).capacity
      → (c : Cut claim_id (locked.lists o).count (locked.lists o).claims)
      → ipm_memory_release_region os memory claim_id w
        ≡ done (
          IpmResult.success,
          (ipm_condition_signal os o
              (ipm_mutex_unlock os
                (Mutex.list_mutex o)
                (set_list o (shrunk (locked.lists o) c.ys) locked)).1).1,
        )
  unfolding ipm_memory_release_region
  release_runs memory claim_id address w locked mapped locks v room c =
      ground (arith, mapped, locks, remove_runs os claim_id o locked v room c)

  module _ (waiter holder : IpmMemory K) (access : AccessMode) (offset count claim_id : ℕ) where
    -- A waiting handle gets its claim when the one in its way is released: let a permitted claim
    -- find, in a valid list with room, one live claim in its way that is not the last but one, and let
    -- its wait on the condition variable succeed with the list that another handle's
    -- `ipm_memory_release_region` of that claim leaves, from the list as the waiter saw it. Then, if
    -- both locks succeed, that release returns success, and so does `ipm_memory_claim_region`, with
    -- two rounds' fuel and the id that the counter had, and hands to its unlock a valid list of as
    -- many claims as before, the new one among them. Unlocking and signalling keep the lists.
    pub handover :
        (fuel a b : ℕ) (w locked during taken woken : World K)
        → waiter.active_claims.memory ≡ some (record { address = a; object = o })
        → holder.active_claims.memory ≡ some (record { address = b; object = o })
        → Permitted os waiter access offset count
        → 0 < count
        → 1 < fuel
        → ipm_mutex_lock os (Mutex.list_mutex o) w ≡ (IpmResult.success, locked)
        → IsValid ((numbered os waiter access offset count o locked).lists o)
        → ((numbered os waiter access offset count o locked).lists o).count
          < ((numbered os waiter access offset count o locked).lists o).capacity
        → Obstacle
            (claim_of waiter access offset count (locked.lists o).claim_counter)
            claim_id
            ((numbered os waiter access offset count o locked).lists o)
        → ipm_mutex_lock os (Mutex.list_mutex o) during ≡ (IpmResult.success, taken)
        → taken.lists o ≡ (numbered os waiter access offset count o locked).lists o
        → ipm_condition_wait os o
            (Mutex.list_mutex o)
            (numbered os waiter access offset count o locked)
          ≡ (IpmResult.success, woken)
        → woken.lists o
          ≡ (world_after (ipm_memory_release_region os holder claim_id during) during).lists o
        → (released : World K) × (l' : ClaimList) × (pos : ℕ) × (ipm_memory_release_region os holder
              claim_id during
            ≡ done (IpmResult.success, released))
          × (ipm_memory_claim_region os fuel waiter access offset count w
              ≡ done (
                (IpmResult.success, some (locked.lists o).claim_counter),
                (ipm_mutex_unlock os (Mutex.list_mutex o) (set_list o l' woken)).1,
              ))
          × IsValid l'
          × (l'.count ≡ (locked.lists o).count)
          × (get_elem? (live l') pos
              ≡ some (claim_of waiter access offset count (locked.lists o).claim_counter))
    handover fuel a b w locked during taken woken mapped held ok some_bytes enough locks v room
          blocks locks' same waits wakes =
        let start = numbered os waiter access offset count o locked in
        let claim = claim_of waiter access offset count (locked.lists o).claim_counter in
        let v' = subst IsValid (sym same) v in
        let blocks' = subst (Obstacle claim claim_id) (sym same) blocks in
        let room' = subst (λ (l : ClaimList). l.count < l.capacity) (sym same) room in
        let c =
          cut claim_id (taken.lists o) v'
            (Obstacle-Holds claim claim_id (taken.lists o) v' blocks') in
        let l1 = shrunk (taken.lists o) c.ys in
        let runs = release_runs holder claim_id b during taken held locks' v' room' c in
        let after_release : woken.lists o ≡ l1 =
          wakes ∙ ap (λ r. (world_after r during).lists o) runs ∙ woken_list l1 taken in
        let valid : IsValid (woken.lists o) =
          subst IsValid (sym after_release) (shrunk-IsValid claim_id (taken.lists o) v' c) in
        let free : Admissible claim (woken.lists o) =
          subst (Admissible claim) (sym after_release)
            (shrunk-Admissible claim claim_id (taken.lists o) v' blocks' c room') in
        let turn : TurnAfter os claim o 1 start woken =
          later (Obstacle-admits claim claim_id (start.lists o) v blocks) waits
            (now ((admits_iff claim (woken.lists o) valid).1 free)) in
        let (l', pos, claims, valid', more, there) =
          claim_region_returns os waiter access offset count fuel 1
            (record { address = a; object = o }) w locked woken mapped ok some_bytes locks turn
            enough valid in
        (
          (ipm_condition_signal os o
              (ipm_mutex_unlock os (Mutex.list_mutex o) (set_list o l1 taken)).1).1,
          l',
          pos,
          runs,
          claims,
          valid',
          ground (
            arith,
            more,
            ap ClaimList.count after_release,
            c.inside,
            ap ClaimList.count same,
            ap ClaimList.count (
                lists-set_list o
                  (record (locked.lists o) {
                    claim_counter = u64 ((locked.lists o).claim_counter + 1);
                  })
                  locked),
          ),
          there,
        )
