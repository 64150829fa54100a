-- ===== src/Memory/Region/Releasing.antt =====
-- The end of claims: `ipm_memory_release_region` and `ipm_memory_release_all`.
use native.Mathlib.Decide.{dec_lt}
use ipm.Base.{
  ℕ, zero, suc, ◌+◌, ◌-◌, ◌<◌, ◌≡◌, refl, some, arith, ◌==◌, get_elem?, get_elem?-some, sym, subst,
  ==_iff, Bool-cases, inl, inr,
}
use ipm.Error.{IpmResult}
use ipm.Layout.{MemoryClaim, ClaimList, Ptr}
use ipm.System.{Mutex, World, Posix, done, set_list}
use ipm.Platform.{ipm_mutex_lock, ipm_mutex_unlock, ipm_condition_signal}
use ipm.Claim.Valid.{live, IsValid}
use ipm.Claim.Remove.{shrunk, set_list-set_list, set_list_self, lists-set_list, remove_runs}
use ipm.Claim.Remove.Results.{Holds, cut, remove_shrinks}
use ipm.Memory.{IpmMemory}
use ipm.Memory.Region.Scanning.{
  IdsIdentify, AtIndex, AtIndex-shrunk, AtIndex-next, Cleared, Cleared-shrunk,
}
use ipm.Memory.Region.{int_bound, release_from, ipm_memory_release_region, ipm_memory_release_all}

module _ {K : Type 0} (os : Posix K) (proc_id o : ℕ) where
  abbrev Clears : ℕ → ℕ → World K → Type 0
  Clears fuel i w =
      (l' : ClaimList) × (release_from os fuel proc_id o i w ≡ done (tt, set_list o l' w))
      × Cleared proc_id (w.lists o) l'

  -- With more fuel than there are entries to look at, the loop ends.
  release_from-Clears :
      (fuel i : ℕ) (w : World K)
      → AtIndex proc_id i (w.lists o)
      → (w.lists o).count - i < fuel
      → Clears fuel i w
  unfolding release_from
  release_from-Clears zero i w a h = elim h [ ]
  release_from-Clears (suc fuel) i w a h = elim (dec_lt i (w.lists o).count) [
    | no ends ↦ (
      w.lists o,
      ground (arith, set_list_self o w, a.valid.small, a.valid.within),
      record {
        valid = a.valid;
        none_left = λ k d lk ek. a.passed k d (omega arith) ek;
        no_new = λ k d lk ek. (k, lk, ek);
        counter = refl;
      },
    )
    | yes lt ↦
        let l = w.lists o in
        let (x, e) = get_elem?-some l.claims i (omega (arith, a.valid.slots, a.valid.within)) in
        let bound : int_bound l.count ≡ l.count = ground (arith, a.valid.small, a.valid.within) in
        elim (Bool-cases (x.proc_id == proc_id)) [
          | inl own ↦
              let its = (==_iff x.proc_id proc_id).0 own in
              let c = cut x.claim_id l a.valid (i, x, lt, e, refl) in
              let w1 = set_list o (shrunk l c.ys) w in
              let runs = remove_runs os x.claim_id o w a.valid a.room c in
              let there = lists-set_list o (shrunk l c.ys) w in
              let a1 =
                subst (AtIndex proc_id i) (sym there) (AtIndex-shrunk proc_id i l x a lt e its c) in
              let (l', rest, r) =
                release_from-Clears fuel i w1 a1 (ground (arith, there, c.inside)) in
              (
                l',
                ground (arith, bound, e, own, runs, rest, set_list-set_list o (shrunk l c.ys) l' w),
                Cleared-shrunk proc_id x.claim_id l l' c
                    (subst (λ b. Cleared proc_id b l') there r),
              )
          | inr other ↦
              let a1 = AtIndex-next proc_id i l x a lt e (ground arith) in
              let (l', rest, r) = release_from-Clears fuel (i + 1) w a1 (omega arith) in
              (l', ground (arith, bound, e, other, rest), r)
        ]
  ]

module _ {K : Type 0} (os : Posix K) (memory : IpmMemory K) where
  -- `ipm_memory_release_all` ends, and leaves no claim of its handle: if the lock succeeds on a
  -- valid list that is not full, in which live claims with one id are of one handle, then with
  -- more fuel than there are claims the call returns success, and hands to the unlock a valid list
  -- whose live claims are of other handles and were all live before.
  pub release_all_clears :
      (fuel : ℕ) (p : Ptr) (w locked : World K)
      → memory.active_claims.memory ≡ some p
      → ipm_mutex_lock os (Mutex.list_mutex p.object) w ≡ (IpmResult.success, locked)
      → IsValid (locked.lists p.object)
      → (locked.lists p.object).count < (locked.lists p.object).capacity
      → IdsIdentify (locked.lists p.object)
      → (locked.lists p.object).count < fuel
      → (l' : ClaimList) × (ipm_memory_release_all os fuel memory w
          ≡ done (
            IpmResult.success,
            (ipm_mutex_unlock os (Mutex.list_mutex p.object) (set_list p.object l' locked)).1,
          ))
        × Cleared memory.real_memory.access_id (locked.lists p.object) l'
  unfolding ipm_memory_release_all
  release_all_clears fuel p w locked mapped locks v room ids enough =
      let start : AtIndex memory.real_memory.access_id 0 (locked.lists p.object) = record {
        valid = v;
        room = room;
        ids = ids;
        passed = λ k c lt e. elim lt [ ];
        reached = omega arith;
      } in
      let (l', loop, r) =
        release_from-Clears os memory.real_memory.access_id p.object fuel 0 locked start
          (omega arith) in
      (l', ground (arith, mapped, locks, loop), r)

  -- `ipm_memory_release_region` for an id that some live claim has, if the lock succeeds on a valid
  -- list that is not full: it returns success, hands to the unlock a valid list with one claim less
  -- and no claim that was not live before, and then signals the condition variable.
  pub release_region_signals :
      (claim_id : ℕ) (p : Ptr) (w locked : World K)
      → memory.active_claims.memory ≡ some p
      → ipm_mutex_lock os (Mutex.list_mutex p.object) w ≡ (IpmResult.success, locked)
      → IsValid (locked.lists p.object)
      → (locked.lists p.object).count < (locked.lists p.object).capacity
      → Holds (locked.lists p.object) claim_id
      → (l' : ClaimList) × (ipm_memory_release_region os memory claim_id w
          ≡ done (
            IpmResult.success,
            (ipm_condition_signal os p.object
                (ipm_mutex_unlock os
                  (Mutex.list_mutex p.object)
                  (set_list p.object l' locked)).1).1,
          ))
        × IsValid l'
        × (l'.count + 1 ≡ (locked.lists p.object).count)
        × ((i : ℕ) (d : MemoryClaim)
            → get_elem? (live l') i ≡ some d
            → (j : ℕ) × (get_elem? (live (locked.lists p.object)) j ≡ some d))
  unfolding ipm_memory_release_region
  release_region_signals claim_id p w locked mapped locks v room h =
      let (l', runs, valid, less, old) = remove_shrinks os claim_id p.object locked v room h in
      (l', ground (arith, mapped, locks, runs), valid, less, old)
