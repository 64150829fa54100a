-- ===== src/Memory/Region/Clearing.antt =====
-- `ipm_memory_remove_all_active_claims`.
use ipm.Base.{ℕ, zero, suc, ◌-◌, ◌<◌, ◌≡◌, refl, some, arith, get_elem?-some, subst, sym}
use native.Mathlib.Decide.{dec_lt}
use ipm.Error.{IpmResult}
use ipm.Layout.{ClaimList, Ptr}
use ipm.System.{Mutex, World, Posix, done, set_list}
use ipm.Platform.{ipm_mutex_lock, ipm_mutex_unlock}
use ipm.Claim.Valid.{IsValid}
use ipm.Claim.Remove.{shrunk, remove_runs, set_list-set_list, set_list_self, lists-set_list}
use ipm.Claim.Remove.Results.{cut, shrunk-IsValid}
use ipm.Memory.{IpmMemory}
use ipm.Memory.Region.{remove_while_any, ipm_memory_remove_all_active_claims}

-- A valid list with a slot to spare.
record HasRoom (l : ClaimList) : Type 0 where
  valid : IsValid l
  room : l.count < l.capacity

module _ {K : Type 0} (os : Posix K) (o : ℕ) where
  abbrev Empties : ℕ → World K → Type 0
  Empties fuel w =
      (l' : ClaimList) × (remove_while_any os fuel o w ≡ done (tt, set_list o l' w))
      × IsValid l'
      × (l'.count ≡ 0)
      × (l'.capacity ≡ (w.lists o).capacity)

  remove_while_any-Empties :
      (fuel : ℕ) (w : World K) → HasRoom (w.lists o) → (w.lists o).count < fuel → Empties fuel w
  unfolding remove_while_any
  remove_while_any-Empties zero w a h = elim h [ ]
  remove_while_any-Empties (suc fuel) w a h = elim (dec_lt 0 (w.lists o).count) [
    | no none_left ↦ (w.lists o, ground (arith, set_list_self o w), a.valid, omega arith, refl)
    | yes some_left ↦
        let l = w.lists o in
        let (x, e) =
          get_elem?-some l.claims (l.count - 1) (omega (arith, a.valid.slots, a.valid.within)) in
        let c = cut x.claim_id l a.valid (l.count - 1, x, omega arith, e, refl) in
        let w1 = set_list o (shrunk l c.ys) w in
        let runs = remove_runs os x.claim_id o w a.valid a.room c in
        let there = lists-set_list o (shrunk l c.ys) w in
        let a1 : HasRoom (w1.lists o) = subst HasRoom (sym there) (record {
          valid = shrunk-IsValid x.claim_id l a.valid c;
          room = omega (arith, a.room);
        }) in
        let (l', rest, v, zero_left, cap) =
          remove_while_any-Empties fuel w1 a1 (ground (arith, there)) in
        (
          l',
          ground (arith, e, runs, rest, set_list-set_list o (shrunk l c.ys) l' w),
          v,
          zero_left,
          ground (arith, cap, there),
        )
  ]

-- `ipm_memory_remove_all_active_claims` ends with no claim: if the lock succeeds on a valid list
-- that is not full, then with more fuel than there are claims the call returns success, and hands
-- to the unlock a valid list of the same capacity with count 0.
pub remove_all_empties :
    {K : Type 0} (os : Posix K) (memory : IpmMemory K) (fuel : ℕ) (p : Ptr) (w locked : World K)
    → memory.active_claims.memory ≡ some p
    → ipm_mutex_lock os (Mutex.list_mutex p.object) w ≡ (IpmResult.success, locked)
    → IsValid (locked.lists p.object)
    → (locked.lists p.object).count < (locked.lists p.object).capacity
    → (locked.lists p.object).count < fuel
    → (l' : ClaimList) × (ipm_memory_remove_all_active_claims os fuel memory w
        ≡ done (
          IpmResult.success,
          (ipm_mutex_unlock os (Mutex.list_mutex p.object) (set_list p.object l' locked)).1,
        ))
      × IsValid l'
      × (l'.count ≡ 0)
      × (l'.capacity ≡ (locked.lists p.object).capacity)
unfolding ipm_memory_remove_all_active_claims
remove_all_empties os memory fuel p w locked mapped locks v room enough =
    let (l', loop, valid, zero_left, cap) =
      remove_while_any-Empties os p.object fuel locked (record { valid = v; room = room }) enough in
    (l', ground (arith, mapped, locks, loop), valid, zero_left, cap)
