-- ===== src/Examples/Regions.antt =====
-- The theorems on claimed regions (source/ipm_memory.c) for a handle with two claims beside it.
use ipm.Base.{ℕ, zero, suc, ◌+◌, ◌≡◌, ◌≢◌, ◌⊎◌, ◌↔◌, inl, refl, true, some, arith, get_elem?}
use ipm.Error.{IpmResult}
use ipm.Layout.{MemoryClaim, ClaimList, read_only, read_write}
use ipm.System.{Mutex, World, done, set_list, world_after}
use ipm.Platform.{ipm_mutex_lock, ipm_mutex_unlock, ipm_condition_wait, ipm_condition_signal}
use ipm.Common.{ipm_report_error}
use ipm.Claim.{claim_add_to_list, claims_conflict}
use ipm.Claim.Valid.{live, IsValid}
use ipm.Memory.Region.{
  admits, ipm_memory_claim_region, ipm_memory_release_region, ipm_memory_release_all,
  ipm_memory_remove_all_active_claims,
}
use ipm.Memory.Region.Waiting.{Admissible, TurnAfter, now, admits_iff}
use ipm.Memory.Region.Claiming.{
  Permitted, Granted, numbered, claim_region-Granted, claim_region_returns,
}
use ipm.Memory.Region.Refusing.{Refused, claim_region_refuses}
use ipm.Memory.Region.Unclaimed.{claim_region_unclaimed}
use ipm.Memory.Region.Scanning.{IdsIdentify, Cleared}
use ipm.Memory.Region.Releasing.{release_all_clears, release_region_signals}
use ipm.Memory.Region.Clearing.{remove_all_empties}
use ipm.Examples.{
  quiet, failing, claim, two_claims, full_list, two_claims-IsValid, world_of, pointer, handle,
}

admits_iff_example :
    (admits (claim 7 10 24 8) two_claims ≡ some true) ↔ Admissible (claim 7 10 24 8) two_claims
admits_iff_example = admits_iff (claim 7 10 24 8) two_claims two_claims-IsValid

-- What the call of the next example leaves.
abbrev pub granted_world : World (Unit {0})
granted_world =
    world_after (ipm_memory_claim_region quiet 3 handle read_only 24 8 (world_of two_claims))
      (world_of two_claims)

claim_region-Granted_example :
    Permitted quiet handle read_only 24 8 × Granted quiet handle read_only 24 8 2 7 granted_world
unfolding ipm_memory_claim_region ipm_mutex_lock ipm_mutex_unlock claim_add_to_list claims_conflict
claim_region-Granted_example =
    claim_region-Granted quiet handle read_only 24 8 3 7 (pointer 2) (world_of two_claims)
      granted_world refl refl

inside_block : Permitted quiet handle read_only 24 8
inside_block = record { mode = refl; inside = omega arith }

-- The list under the lock, with the next id counted.
abbrev numbered_two : World (Unit {0})
numbered_two = numbered quiet handle read_only 24 8 2 (world_of two_claims)

turn_at_once : TurnAfter quiet (claim 7 10 24 8) 2 0 numbered_two numbered_two
unfolding admits claims_conflict
turn_at_once = now refl

numbered-IsValid : IsValid (numbered_two.lists 2)
numbered-IsValid = record { slots = refl; within = omega arith; small = omega arith }

claim_region_returns_example :
    (l' : ClaimList) × (pos : ℕ) × (ipm_memory_claim_region quiet 1 handle read_only 24 8
        (world_of two_claims)
      ≡ done (
        (IpmResult.success, some 7),
        (ipm_mutex_unlock quiet (Mutex.list_mutex 2) (set_list 2 l' numbered_two)).1,
      ))
    × IsValid l'
    × (l'.count ≡ 3)
    × (get_elem? (live l') pos ≡ some (claim 7 10 24 8))
unfolding ipm_mutex_lock
claim_region_returns_example =
    claim_region_returns quiet handle read_only 24 8 1 0 (pointer 2) (world_of two_claims)
      (world_of two_claims) numbered_two refl inside_block (omega arith) refl turn_at_once
      (omega arith) numbered-IsValid

claim_region_refuses_example :
    Refused IpmResult.err_bad_access
      (world_of two_claims)
      (ipm_memory_claim_region quiet 3 handle read_write 24 8 (world_of two_claims))
claim_region_refuses_example =
    claim_region_refuses quiet handle read_write 24 8 3 (world_of two_claims) (omega arith)
      (inl refl)

-- The list is full, so the call waits, and the wait fails.
abbrev waited_world : World (Unit {0})
waited_world =
    world_after (ipm_memory_claim_region failing 1 handle read_only 24 8 (world_of full_list))
      (world_of full_list)

claim_region_unclaimed_example :
    ((IpmResult.success ≢ IpmResult.success) × (waited_world.lists 2 ≡ full_list))
    ⊎ ((IpmResult.success ≡ IpmResult.success)
        × (waited_world.lists 2 ≡ record full_list { claim_counter = 8 }))
unfolding ipm_memory_claim_region ipm_mutex_lock ipm_mutex_unlock ipm_condition_wait admits
    claims_conflict ipm_report_error
claim_region_unclaimed_example =
    claim_region_unclaimed failing (λ c w s. refl) 2 handle read_only 24 8 1 69632 IpmResult.success
      (world_of full_list) waited_world refl refl

ids_differ : IdsIdentify two_claims
ids_differ zero zero c d li lj ec ed same = ground arith
ids_differ zero (suc zero) c d li lj ec ed same = ground arith
ids_differ (suc zero) zero c d li lj ec ed same = ground arith
ids_differ (suc zero) (suc zero) c d li lj ec ed same = ground arith
ids_differ (suc (suc i)) j c d li lj ec ed same = absurd (omega (arith, li))
ids_differ i (suc (suc j)) c d li lj ec ed same = absurd (omega (arith, lj))

release_all_clears_example :
    (l' : ClaimList) × (ipm_memory_release_all quiet 3 handle (world_of two_claims)
      ≡ done (
        IpmResult.success,
        (ipm_mutex_unlock quiet (Mutex.list_mutex 2) (set_list 2 l' (world_of two_claims))).1,
      ))
    × Cleared 10 two_claims l'
unfolding ipm_mutex_lock
release_all_clears_example =
    release_all_clears quiet handle 3 (pointer 2) (world_of two_claims) (world_of two_claims) refl
      refl two_claims-IsValid (omega arith) ids_differ (omega arith)

release_region_signals_example :
    (l' : ClaimList) × (ipm_memory_release_region quiet handle 6 (world_of two_claims)
      ≡ done (
        IpmResult.success,
        (ipm_condition_signal quiet 2
            (ipm_mutex_unlock quiet
              (Mutex.list_mutex 2)
              (set_list 2 l' (world_of two_claims))).1).1,
      ))
    × IsValid l'
    × (l'.count + 1 ≡ 2)
    × ((i : ℕ) (d : MemoryClaim)
        → get_elem? (live l') i ≡ some d
        → (j : ℕ) × (get_elem? (live two_claims) j ≡ some d))
unfolding ipm_mutex_lock
release_region_signals_example =
    release_region_signals quiet handle 6 (pointer 2) (world_of two_claims) (world_of two_claims)
      refl refl two_claims-IsValid (omega arith) (1, claim 6 11 16 8, omega arith, refl, refl)

remove_all_empties_example :
    (l' : ClaimList) × (ipm_memory_remove_all_active_claims quiet 3 handle (world_of two_claims)
      ≡ done (
        IpmResult.success,
        (ipm_mutex_unlock quiet (Mutex.list_mutex 2) (set_list 2 l' (world_of two_claims))).1,
      ))
    × IsValid l'
    × (l'.count ≡ 0)
    × (l'.capacity ≡ 4)
unfolding ipm_mutex_lock
remove_all_empties_example =
    remove_all_empties quiet handle 3 (pointer 2) (world_of two_claims) (world_of two_claims) refl
      refl two_claims-IsValid (omega arith) (omega arith)
