-- ===== src/Examples/Claims.antt =====
-- The theorems on the claim list (source/memory_claim.c) at small lists.
use ipm.Base.{
  ℕ, zero, suc, ◌+◌, ◌<◌, ◌≡◌, ◌≢◌, refl, Bool, true, false, [], ◌∷◌, some, arith, get_elem?, drop,
}
use ipm.Error.{IpmResult}
use ipm.Layout.{MemoryClaim, ClaimList}
use ipm.System.{Posix, Errno, Mutex, World, done, aborted, fault, set_list}
use ipm.Platform.{ipm_mutex_lock, ipm_mutex_unlock}
use ipm.Claim.{claims_conflict, claim_add_to_list, claim_remove_from_list, claims_iterate}
use ipm.Claim.Conflict.{conflict_ignores_regions}
use ipm.Claim.Valid.{live, IsValid}
use ipm.Claim.Remove.Results.{Lacks, remove_unknown_faults}
use ipm.Claim.Spec.{placed, without}
use ipm.Claim.Refines.{add_refines, remove_refines}
use ipm.Claim.RoundTrip.{remove-add}
use ipm.Claim.Filled.{wrapped, emptied_list_dead, filled_list_stuck}
use ipm.Claim.Iterate.{each, Walks, iterate_visits_live}
use ipm.Examples.{
  start_low, quiet, claim, writer, unused, two_claims, three_claims, three_claims-IsValid,
  two_claims-IsValid, world_of,
}

conflict_ignores_regions_example : claims_conflict (writer 1 10 0 8) (claim 2 11 100 8) ≡ true
conflict_ignores_regions_example =
    conflict_ignores_regions (writer 1 10 0 8) (claim 2 11 100 8) (omega arith) (omega arith)
      (omega arith) (omega arith)

-- The new claim starts between the two: the second one goes.
add_refines_example :
    (l' : ClaimList) × (claim_add_to_list quiet (claim 7 10 8 8) 2 (world_of two_claims)
      ≡ done (IpmResult.success, set_list 2 l' (world_of two_claims)))
    × IsValid l'
    × (live l' ≡ claim 5 10 0 8 ∷ claim 7 10 8 8 ∷ unused ∷ [])
    × (drop 3 l'.claims ≡ unused ∷ [])
unfolding placed
add_refines_example =
    add_refines quiet 2 (world_of two_claims) (claim 7 10 8 8) unused two_claims-IsValid
      (omega arith) refl

remove_refines_example :
    (l' : ClaimList) × (claim_remove_from_list quiet 5 2 (world_of three_claims)
      ≡ done (IpmResult.success, set_list 2 l' (world_of three_claims)))
    × IsValid l'
    × (live l' ≡ claim 6 11 16 8 ∷ claim 6 11 16 8 ∷ [])
    × (drop 2 l'.claims ≡ claim 7 10 20 8 ∷ unused ∷ [])
unfolding without
remove_refines_example =
    remove_refines quiet 2 (world_of three_claims) 5 three_claims-IsValid (omega arith)
      (0, claim 5 10 0 8, omega arith, refl, refl)

first_is_older :
    (k : ℕ) (c : MemoryClaim) → k + 1 < 2 → get_elem? two_claims.claims k ≡ some c → c.claim_id ≢ 6
first_is_older zero c lt e = ground arith
first_is_older (suc k) c lt e = absurd (omega (arith, lt))

no_seven : Lacks two_claims 7
no_seven zero c lt e = ground arith
no_seven (suc zero) c lt e = ground arith
no_seven (suc (suc k)) c lt e = absurd (omega (arith, lt))

remove_unknown_faults_example : claim_remove_from_list quiet 7 2 (world_of two_claims) ≡ fault
remove_unknown_faults_example =
    remove_unknown_faults quiet 7 2 (world_of two_claims) two_claims-IsValid (omega arith)
      (omega arith) no_seven

remove-add_example :
    (l1 l2 : ClaimList) × (claim_add_to_list quiet (claim 7 10 24 8) 2 (world_of two_claims)
      ≡ done (IpmResult.success, set_list 2 l1 (world_of two_claims)))
    × (claim_remove_from_list quiet 7 2 (set_list 2 l1 (world_of two_claims))
        ≡ done (IpmResult.success, set_list 2 l2 (world_of two_claims)))
    × (live l2 ≡ live two_claims)
remove-add_example =
    remove-add quiet (claim 7 10 24 8) 2 (world_of two_claims) two_claims-IsValid (omega arith)
      start_low no_seven

-- Counts nothing, and marks that it was called.
abbrev marks : MemoryClaim → World (Unit {0}) → Bool × World (Unit {0})
marks c w = (false, record w { errno = Errno.eintr })

marks-Walks : Walks marks
marks-Walks = record { goes_on = λ c w. refl; same_lists = λ c w. refl }

iterate_visits_live_example :
    claims_iterate quiet 2 marks (world_of two_claims)
    ≡ done (
      IpmResult.success,
      (ipm_mutex_unlock quiet
          (Mutex.list_mutex 2)
          (each marks (live two_claims) (world_of two_claims))).1,
    )
unfolding ipm_mutex_lock
iterate_visits_live_example =
    iterate_visits_live quiet 2 marks (world_of two_claims) (world_of two_claims) marks-Walks
      two_claims-IsValid (omega arith) refl refl

-- A build with NDEBUG, and a list without claims.
abbrev release : Posix (Unit {0})
release = record quiet { ndebug = true }

abbrev no_claims : ClaimList
no_claims = record two_claims { count = 0 }

abbrev spoilt : World (Unit {0})
spoilt = set_list 2 (wrapped release 2 (world_of no_claims)) (world_of no_claims)

emptied_list_dead_example :
    (claim_remove_from_list release 5 2 (world_of no_claims)
      ≡ done (IpmResult.err_invalid_claim, spoilt))
    × (claim_add_to_list release (claim 7 10 24 8) 2 (spoilt)
        ≡ done (
          IpmResult.err_list_size_mismatch,
          (ipm_mutex_unlock release (Mutex.list_mutex 2) (spoilt)).1,
        ))
    × (claims_iterate release 2 marks (spoilt) ≡ done (IpmResult.err_list_size_mismatch, spoilt))
emptied_list_dead_example =
    emptied_list_dead release 2 (world_of no_claims) 5 (claim 7 10 24 8) marks
      (record { slots = refl; within = omega arith; small = omega arith }) refl refl

filled_list_stuck_example :
    (l1 : ClaimList) × (claim_add_to_list quiet (claim 8 10 24 8) 2 (world_of three_claims)
      ≡ done (IpmResult.success, set_list 2 l1 (world_of three_claims)))
    × (claim_remove_from_list quiet 8 2 (set_list 2 l1 (world_of three_claims)) ≡ aborted)
    × (claims_iterate quiet 2 marks (set_list 2 l1 (world_of three_claims))
        ≡ done (IpmResult.success, set_list 2 l1 (world_of three_claims)))
filled_list_stuck_example =
    filled_list_stuck quiet (claim 8 10 24 8) 2 (world_of three_claims) 8 marks three_claims-IsValid
      refl refl

-- Stops at once.
abbrev stops : MemoryClaim → World (Unit {0}) → Bool × World (Unit {0})
stops c w = (true, w)
