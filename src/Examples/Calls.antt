-- ===== src/Examples/Calls.antt =====
-- Three calls on the claim list of a handle (source/ipm_memory.c), one after the other.
use ipm.Base.{◌≤◌, ◌<◌, false, ℕ, zero, suc, ◌≡◌, refl, some, arith, get_elem?}
use ipm.Error.{IpmResult}
use ipm.Layout.{MemoryClaim, read_only}
use ipm.System.{World, world_after}
use ipm.Platform.{ipm_mutex_lock, ipm_mutex_unlock, ipm_condition_signal}
use ipm.Claim.{claim_add_to_list, claim_remove_from_list, claims_conflict}
use ipm.Claim.Valid.{live}
use ipm.Memory.Region.{ipm_memory_claim_region, ipm_memory_release_region, ipm_memory_release_all}
use ipm.Common.{ipm_report_error}
use ipm.Memory.Region.Order.{InLive, Sound}
use ipm.Memory.Region.Calls.{ApiCalls, start, call, claims, releases, leaves, called_in_order}
use ipm.Examples.{quiet, claim, two_claims, two_claims-IsValid, world_of, handle}
use ipm.Examples.Regions.{granted_world}

-- Of two readers' claims at the places 0 and 1.
readers-Sound : Sound two_claims
unfolding claims_conflict
readers-Sound = record {
  valid = two_claims-IsValid;
  peace = λ c d (i, ec) (j, ed). peace i j c d ec ed;
  below = λ c (i, e). below i c e;
  ids = λ c d (i, ec) (j, ed) same. ids i j c d ec ed same;
}
  where
    peace :
        (i j : ℕ) (c d : MemoryClaim)
        → get_elem? (live two_claims) i ≡ some c
        → get_elem? (live two_claims) j ≡ some d
        → claims_conflict c d ≡ false
    peace zero zero c d ec ed = ground arith
    peace zero (suc zero) c d ec ed = ground arith
    peace (suc zero) zero c d ec ed = ground arith
    peace (suc zero) (suc zero) c d ec ed = ground arith
    peace (suc (suc i)) j c d ec ed = absurd (ground arith)
    peace i (suc (suc j)) c d ec ed = absurd (ground arith)

    below : (i : ℕ) (c : MemoryClaim) → get_elem? (live two_claims) i ≡ some c → c.claim_id < 7
    below zero c e = ground arith
    below (suc zero) c e = ground arith
    below (suc (suc i)) c e = absurd (ground arith)

    ids :
        (i j : ℕ) (c d : MemoryClaim)
        → get_elem? (live two_claims) i ≡ some c
        → get_elem? (live two_claims) j ≡ some d
        → c.claim_id ≡ d.claim_id
        → c.proc_id ≡ d.proc_id
    ids zero zero c d ec ed same = ground arith
    ids zero (suc zero) c d ec ed same = ground arith
    ids (suc zero) zero c d ec ed same = ground arith
    ids (suc zero) (suc zero) c d ec ed same = ground arith
    ids (suc (suc i)) j c d ec ed same = absurd (ground arith)
    ids i (suc (suc j)) c d ec ed same = absurd (ground arith)

-- The handle claims a region behind the two claims, releases the second of them, and leaves.
abbrev released_world : World (Unit {0})
released_world = world_after (ipm_memory_release_region quiet handle 6 granted_world) granted_world

abbrev last_world : World (Unit {0})
last_world = world_after (ipm_memory_release_all quiet 4 handle released_world) released_world

both_low : (c : MemoryClaim) → InLive two_claims c → c.offset ≤ 24
both_low c (zero, e) = ground arith
both_low c (suc zero, e) = ground arith
both_low c (suc (suc i), e) = absurd (ground arith)

three_calls : ApiCalls quiet (λ c w s. refl) 2 (world_of two_claims) last_world
unfolding ipm_memory_claim_region ipm_memory_release_region ipm_memory_release_all ipm_mutex_lock
    ipm_mutex_unlock ipm_condition_signal claim_add_to_list claim_remove_from_list claims_conflict
    ipm_report_error
three_calls =
    call
      (call
        (call start (claims handle read_only 24 8 3 7 (69632, refl) (omega arith) both_low refl))
        (releases handle 6 IpmResult.success (69632, refl) (omega arith)
          (1, claim 6 11 16 8, omega arith, refl, refl) refl))
      (leaves handle 4 IpmResult.success (69632, refl) (omega arith) (omega arith) refl)

called_in_order_example : Sound (last_world.lists 2)
called_in_order_example =
    called_in_order quiet (λ c w s. refl) 2 (world_of two_claims) last_world three_calls
      readers-Sound
