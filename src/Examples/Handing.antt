-- ===== src/Examples/Handing.antt =====
-- A claim that waits for another to be released (source/ipm_memory.c).
use ipm.Base.{◌<◌, [], ◌∷◌, ℕ, zero, suc, ◌≡◌, refl, true, some, arith, get_elem?}
use ipm.Error.{IpmResult}
use ipm.Layout.{MemoryClaim, ClaimList, read_only}
use ipm.System.{Errno, Call, Posix, Mutex, World, done, set_list, world_after}
use ipm.Platform.{ipm_mutex_lock, ipm_mutex_unlock, ipm_condition_wait, ipm_condition_signal}
use ipm.Claim.{claim_remove_from_list, claims_conflict}
use ipm.Claim.Valid.{live, IsValid}
use ipm.Memory.{IpmMemory}
use ipm.Memory.Region.{ipm_memory_claim_region, ipm_memory_release_region}
use ipm.Memory.Region.Claiming.{numbered}
use ipm.Memory.Region.Handover.{handover}
use ipm.Memory.Region.Obstacle.{Obstacle}
use ipm.Examples.{writer, unused, block_at, quiet, claim, two_claims, world_of, handle}

-- A claim of the handle 11 for writing keeps others out.
abbrev written : ClaimList
written = record two_claims { claims = claim 5 10 0 8 ∷ writer 6 11 16 8 ∷ unused ∷ unused ∷ [] }

abbrev waiter : IpmMemory (Unit {0})
waiter = record handle { real_memory = record (block_at 1) { access_id = 12 } }

-- The handle that waits has taken its id.
abbrev waiting : World (Unit {0})
waiting = numbered quiet waiter read_only 24 8 2 (world_of written)

-- What the release of the claim leaves.
abbrev freed : World (Unit {0})
freed = world_after (ipm_memory_release_region quiet handle 6 waiting) waiting

-- During a wait on a condition variable another process releases that claim.
abbrev waking_call : Call → World (Unit {0}) → Errno × World (Unit {0})
waking_call (Call.pthread_cond_wait cnd mtx) w = (Errno.ok, freed)
waking_call _ w = (Errno.ok, w)

abbrev waking : Posix (Unit {0})
waking = record quiet { call = waking_call }

written-Obstacle : Obstacle (claim 7 12 24 8) 6 (waiting.lists 2)
unfolding claims_conflict
written-Obstacle = record {
  index = 1;
  held = writer 6 11 16 8;
  inside = omega arith;
  there = refl;
  id = refl;
  conflicts = refl;
  alone = alone;
  sole = sole;
  place = omega arith;
}
  where
    alone :
        (k : ℕ) (c : MemoryClaim)
        → k < 2
        → get_elem? written.claims k ≡ some c
        → c.claim_id ≡ 6
        → k ≡ 1
    alone zero c lt e id = absurd (ground arith)
    alone (suc zero) c lt e id = refl
    alone (suc (suc k)) c lt e id = absurd (omega (arith, lt))

    sole :
        (k : ℕ) (c : MemoryClaim)
        → k < 2
        → get_elem? written.claims k ≡ some c
        → claims_conflict (claim 7 12 24 8) c ≡ true
        → k ≡ 1
    sole zero c lt e clash = absurd (ground arith)
    sole (suc zero) c lt e clash = refl
    sole (suc (suc k)) c lt e clash = absurd (omega (arith, lt))

handover_example :
    (released : World (Unit {0})) × (l' : ClaimList) × (pos : ℕ) × (ipm_memory_release_region waking
        handle 6 waiting
      ≡ done (IpmResult.success, released))
    × (ipm_memory_claim_region waking 2 waiter read_only 24 8 (world_of written)
        ≡ done (
          (IpmResult.success, some 7),
          (ipm_mutex_unlock waking (Mutex.list_mutex 2) (set_list 2 l' freed)).1,
        ))
    × IsValid l'
    × (l'.count ≡ 2)
    × (get_elem? (live l') pos ≡ some (claim 7 12 24 8))
unfolding ipm_mutex_lock ipm_condition_wait ipm_memory_release_region ipm_condition_signal
    ipm_mutex_unlock claim_remove_from_list
handover_example =
    handover waking 2 (λ v. refl) (λ v. refl) waiter handle read_only 24 8 6 2 69632 69632
      (world_of written) (world_of written) waiting waiting freed refl refl
      (record { mode = refl; inside = omega arith }) (omega arith) (omega arith) refl
      (record { slots = refl; within = omega arith; small = omega arith }) (omega arith)
      written-Obstacle refl refl refl refl
