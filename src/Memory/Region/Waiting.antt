-- ===== src/Memory/Region/Waiting.antt =====
-- How long `ipm_memory_claim_region` waits, and what it has seen when it stops.
use ipm.Base.{ℕ, zero, suc, ◌<◌, ◌≡◌, ◌≢◌, ◌↔◌, true, false, some, arith, get_elem?, get_elem?-some}
use native.Mathlib.Decide.{dec_lt}
use ipm.Error.{IpmResult}
use ipm.Layout.{MemoryClaim, ClaimList}
use ipm.System.{Mutex, World, Posix, done}
use ipm.Platform.{ipm_condition_wait}
use ipm.Claim.{claims_conflict}
use ipm.Claim.Array.{Found, scan-Found, scan_misses}
use ipm.Claim.Valid.{IsValid}
use ipm.Memory.Region.{admits, await_turn}

-- What it means that a claim may join: room, and no conflict with a live claim.
pub record Admissible (claim : MemoryClaim) (l : ClaimList) : Type 0 where
  pub room : l.count ≢ l.capacity
  pub free :
      (k : ℕ) (c : MemoryClaim)
      → k < l.count
      → get_elem? l.claims k ≡ some c
      → claims_conflict claim c ≡ false

-- On a valid list, the test of the waiting loop accepts a claim exactly when the list has room and
-- the claim conflicts with no live one.
pub admits_iff :
    (claim : MemoryClaim) (l : ClaimList)
    → IsValid l
    → (admits claim l ≡ some true) ↔ Admissible claim l
unfolding admits
admits_iff claim l v =
    let (p, f) =
      scan-Found (claims_conflict claim) l.claims l.count (omega (arith, v.slots, v.within)) in
    (
      λ h. record {
        room = ground (arith, f.run);
        free = λ k c lt e. ground (arith, f.run, f.misses k c);
      },
      λ a. whole p f a,
    )
  where
    whole :
        (p : ℕ)
        → Found (claims_conflict claim) l.claims l.count p
        → Admissible claim l
        → admits claim l ≡ some true
    whole p f a = elim (dec_lt p l.count) [
      | yes lt ↦
          let (c, e) = get_elem?-some l.claims p (omega (arith, v.slots, v.within)) in
          absurd (ground (arith, f.hit c, a.free p c))
      | no ge ↦ ground (arith, f.run, f.within, a.room)
    ]

-- Of any list, valid or not.
pub admits-Admissible :
    (claim : MemoryClaim) (l : ClaimList) → admits claim l ≡ some true → Admissible claim l
unfolding admits
admits-Admissible claim l h = record {
  room = ground arith;
  free =
      λ k c lt e. ground (arith, scan_misses (claims_conflict claim) l.claims l.count l.count k c);
}

module _ {K : Type 0} (os : Posix K) (claim : MemoryClaim) (o : ℕ) where
  -- From `w`, after `n` waits that succeed, the claim may join, at `u`.
  pub data TurnAfter : ℕ → World K → World K → Type 0 where
    now : {w : World K} → admits claim (w.lists o) ≡ some true → TurnAfter 0 w w
    later :
        {n : ℕ} {w w' u : World K}
        → admits claim (w.lists o) ≡ some false
        → ipm_condition_wait os o (Mutex.list_mutex o) w ≡ (IpmResult.success, w')
        → TurnAfter n w' u
        → TurnAfter (suc n) w u

  pub TurnAfter-admits :
      {n : ℕ} {w u : World K} → TurnAfter n w u → admits claim (u.lists o) ≡ some true
  TurnAfter-admits (now free) = free
  TurnAfter-admits (later full waits t) = TurnAfter-admits t

  -- The wait ends with success as soon as the claim may join, if the fuel counts more rounds than
  -- there are waits.
  pub await_turn_returns :
      (fuel n : ℕ) {w u : World K}
      → TurnAfter n w u
      → n < fuel
      → await_turn os fuel claim o w ≡ done (IpmResult.success, u)
  unfolding await_turn
  await_turn_returns zero n t h = elim h [ ]
  await_turn_returns (suc fuel) n (now free) h = ground (arith, free)
  await_turn_returns (suc fuel) (suc n) (later full waits t) h =
      ground (arith, full, waits, await_turn_returns fuel n t (ground arith))

  -- And a wait that ends with success ends where the claim may join.
  pub await_turn-admits :
      (fuel : ℕ) (w u : World K)
      → await_turn os fuel claim o w ≡ done (IpmResult.success, u)
      → admits claim (u.lists o) ≡ some true
  unfolding await_turn
  await_turn-admits zero w u e = cc
  await_turn-admits (suc fuel) w u e =
      ground (arith, await_turn-admits fuel (ipm_condition_wait os o (Mutex.list_mutex o) w).1 u)
