-- ===== src/Memory/Region/Obstacle.antt =====
-- A live claim in the way of another, and the list when it is released (source/ipm_memory.c).
use native.Mathlib.Decide.{dec_lt}
use ipm.Base.{
  ℕ, ◌+◌, ◌<◌, ◌≡◌, ◌≢◌, true, false, some, arith, get_elem?, get_elem?-some, Bool-cases, inl, inr,
}
use ipm.Layout.{MemoryClaim, ClaimList}
use ipm.Claim.{claims_conflict}
use ipm.Claim.Array.{scan-Found}
use ipm.Claim.Valid.{IsValid}
use ipm.Claim.Remove.{Cut, shrunk}
use ipm.Claim.Remove.Results.{Holds}
use ipm.Memory.Region.{admits}
use ipm.Memory.Region.Waiting.{Admissible}

-- One live claim keeps the new one waiting: it conflicts with it, no other does, it is the only one
-- with its id, and it is not the last live claim but one.
pub record Obstacle (claim : MemoryClaim) (claim_id : ℕ) (l : ClaimList) : Type 0 where
  pub index : ℕ
  pub held : MemoryClaim
  pub inside : index < l.count
  pub there : get_elem? l.claims index ≡ some held
  pub id : held.claim_id ≡ claim_id
  pub conflicts : claims_conflict claim held ≡ true
  pub alone :
      (k : ℕ) (c : MemoryClaim)
      → k < l.count
      → get_elem? l.claims k ≡ some c
      → c.claim_id ≡ claim_id
      → k ≡ index
  pub sole :
      (k : ℕ) (c : MemoryClaim)
      → k < l.count
      → get_elem? l.claims k ≡ some c
      → claims_conflict claim c ≡ true
      → k ≡ index
  pub place : index + 2 ≢ l.count

module _ (claim : MemoryClaim) (claim_id : ℕ) (l : ClaimList) (v : IsValid l)
    (b : Obstacle claim claim_id l) where
  pub Obstacle-admits : admits claim l ≡ some false
  unfolding admits
  Obstacle-admits =
      let (p, f) =
        scan-Found (claims_conflict claim) l.claims l.count (omega (arith, v.slots, v.within)) in
      elim (dec_lt p l.count) [
        | yes lt ↦ ground (arith, f.run)
        | no ge ↦
            absurd
              (ground (arith, f.misses b.index b.held, f.within, b.inside, b.there, b.conflicts))
      ]

  pub Obstacle-Holds : Holds l claim_id
  Obstacle-Holds = (b.index, b.held, b.inside, b.there, b.id)

  Cut-pos : (c : Cut claim_id l.count l.claims) → c.pos ≡ b.index
  Cut-pos c = elim (dec_lt c.pos l.count) [
    | no ge ↦ absurd (omega (arith, c.inside))
    | yes lt ↦
        let (x, e) = slot c.pos lt in b.alone c.pos x lt e (ground (arith, c.found.hit x lt e))
  ]
    where
      slot : (i : ℕ) → i < l.count → (x : MemoryClaim) × (get_elem? l.claims i ≡ some x)
      slot i lt = get_elem?-some l.claims i (omega (arith, v.slots, v.within))

  -- With the obstacle gone the claim may join.
  pub shrunk-Admissible :
      (c : Cut claim_id l.count l.claims) → l.count < l.capacity → Admissible claim (shrunk l c.ys)
  shrunk-Admissible c room = record {
    room = omega (arith, c.inside);
    free = λ k d lt e. elim (Bool-cases (claims_conflict claim d)) [
      | inr free ↦ free
      | inl clash ↦ absurd (elim (dec_lt k c.pos) [
        | yes before ↦ ground (
          arith,
          Cut-pos c,
          c.removal.slot k,
          b.sole k d (omega arith) (ground (arith, c.removal.slot k)) clash,
        )
        | no from ↦ elim (dec_lt (k + 2) l.count) [
          | yes moved ↦ omega (
            arith,
            Cut-pos c,
            b.sole (k + 1) d (omega arith) (ground (arith, c.removal.slot k)) clash,
          )
          | no last ↦ omega (
            arith,
            Cut-pos c,
            b.place,
            b.sole k d (omega arith) (ground (arith, c.removal.slot k)) clash,
          )
        ]
      ])
    ];
  }
