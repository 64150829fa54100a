-- ===== src/Claim/Conflict.antt =====
-- What two claims that conflict have to do with each other.
use ipm.Base.{ℕ, ◌+◌, ◌^◌, ◌≤◌, ◌<◌, ◌≡◌, ◌≢◌, ◌↔◌, true, false, not, ◌&&◌, arith, ◌==◌}
use ipm.Layout.{MemoryClaim}
use ipm.Claim.{is_read_only, claims_conflict, claim_encompasses_other}

-- The bytes of a claim's region.
abbrev pub Covers : MemoryClaim → ℕ → Type 0
Covers c b = (c.offset ≤ b) × (b < c.offset + c.size)

-- The region ends inside the address space.
abbrev pub Fits : MemoryClaim → Type 0
Fits c = c.offset + c.size < 2 ^ 64

-- Two claims of different handles that share a byte, one of them for writing, conflict, if neither
-- region's end wraps round.
pub overlap_conflicts :
    (c d : MemoryClaim) (b : ℕ)
    → Fits c
    → Fits d
    → c.proc_id ≢ d.proc_id
    → is_read_only c.access && is_read_only d.access ≡ false
    → Covers c b
    → Covers d b
    → claims_conflict c d ≡ true
unfolding claims_conflict
overlap_conflicts c d b fc fd procs modes hc hd = ground arith

-- The order of the two claims does not matter.
pub claims_conflict_comm : (c d : MemoryClaim) → claims_conflict c d ≡ claims_conflict d c
unfolding claims_conflict
claims_conflict_comm c d = ground arith

-- A claim does not conflict with itself.
pub claims_conflict_self : (c : MemoryClaim) → claims_conflict c c ≡ false
unfolding claims_conflict
claims_conflict_self c = ground arith

-- Between claims that are not empty and do not wrap, where the regions lie makes no difference: a
-- conflict is two handles of which one writes.
pub conflict_ignores_regions :
    (c d : MemoryClaim)
    → Fits c
    → Fits d
    → 0 < c.size
    → 0 < d.size
    → claims_conflict c d
      ≡ (not (c.proc_id == d.proc_id) && not (is_read_only c.access && is_read_only d.access))
unfolding claims_conflict
conflict_ignores_regions c d fc fd sc sd = ground arith

-- A claim that is said to encompass another, and starts elsewhere, misses the other's first byte.
encompasses_misses :
    (c d : MemoryClaim)
    → claim_encompasses_other c d ≡ true
    → c.offset ≢ d.offset
    → ¬ Covers c d.offset
unfolding claim_encompasses_other
encompasses_misses c d e ne h = ground arith

-- Of two claims that start together and do not wrap, one is said to encompass the other exactly
-- when both are of one handle and one mode, and it covers all that the other covers.
encompasses_iff :
    (c d : MemoryClaim)
    → Fits c
    → Fits d
    → c.offset ≡ d.offset
    → (claim_encompasses_other c d ≡ true)
      ↔ ((c.proc_id ≡ d.proc_id) × (c.access ≡ d.access) × (d.size ≤ c.size))
unfolding claim_encompasses_other
encompasses_iff c d fc fd e = (λ h. ground arith, λ h. ground arith)
