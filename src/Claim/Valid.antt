-- ===== src/Claim/Valid.antt =====
-- The shape of a claim list, and what its live entries are.
use ipm.Base.{ℕ, ◌+◌, ◌^◌, ◌≤◌, ◌<◌, ◌≡◌, List, some, take, length, get_elem?}
use ipm.Layout.{MemoryClaim, ClaimList}

-- The claims that count: the first `count` slots.
abbrev pub live : ClaimList → List MemoryClaim
live l = take l.count l.claims

-- The array has `capacity` slots, `count` of them in use, and an `unsigned` can number them.
pub record IsValid (l : ClaimList) : Type 0 where
  pub slots : length l.claims ≡ l.capacity
  pub within : l.count ≤ l.capacity
  pub small : l.capacity < 2 ^ 31

-- Among the first `n` slots the offsets never fall.
abbrev pub Sorted : ℕ → List MemoryClaim → Type 0
Sorted n xs =
    (i : ℕ) (c d : MemoryClaim)
    → i + 1 < n
    → get_elem? xs i ≡ some c
    → get_elem? xs (i + 1) ≡ some d
    → c.offset ≤ d.offset
