-- ===== src/Claim/Spec.antt =====
-- What `claim_add_to_list` and `claim_remove_from_list` do to the claims as a list, with no array,
-- index or move: the claims that are live, and the slots behind them.
use ipm.Base.{
  ℕ, zero, suc, ◌+◌, ◌-◌, ◌<◌, ◌≤◌, ◌≡◌, List, [], ◌∷◌, none, some, arith, ltb, leb, ◌==◌,
  if◌then◌else◌, length, get_elem?, ◌&&◌, true, false, refl, ap, Bool, get_elem?-none,
}
use ipm.Layout.{MemoryClaim}
use ipm.Claim.Add.{after}
use ipm.Claim.Remove.{has_id}

-- The list with its last entry replaced.
pub replace_last : MemoryClaim → List MemoryClaim → List MemoryClaim
replace_last stale [] = []
replace_last stale (x ∷ []) = stale ∷ []
replace_last stale (x ∷ y ∷ xs) = x ∷ replace_last stale (y ∷ xs)

-- A new claim stands before the first that starts behind it. The claims from there on follow, but
-- in the place of the last stands what the slot behind the live ones held. With none behind the
-- new claim, it comes last.
unfoldable pub placed : MemoryClaim → MemoryClaim → List MemoryClaim → List MemoryClaim
unfolding replace_last
placed claim stale [] = claim ∷ []
placed claim stale (x ∷ xs) =
    let rest = placed claim stale xs in
    if ltb claim.offset x.offset then claim ∷ replace_last stale (x ∷ xs) else x ∷ rest

-- The claims behind a removed one: the last is dropped, and the one before it, which for a single
-- claim behind is the removed one itself, stands once more.
pub closed_up : MemoryClaim → List MemoryClaim → List MemoryClaim
closed_up x [] = []
closed_up x (y ∷ []) = x ∷ []
closed_up x (y ∷ z ∷ xs) = y ∷ closed_up y (z ∷ xs)

-- The first claim with the id is removed.
unfoldable pub without : ℕ → List MemoryClaim → List MemoryClaim
unfolding closed_up
without claim_id [] = []
without claim_id (x ∷ xs) =
    let rest = without claim_id xs in if claim_id == x.claim_id then closed_up x xs else x ∷ rest

get_elem?-replace_last :
    (stale : MemoryClaim) (xs : List MemoryClaim) (i : ℕ)
    → get_elem? (replace_last stale xs) i
      ≡ (if i + 1 == length xs then some stale else get_elem? xs i)
unfolding replace_last
get_elem?-replace_last stale [] i = ground arith
get_elem?-replace_last stale (x ∷ []) zero = ground arith
get_elem?-replace_last stale (x ∷ []) (suc i) = ground arith
get_elem?-replace_last stale (x ∷ y ∷ xs) zero = ground arith
get_elem?-replace_last stale (x ∷ y ∷ xs) (suc i) =
    ground (arith, get_elem?-replace_last stale (y ∷ xs) i)

get_elem?-closed_up :
    (x : MemoryClaim) (xs : List MemoryClaim) (i : ℕ)
    → get_elem? (closed_up x xs) i ≡ (
        if ltb i (length xs)
        then (if i + 1 == length xs then get_elem? (x ∷ xs) i else get_elem? xs i)
        else none)
unfolding closed_up
get_elem?-closed_up x [] i = ground arith
get_elem?-closed_up x (y ∷ []) zero = ground arith
get_elem?-closed_up x (y ∷ []) (suc i) = ground arith
get_elem?-closed_up x (y ∷ z ∷ xs) zero = ground arith
get_elem?-closed_up x (y ∷ z ∷ xs) (suc i) = ground (arith, get_elem?-closed_up y (z ∷ xs) i)

-- The first entry that passes the test, or the end.
pub record First (test : MemoryClaim → Bool) (xs : List MemoryClaim) (pos : ℕ) : Type 0 where
  pub within : pos ≤ length xs
  pub hit : (c : MemoryClaim) → get_elem? xs pos ≡ some c → test c ≡ true
  pub misses : (i : ℕ) (c : MemoryClaim) → i < pos → get_elem? xs i ≡ some c → test c ≡ false

First-later :
    (test : MemoryClaim → Bool) (x : MemoryClaim) (xs : List MemoryClaim) (pos : ℕ)
    → First test (x ∷ xs) (suc pos)
    → First test xs pos
First-later test x xs pos f = record {
  within = omega (arith, f.within);
  hit = λ c e. f.hit c e;
  misses = λ i c lt e. f.misses (suc i) c (omega arith) e;
}

-- Slot by slot: the claims from the new one's place on stand one slot further up.
pub get_elem?-placed :
    (claim stale : MemoryClaim) (xs : List MemoryClaim) (pos : ℕ)
    → First (after claim) xs pos
    → (i : ℕ)
    → get_elem? (placed claim stale xs) i ≡ (
        if i == pos
        then some claim
        else if ltb pos i && ltb i (length xs)
        then get_elem? xs (i - 1)
        else if ltb pos i && i == length xs
        then some stale
        else get_elem? xs i)
unfolding placed
get_elem?-placed claim stale [] pos f zero = ground (arith, f.within)
get_elem?-placed claim stale [] pos f (suc i) = ground (arith, f.within)
get_elem?-placed claim stale (x ∷ xs) zero f zero = ground (arith, f.hit x)
get_elem?-placed claim stale (x ∷ xs) zero f (suc i) =
    let front : placed claim stale (x ∷ xs) ≡ claim ∷ replace_last stale (x ∷ xs) =
      rw (f.hit x refl) in
    let slot : get_elem? (placed claim stale (x ∷ xs)) (suc i)
        ≡ get_elem? (replace_last stale (x ∷ xs)) i =
      ap (λ (ys : List MemoryClaim). get_elem? ys (suc i)) front in
    ground (
      arith,
      slot,
      get_elem?-replace_last stale (x ∷ xs) i,
      get_elem?-none (x ∷ xs) i,
      get_elem?-none xs i,
    )
get_elem?-placed claim stale (x ∷ xs) (suc pos) f zero =
    ground (arith, f.misses 0 x (omega arith) refl)
get_elem?-placed claim stale (x ∷ xs) (suc pos) f (suc zero) = ground (
  arith,
  f.misses 0 x (omega arith) refl,
  get_elem?-placed claim stale xs pos (First-later (after claim) x xs pos f) zero,
)
get_elem?-placed claim stale (x ∷ xs) (suc pos) f (suc (suc i)) = ground (
  arith,
  f.misses 0 x (omega arith) refl,
  get_elem?-placed claim stale xs pos (First-later (after claim) x xs pos f) (suc i),
)

-- Slot by slot: the claims behind the removed one stand one slot further down, all but the last.
pub get_elem?-without :
    (claim_id : ℕ) (xs : List MemoryClaim) (pos : ℕ)
    → First (has_id claim_id) xs pos
    → pos < length xs
    → (i : ℕ)
    → get_elem? (without claim_id xs) i ≡ (
        if leb (length xs) (i + 1)
        then none
        else if leb pos i && ltb (i + 2) (length xs)
        then get_elem? xs (i + 1)
        else get_elem? xs i)
unfolding without
get_elem?-without claim_id [] pos f lt i = elim lt [ ]
get_elem?-without claim_id (x ∷ xs) zero f lt i =
    ground (arith, f.hit x refl, get_elem?-closed_up x xs i)
get_elem?-without claim_id (x ∷ xs) (suc pos) f lt zero =
    ground (arith, f.misses 0 x (omega arith) refl)
get_elem?-without claim_id (x ∷ xs) (suc pos) f lt (suc i) = ground (
  arith,
  f.misses 0 x (omega arith) refl,
  get_elem?-without claim_id xs pos (First-later (has_id claim_id) x xs pos f) (omega arith) i,
)
