-- ===== src/Claim/Array.antt =====
-- The search, the move and the write that the claim list is made of, slot by slot.
use ipm.Base.{
  ℕ, zero, suc, ◌+◌, ◌-◌, ◌≤◌, ◌<◌, ◌≡◌, refl, Bool, true, false, ◌&&◌, List, [], ◌∷◌, ◌++◌, none,
  some, arith, ltb, leb, if◌then◌else◌, length, take, drop, set, get_elem?, length-append,
  length-take, length-drop, get_elem?-append, get_elem?-take, get_elem?-drop,
}
use ipm.Layout.{MemoryClaim}
use ipm.Claim.{scan, memmove, write}

-- What a search finds below `n`.
pub record Found (test : MemoryClaim → Bool) (xs : List MemoryClaim) (n pos : ℕ) : Type 0 where
  pub run : scan test xs n ≡ some pos
  pub within : pos ≤ n
  pub hit : (c : MemoryClaim) → pos < n → get_elem? xs pos ≡ some c → test c ≡ true
  pub misses : (i : ℕ) (c : MemoryClaim) → i < pos → get_elem? xs i ≡ some c → test c ≡ false

scan-Found_later :
    (test : MemoryClaim → Bool) (x : MemoryClaim) (xs : List MemoryClaim) (n pos : ℕ)
    → test x ≡ false
    → Found test xs n pos
    → Found test (x ∷ xs) (suc n) (suc pos)
unfolding scan
scan-Found_later test x xs n pos miss f = record {
  run = ground (arith, f.run);
  within = omega (arith, f.within);
  hit = λ c lt e. f.hit c (ground arith) e;
  misses = later;
}
  where
    later : (i : ℕ) (c : MemoryClaim) → i < suc pos → get_elem? (x ∷ xs) i ≡ some c → test c ≡ false
    later zero c lt e = ground arith
    later (suc i) c lt e = f.misses i c (ground arith) e

-- Inside the array the search ends, at the first hit or at `n`.
pub scan-Found :
    (test : MemoryClaim → Bool) (xs : List MemoryClaim) (n : ℕ)
    → n ≤ length xs
    → (pos : ℕ) × Found test xs n pos
unfolding scan
scan-Found test xs zero h = (
  0,
  record {
    run = refl;
    within = omega arith;
    hit = λ c lt e. elim lt [ ];
    misses = λ i c lt e. elim lt [ ];
  },
)
scan-Found test [] (suc n) h = elim h [ ]
scan-Found test (x ∷ xs) (suc n) h = split (test x) refl (scan-Found test xs n (ground arith))
  where
    split :
        (b : Bool)
        → test x ≡ b
        → ((pos : ℕ) × Found test xs n pos)
        → (pos : ℕ) × Found test (x ∷ xs) (suc n) pos
    split true e rest = (
      0,
      record {
        run = ground arith;
        within = omega arith;
        hit = λ c lt q. ground arith;
        misses = λ i c lt q. elim lt [ ];
      },
    )
    split false e (pos, f) = (suc pos, scan-Found_later test x xs n pos e f)

-- Whatever the array, a search that ends has met no hit before.
pub scan_misses :
    (test : MemoryClaim → Bool) (xs : List MemoryClaim) (n pos i : ℕ) (c : MemoryClaim)
    → scan test xs n ≡ some pos
    → i < pos
    → get_elem? xs i ≡ some c
    → test c ≡ false
unfolding scan
scan_misses test xs zero pos i c e lt q = absurd (ground arith)
scan_misses test [] (suc n) pos i c e lt q = cc
scan_misses test (x ∷ xs) (suc n) pos zero c e lt q = ground arith
scan_misses test (x ∷ xs) (suc n) zero (suc i) c e lt q = elim lt [ ]
scan_misses test (x ∷ xs) (suc n) (suc pos) (suc i) c e lt q =
    ground (arith, scan_misses test xs n pos i c)

-- A move inside the array.
pub moved : ℕ → ℕ → ℕ → List MemoryClaim → List MemoryClaim
moved dst src n xs = take dst xs ++ (take n (drop src xs) ++ drop (dst + n) xs)

pub memmove-moved :
    (dst src n : ℕ) (xs : List MemoryClaim)
    → dst + n ≤ length xs
    → src + n ≤ length xs
    → memmove dst src n xs ≡ some (moved dst src n xs)
unfolding memmove moved
memmove-moved dst src n xs hd hs = ground arith

pub memmove_outside :
    (dst src n : ℕ) (xs : List MemoryClaim) → length xs < src + n → memmove dst src n xs ≡ none
unfolding memmove
memmove_outside dst src n xs h = ground arith

pub length-moved :
    (dst src n : ℕ) (xs : List MemoryClaim)
    → dst + n ≤ length xs
    → src + n ≤ length xs
    → length (moved dst src n xs) ≡ length xs
unfolding moved
length-moved dst src n xs hd hs = omega (
  arith,
  length-append (take dst xs) (take n (drop src xs) ++ drop (dst + n) xs),
  length-append (take n (drop src xs)) (drop (dst + n) xs),
  length-take dst xs,
  length-take n (drop src xs),
  length-drop src xs,
  length-drop (dst + n) xs,
)

-- A slot that the move writes has what stood `src - dst` further, and any other is left alone.
pub get_elem?-moved :
    (dst src n : ℕ) (xs : List MemoryClaim) (i : ℕ)
    → dst + n ≤ length xs
    → src + n ≤ length xs
    → get_elem? (moved dst src n xs) i
      ≡ (if leb dst i && ltb i (dst + n) then get_elem? xs (src + (i - dst)) else get_elem? xs i)
unfolding moved
get_elem?-moved dst src n xs i hd hs = ground (
  arith,
  get_elem?-append (take dst xs) (take n (drop src xs) ++ drop (dst + n) xs) i,
  get_elem?-append (take n (drop src xs)) (drop (dst + n) xs) (i - dst),
  get_elem?-take dst xs i,
  get_elem?-take n (drop src xs) (i - dst),
  get_elem?-drop src xs (i - dst),
  get_elem?-drop (dst + n) xs (i - dst - n),
  length-take dst xs,
  length-take n (drop src xs),
  length-drop src xs,
)

pub write-set :
    (i : ℕ) (c : MemoryClaim) (xs : List MemoryClaim)
    → i < length xs
    → write i c xs ≡ some (set xs i c)
unfolding write
write-set i c xs h = ground arith
