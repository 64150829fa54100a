-- ===== src/Claim/Add.antt =====
-- What `claim_add_to_list` does to a list with room.
pub mod Results
use ipm.Base.{
  ℕ, zero, suc, ◌+◌, ◌-◌, ◌^◌, ◌≤◌, ◌<◌, ◌≡◌, ◌≢◌, refl, ◌⊎◌, inl, inr, Bool, true, false, ◌&&◌,
  List, [], ◌∷◌, ◌++◌, none, some, arith, ltb, leb, ◌==◌, if◌then◌else◌, length, take, set,
  get_elem?, length-set, length-take, get_elem?-append, get_elem?-take, get_elem?-set, list_ext,
}
use native.Mathlib.Decide.{dec_lt}
use ipm.Error.{IpmResult}
use ipm.Layout.{MemoryClaim, ClaimList, u64}
use ipm.System.{World, Posix, Outcome, done, aborted, M, set_list, ◌>>=◌}
use ipm.Claim.{shift_up, inserted, claim_add_to_list}
use ipm.Claim.Array.{
  Found, scan-Found, moved, memmove-moved, length-moved, get_elem?-moved, write-set,
}
use ipm.Claim.Valid.{live, IsValid, Sorted}

-- The place for a claim: the first live entry with a greater offset, or the end.
abbrev pub after : MemoryClaim → MemoryClaim → Bool
after claim c = ltb claim.offset c.offset

-- The array after a claim went in at `pos`: the slots between `pos` and `count` move up by one, and
-- slot `count` is written only if it is `pos`.
pub record Insertion (claim : MemoryClaim) (count pos : ℕ) (xs ys : List MemoryClaim) : Type 0 where
  pub same_length : length ys ≡ length xs
  pub slot :
      (i : ℕ)
      → get_elem? ys i ≡ (
          if i == pos
          then some claim
          else if ltb pos i && ltb i count
          then get_elem? xs (i - 1)
          else get_elem? xs i)

shift_up-moved :
    (pos count : ℕ) (xs : List MemoryClaim)
    → pos < count
    → count < length xs
    → length xs < 2 ^ 31
    → shift_up pos count xs ≡ some (moved (pos + 1) pos (count - pos - 1) xs)
unfolding shift_up
shift_up-moved pos count xs lt room small =
    let n : u64 (count + 2 ^ 64 - pos - 1) ≡ count - pos - 1 = omega arith in
    ground (arith, n, memmove-moved (pos + 1) pos (count - pos - 1) xs)

shift_up_end :
    (pos count : ℕ) (xs : List MemoryClaim) → pos ≡ count → shift_up pos count xs ≡ some xs
unfolding shift_up
shift_up_end pos count xs e = ground arith

Insertion-middle :
    (claim : MemoryClaim) (pos count : ℕ) (xs : List MemoryClaim)
    → pos < count
    → count < length xs
    → Insertion claim count pos xs (set (moved (pos + 1) pos (count - pos - 1) xs) pos claim)
Insertion-middle claim pos count xs lt room = record {
  same_length = rw (length-set, len);
  slot = λ i. ground (
    arith,
    len,
    get_elem?-set (moved (pos + 1) pos (count - pos - 1) xs) pos claim i,
    get_elem?-moved (pos + 1) pos (count - pos - 1) xs i,
  );
}
  where
    len : length (moved (pos + 1) pos (count - pos - 1) xs) ≡ length xs
    len = length-moved (pos + 1) pos (count - pos - 1) xs (omega arith) (omega arith)

Insertion-end :
    (claim : MemoryClaim) (pos count : ℕ) (xs : List MemoryClaim)
    → pos ≡ count
    → count < length xs
    → Insertion claim count pos xs (set xs pos claim)
Insertion-end claim pos count xs e room = record {
  same_length = length-set xs pos claim;
  slot = λ i. ground (arith, get_elem?-set xs pos claim i);
}

-- Where the claim goes, and the array that results.
pub record Put (claim : MemoryClaim) (count : ℕ) (xs : List MemoryClaim) : Type 0 where
  pub pos : ℕ
  pub ys : List MemoryClaim
  pub found : Found (after claim) xs count pos
  pub runs : inserted claim count xs ≡ some ys
  pub insertion : Insertion claim count pos xs ys

pub inserted-Put :
    (claim : MemoryClaim) (count : ℕ) (xs : List MemoryClaim)
    → count < length xs
    → length xs < 2 ^ 31
    → Put claim count xs
unfolding inserted
inserted-Put claim count xs room small =
    let (p, f) = scan-Found (after claim) xs count (omega arith) in split p f
  where
    split : (p : ℕ) → Found (after claim) xs count p → Put claim count xs
    split p f = elim (dec_lt p count) [
      | yes lt ↦ record {
        pos = p;
        ys = set (moved (p + 1) p (count - p - 1) xs) p claim;
        found = f;
        runs = ground (
          arith,
          f.run,
          shift_up-moved p count xs lt room small,
          length-moved (p + 1) p (count - p - 1) xs,
          write-set p claim (moved (p + 1) p (count - p - 1) xs),
        );
        insertion = Insertion-middle claim p count xs lt room;
      }
      | no ge ↦ record {
        pos = p;
        ys = set xs p claim;
        found = f;
        runs = ground (arith, f.run, f.within, shift_up_end p count xs, write-set p claim xs);
        insertion = Insertion-end claim p count xs (omega (arith, f.within)) room;
      }
    ]

-- The list with the new array.
abbrev pub grown : ClaimList → List MemoryClaim → ClaimList
grown l ys = record l { claims = ys; count = l.count + 1 }

-- A call on a list with room returns success, and writes the list of `Put`.
module _ {K : Type 0} (os : Posix K) (claim : MemoryClaim) (o : ℕ) (w : World K) where
  pub add_runs :
      (v : IsValid (w.lists o)) (room : (w.lists o).count < (w.lists o).capacity)
      (p : Put claim (w.lists o).count (w.lists o).claims)
      → claim_add_to_list os claim o w
        ≡ done (IpmResult.success, set_list o (grown (w.lists o) p.ys) w)
  unfolding claim_add_to_list
  add_runs v room p = ground (arith, p.runs)
