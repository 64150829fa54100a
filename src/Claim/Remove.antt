-- ===== src/Claim/Remove.antt =====
-- What `claim_remove_from_list` does to a list.
pub mod Results
use mathlib.Core.Path.{fun_ext}
use native.Mathlib.Decide.{dec_lt}
use ipm.Base.{
  ℕ, ◌+◌, ◌-◌, ◌^◌, ◌≤◌, ◌<◌, ◌≡◌, ◌≢◌, refl, Bool, true, false, ◌&&◌, List, none, some, arith, ltb,
  leb, ◌==◌, ==_iff, if◌then◌else◌, length, get_elem?, get_elem?-some,
}
use ipm.Error.{IpmResult}
use ipm.Layout.{MemoryClaim, ClaimList, u32, u64}
use ipm.System.{World, Posix, Outcome, done, fault, set_list, update, ◌>>=◌}
use ipm.Claim.{removed, claim_remove_from_list}
use ipm.Claim.Array.{
  Found, scan-Found, moved, memmove-moved, memmove_outside, length-moved, get_elem?-moved,
}
use ipm.Claim.Valid.{IsValid}

abbrev pub has_id : ℕ → MemoryClaim → Bool
has_id claim_id c = claim_id == c.claim_id

-- The array after the entry at `pos` went: each slot from `pos` on takes the next one's entry, up
-- to the last live slot but two.
pub record Removal (count pos : ℕ) (xs ys : List MemoryClaim) : Type 0 where
  pub same_length : length ys ≡ length xs
  pub slot :
      (i : ℕ)
      → get_elem? ys i
        ≡ (if leb pos i && ltb (i + 2) count then get_elem? xs (i + 1) else get_elem? xs i)

Removal-moved :
    (count pos : ℕ) (xs : List MemoryClaim)
    → pos + 1 < count
    → count ≤ length xs
    → Removal count pos xs (moved pos (pos + 1) (count - pos - 2) xs)
Removal-moved count pos xs lt h = record {
  same_length = length-moved pos (pos + 1) (count - pos - 2) xs (omega arith) (omega arith);
  slot = λ i. ground (arith, get_elem?-moved pos (pos + 1) (count - pos - 2) xs i);
}

Removal-none : (count pos : ℕ) (xs : List MemoryClaim) → count ≤ pos + 1 → Removal count pos xs xs
Removal-none count pos xs h = record { same_length = refl; slot = λ i. ground arith }

-- The entry that goes, and the array that results.
pub record Cut (claim_id count : ℕ) (xs : List MemoryClaim) : Type 0 where
  pub pos : ℕ
  pub ys : List MemoryClaim
  pub found : Found (has_id claim_id) xs count pos
  pub inside : pos < count
  pub runs : removed claim_id count xs ≡ some (IpmResult.success, ys)
  pub removal : Removal count pos xs ys

-- Some live entry has the id.
pub removed-Cut :
    (claim_id count : ℕ) (xs : List MemoryClaim)
    → count ≤ length xs
    → length xs < 2 ^ 31
    → (k : ℕ) (c : MemoryClaim) → k < count
    → get_elem? xs k ≡ some c
    → c.claim_id ≡ claim_id
    → Cut claim_id count xs
unfolding removed
removed-Cut claim_id count xs h small k c lt e id =
    let (p, f) = scan-Found (has_id claim_id) xs count h in split p f
  where
    inner : (p : ℕ) → Found (has_id claim_id) xs count p → p < count
    inner p f = elim (dec_lt p count) [ yes i ↦ i | no ge ↦ absurd (ground (arith, f.misses k c)) ]

    split : (p : ℕ) → Found (has_id claim_id) xs count p → Cut claim_id count xs
    split p f = elim (dec_lt (p + 1) count) [
      | yes more ↦ record {
        pos = p;
        ys = moved p (p + 1) (count - p - 2) xs;
        found = f;
        inside = inner p f;
        runs =
            let n : u32 (count + 2 ^ 32 - p - 2) ≡ count - p - 2 = omega arith in
            ground (arith, f.run, n, memmove-moved p (p + 1) (count - p - 2) xs);
        removal = Removal-moved count p xs more h;
      }
      | no last ↦ record {
        pos = p;
        ys = xs;
        found = f;
        inside = inner p f;
        runs = ground (arith, f.run, inner p f);
        removal = Removal-none count p xs (omega arith);
      }
    ]

-- No live entry has the id: the move would start past the entries and run over the array's end.
pub removed_outside :
    (claim_id count : ℕ) (xs : List MemoryClaim)
    → count ≤ length xs
    → length xs < 2 ^ 31
    → ((k : ℕ) (c : MemoryClaim) → k < count → get_elem? xs k ≡ some c → c.claim_id ≢ claim_id)
    → removed claim_id count xs ≡ none
unfolding removed
removed_outside claim_id count xs h small absent =
    let (p, f) = scan-Found (has_id claim_id) xs count h in split p f
  where
    split : (p : ℕ) → Found (has_id claim_id) xs count p → removed claim_id count xs ≡ none
    split p f = elim (dec_lt p count) [
      | yes lt ↦
          let (c, e) = get_elem?-some xs p (omega arith) in
          absurd (ground (arith, f.hit c, absent p c))
      | no ge ↦
          let n : u32 (count + 2 ^ 32 - p - 2) ≡ 2 ^ 32 - 2 = omega (arith, f.within) in
          ground (arith, f.run, f.within, n, memmove_outside p (p + 1) (2 ^ 32 - 2) xs)
    ]

-- The list with the new array.
abbrev pub shrunk : ClaimList → List MemoryClaim → ClaimList
shrunk l ys = record l { claims = ys; count = l.count - 1 }

pub set_list-set_list :
    {K : Type 0} (o : ℕ) (a b : ClaimList) (w : World K)
    → set_list o b (set_list o a w) ≡ set_list o b w
set_list-set_list o a b w =
    let same : update (update w.lists o a) o b ≡ update w.lists o b = fun_ext (λ j. ground arith) in
    λ i. record w { lists = same i }

pub set_list_self : {K : Type 0} (o : ℕ) (w : World K) → set_list o (w.lists o) w ≡ w
set_list_self o w =
    let same : update w.lists o (w.lists o) ≡ w.lists = fun_ext (λ j. ground arith) in
    λ i. record w { lists = same i }

pub lists-set_list :
    {K : Type 0} (o : ℕ) (l : ClaimList) (w : World K) → (set_list o l w).lists o ≡ l
lists-set_list o l w = ground arith

module _ {K : Type 0} (os : Posix K) (claim_id o : ℕ) (w : World K) where
  pub remove_runs :
      IsValid (w.lists o)
      → (w.lists o).count < (w.lists o).capacity
      → (c : Cut claim_id (w.lists o).count (w.lists o).claims)
      → claim_remove_from_list os claim_id o w
        ≡ done (IpmResult.success, set_list o (shrunk (w.lists o) c.ys) w)
  unfolding claim_remove_from_list
  remove_runs v room c =
      let l = w.lists o in
      let n : u32 l.count ≡ l.count = omega (arith, v.small) in
      let less : u64 (l.count + 2 ^ 64 - 1) ≡ l.count - 1 = omega (arith, v.small, c.inside) in
      ground (
        arith,
        n,
        less,
        c.runs,
        c.inside,
        set_list-set_list o (record l { count = l.count - 1 }) (shrunk l c.ys) w,
      )
