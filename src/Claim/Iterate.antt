-- ===== src/Claim/Iterate.antt =====
-- Whom `claims_iterate` shows the list to.
pub mod Stopping
use ipm.Base.{
  ℕ, zero, suc, ◌+◌, ◌≤◌, ◌<◌, ◌≡◌, refl, Bool, true, false, List, [], ◌∷◌, some, arith, length,
  take, drop, get_elem?, get_elem?-some, ap,
}
use ipm.Error.{IpmResult}
use ipm.Layout.{MemoryClaim, ClaimList, u32}
use ipm.System.{Mutex, World, Posix, done}
use ipm.Platform.{ipm_mutex_lock, ipm_mutex_unlock}
use ipm.Claim.{visit, claims_iterate}
use ipm.Claim.Valid.{live, IsValid}

-- The callback called on each claim in turn.
abbrev pub each :
    {K : Type 0} → (MemoryClaim → World K → Bool × World K) → List MemoryClaim → World K → World K
each callback [] w = w
each callback (c ∷ cs) w = each callback cs (callback c w).1

-- A callback that never stops the walk, and leaves the lists alone.
pub record Walks {K : Type 0} (callback : MemoryClaim → World K → Bool × World K) : Type 0 where
  pub goes_on : (c : MemoryClaim) (w : World K) → (callback c w).0 ≡ false
  pub same_lists : (c : MemoryClaim) (w : World K) → (callback c w).1.lists ≡ w.lists

take-drop-suc :
    (n i : ℕ) (xs : List MemoryClaim) (c : MemoryClaim)
    → get_elem? xs i ≡ some c
    → take (suc n) (drop i xs) ≡ c ∷ take n (drop (i + 1) xs)
take-drop-suc n i [] c e = cc
take-drop-suc n zero (x ∷ xs) c e = ground arith
take-drop-suc n (suc i) (x ∷ xs) c e = ground (arith, take-drop-suc n i xs c)

module _ {K : Type 0} (os : Posix K) (o : ℕ)
    (callback : MemoryClaim → World K → Bool × World K) where
  visit-each :
      (n i : ℕ) (w : World K)
      → Walks callback
      → i + n ≤ length (w.lists o).claims
      → visit os o callback n i w
        ≡ done (false, each callback (take n (drop i (w.lists o).claims)) w)
  unfolding visit
  visit-each zero i w walks h = refl
  visit-each (suc n) i w walks h =
      let xs = (w.lists o).claims in
      let (c, e) = get_elem?-some xs i (omega arith) in
      let w1 = (callback c w).1 in
      let same : (w1.lists o).claims ≡ xs =
        ap (λ (f : ℕ → ClaimList). (f o).claims) (walks.same_lists c w) in
      ground
        (arith, e, walks.goes_on c w, same, take-drop-suc n i xs c e, visit-each n (i + 1) w1 walks)

  -- On a valid list that is not full `claims_iterate` locks the mutex, calls the callback on
  -- each live claim in order, unlocks the mutex and returns success, if the lock succeeds and leaves
  -- the lists alone, and the callback never asks to stop and leaves them alone too.
  pub iterate_visits_live :
      (w locked : World K)
      → Walks callback
      → IsValid (w.lists o)
      → (w.lists o).count < (w.lists o).capacity
      → ipm_mutex_lock os (Mutex.list_mutex o) w ≡ (IpmResult.success, locked)
      → locked.lists ≡ w.lists
      → claims_iterate os o callback w
        ≡ done (
          IpmResult.success,
          (ipm_mutex_unlock os (Mutex.list_mutex o) (each callback (live (w.lists o)) locked)).1,
        )
  unfolding claims_iterate
  iterate_visits_live w locked walks v room locks same =
      let l = w.lists o in
      let n : u32 l.count ≡ l.count = omega (arith, v.small) in
      let here : locked.lists o ≡ l = ap (λ (f : ℕ → ClaimList). f o) same in
      let xs : (locked.lists o).claims ≡ l.claims = ap (λ (x : ClaimList). x.claims) here in
      ground (arith, n, locks, xs, v.slots, visit-each l.count 0 locked walks)

  -- A full list is not walked: the call returns success at once, with the callback never called.
  pub iterate_full_skips :
      (w : World K)
      → IsValid (w.lists o)
      → (w.lists o).count ≡ (w.lists o).capacity
      → claims_iterate os o callback w ≡ done (IpmResult.success, w)
  unfolding claims_iterate
  iterate_full_skips w v full =
      let n : u32 (w.lists o).count ≡ (w.lists o).count = omega (arith, v.small, v.within) in
      ground (arith, n)

  -- A callback that stops at the first claim keeps the mutex locked: the call returns INTERRUPTED
  -- in the very world that the callback left.
  iterate_stopped_keeps_mutex :
      (w locked stopped : World K) (c : MemoryClaim)
      → IsValid (w.lists o)
      → 0 < (w.lists o).count
      → (w.lists o).count < (w.lists o).capacity
      → ipm_mutex_lock os (Mutex.list_mutex o) w ≡ (IpmResult.success, locked)
      → get_elem? (locked.lists o).claims 0 ≡ some c
      → callback c locked ≡ (true, stopped)
      → claims_iterate os o callback w ≡ done (IpmResult.interrupted, stopped)
  unfolding claims_iterate visit
  iterate_stopped_keeps_mutex w locked stopped c v any room locks first stops =
      let n : u32 (w.lists o).count ≡ (w.lists o).count = omega (arith, v.small) in
      ground (arith, n, locks, visit_stops (w.lists o).count any)
    where
      visit_stops : (k : ℕ) → 0 < k → visit os o callback k 0 locked ≡ done (true, stopped)
      visit_stops zero h = elim h [ ]
      visit_stops (suc k) h = ground (arith, first, stops)
