-- ===== src/Claim/Refines.antt =====
-- `claim_add_to_list` and `claim_remove_from_list` against what they do to the list of live claims.
use native.Mathlib.Decide.{dec_lt}
use ipm.Base.{
  ℕ, ◌+◌, ◌-◌, ◌<◌, ◌≤◌, ◌≡◌, Bool, List, some, arith, length, take, drop, get_elem?, length-take,
  get_elem?-take, get_elem?-drop, list_ext,
}
use ipm.Error.{IpmResult}
use ipm.Layout.{MemoryClaim, ClaimList}
use ipm.System.{World, Posix, done, set_list}
use ipm.Claim.{claim_add_to_list, claim_remove_from_list}
use ipm.Claim.Array.{Found}
use ipm.Claim.Valid.{live, IsValid}
use ipm.Claim.Add.{Put, grown, add_runs, after}
use ipm.Claim.Add.Results.{put, grown-IsValid}
use ipm.Claim.Remove.{Cut, shrunk, remove_runs, has_id}
use ipm.Claim.Remove.Results.{Holds, cut, shrunk-IsValid}
use ipm.Claim.Spec.{placed, without, First, get_elem?-placed, get_elem?-without}

-- What the search finds in the array is what comes first among the live claims.
Found-First :
    (test : MemoryClaim → Bool) (xs : List MemoryClaim) (n pos : ℕ)
    → n ≤ length xs
    → Found test xs n pos
    → First test (take n xs) pos
Found-First test xs n pos h f = record {
  within = omega (arith, length-take n xs, f.within);
  hit = λ c e. elim (dec_lt pos n) [
    | yes lt ↦ f.hit c lt (ground (arith, get_elem?-take n xs pos))
    | no ge ↦ absurd (ground (arith, get_elem?-take n xs pos))
  ];
  misses = λ i c lt e. f.misses i c lt (ground (arith, get_elem?-take n xs i, f.within));
}

module _ (l : ClaimList) (v : IsValid l) where
  length-live : length (live l) ≡ l.count
  length-live = ground (arith, length-take l.count l.claims, v.slots, v.within)

  grown-placed :
      (claim stale : MemoryClaim)
      → l.count < l.capacity
      → get_elem? l.claims l.count ≡ some stale
      → (p : Put claim l.count l.claims) → live (grown l p.ys) ≡ placed claim stale (live l)
  grown-placed claim stale room e p = list_ext _ _ λ i. slot i
    where
      slot : (i : ℕ) → get_elem? (live (grown l p.ys)) i ≡ get_elem? (placed claim stale (live l)) i
      slot i = ground (
        arith,
        get_elem?-take (l.count + 1) p.ys i,
        p.insertion.slot i,
        p.found.within,
        length-live,
        get_elem?-take l.count l.claims i,
        get_elem?-take l.count l.claims (i - 1),
        get_elem?-placed claim stale (live l) p.pos
            (Found-First (after claim) l.claims l.count p.pos (omega (arith, v.slots, v.within))
              p.found)
            i,
      )

  grown_beyond :
      (claim : MemoryClaim) (p : Put claim l.count l.claims)
      → drop (l.count + 1) p.ys ≡ drop (l.count + 1) l.claims
  grown_beyond claim p = list_ext _ _ λ i. ground (
    arith,
    get_elem?-drop (l.count + 1) p.ys i,
    get_elem?-drop (l.count + 1) l.claims i,
    p.insertion.slot (l.count + 1 + i),
    p.found.within,
  )

  shrunk-without :
      (claim_id : ℕ) (c : Cut claim_id l.count l.claims)
      → live (shrunk l c.ys) ≡ without claim_id (live l)
  shrunk-without claim_id c = list_ext _ _ λ i. slot i
    where
      slot : (i : ℕ) → get_elem? (live (shrunk l c.ys)) i ≡ get_elem? (without claim_id (live l)) i
      slot i = ground (
        arith,
        get_elem?-take (l.count - 1) c.ys i,
        c.removal.slot i,
        c.inside,
        length-live,
        get_elem?-take l.count l.claims i,
        get_elem?-take l.count l.claims (i + 1),
        get_elem?-without claim_id (live l) c.pos
            (Found-First (has_id claim_id) l.claims l.count c.pos (omega (arith, v.slots, v.within))
              c.found)
            (omega (arith, length-live, c.inside)) i,
      )

  shrunk_beyond :
      (claim_id : ℕ) (c : Cut claim_id l.count l.claims)
      → drop (l.count - 1) c.ys ≡ drop (l.count - 1) l.claims
  shrunk_beyond claim_id c = list_ext _ _ λ i. ground (
    arith,
    get_elem?-drop (l.count - 1) c.ys i,
    get_elem?-drop (l.count - 1) l.claims i,
    c.removal.slot (l.count - 1 + i),
    c.inside,
  )

module _ {K : Type 0} (os : Posix K) (o : ℕ) (w : World K) where
  -- On a valid list with room, `claim_add_to_list` succeeds, changes nothing but this list, keeps it
  -- valid, writes no slot from the one after the old count on, and does to the live claims what the
  -- plain list function does: the claim goes before the first that starts behind it, the ones from
  -- there on follow, and the last of those gives way to what the slot at the old count holds.
  pub add_refines :
      (claim stale : MemoryClaim)
      → IsValid (w.lists o)
      → (w.lists o).count < (w.lists o).capacity
      → get_elem? (w.lists o).claims (w.lists o).count ≡ some stale
      → (l' : ClaimList) × (claim_add_to_list os claim o w
          ≡ done (IpmResult.success, set_list o l' w))
        × IsValid l'
        × (live l' ≡ placed claim stale (live (w.lists o)))
        × (drop ((w.lists o).count + 1) l'.claims ≡ drop ((w.lists o).count + 1) (w.lists o).claims)
  add_refines claim stale v room e =
      let p = put claim (w.lists o) v room in
      (
        grown (w.lists o) p.ys,
        add_runs os claim o w v room p,
        grown-IsValid claim (w.lists o) v room,
        grown-placed (w.lists o) v claim stale room e p,
        grown_beyond (w.lists o) v claim p,
      )

  -- On a valid list that is not full, where some live claim has the id, `claim_remove_from_list`
  -- succeeds, changes nothing but this list, keeps it valid, writes no slot from the new count on,
  -- and does to the live claims what the plain list function does: the first with the id goes, the
  -- ones behind it follow, and the last of those gives way to the one before it.
  pub remove_refines :
      (claim_id : ℕ)
      → IsValid (w.lists o)
      → (w.lists o).count < (w.lists o).capacity
      → Holds (w.lists o) claim_id
      → (l' : ClaimList) × (claim_remove_from_list os claim_id o w
          ≡ done (IpmResult.success, set_list o l' w))
        × IsValid l'
        × (live l' ≡ without claim_id (live (w.lists o)))
        × (drop ((w.lists o).count - 1) l'.claims ≡ drop ((w.lists o).count - 1) (w.lists o).claims)
  remove_refines claim_id v room h =
      let c = cut claim_id (w.lists o) v h in
      (
        shrunk (w.lists o) c.ys,
        remove_runs os claim_id o w v room c,
        shrunk-IsValid claim_id (w.lists o) v c,
        shrunk-without (w.lists o) v claim_id c,
        shrunk_beyond (w.lists o) v claim_id c,
      )
