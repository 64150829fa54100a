-- ===== src/Claim/RoundTrip.antt =====
-- A claim that is added and then removed.
use ipm.Base.{
  get_elem?-single, refl, ◌≢◌, ◌==◌, if◌then◌else◌, ℕ, ◌+◌, ◌-◌, ◌≤◌, ◌<◌, ◌≡◌, sym, ap, ◌∙◌, subst,
  List, [], ◌∷◌, ◌++◌, some, arith, take, get_elem?, length-take, get_elem?-append, get_elem?-take,
}
use ipm.Error.{IpmResult}
use ipm.Layout.{MemoryClaim, ClaimList}
use ipm.System.{World, Posix, done, set_list}
use ipm.Claim.{claim_add_to_list, claim_remove_from_list}
use ipm.Claim.Valid.{live, IsValid}
use ipm.Claim.Add.{grown, add_runs}
use ipm.Claim.Add.Results.{put, grown-IsValid, grown-append}
use ipm.Claim.Remove.{lists-set_list, set_list-set_list}
use ipm.Claim.Remove.Results.{Lacks, remove_newest}

-- Both lists end in the same claim, so what stands before it is the same.
init_cancel :
    (xs ys : List MemoryClaim) (c d : MemoryClaim) → xs ++ (c ∷ []) ≡ ys ++ (d ∷ []) → xs ≡ ys
init_cancel [] [] c d e = cc
init_cancel [] (y ∷ []) c d e = cc
init_cancel [] (y ∷ z ∷ ys) c d e = cc
init_cancel (x ∷ []) [] c d e = cc
init_cancel (x ∷ z ∷ xs) [] c d e = cc
init_cancel (x ∷ xs) (y ∷ ys) c d e = cc (e, init_cancel xs ys c d (cc e))

-- What a list that was appended to has in its slots.
appended_slot :
    (claim : MemoryClaim) (l l1 : ClaimList)
    → IsValid l
    → l1.count ≡ l.count + 1
    → live l1 ≡ live l ++ (claim ∷ [])
    → (k : ℕ) → k ≤ l.count
    → get_elem? l1.claims k ≡ (if k == l.count then some claim else get_elem? l.claims k)
appended_slot claim l l1 v more e k h =
    let read : get_elem? (live l1) k ≡ get_elem? (live l ++ (claim ∷ [])) k =
      ap (λ (xs : List MemoryClaim). get_elem? xs k) e in
    ground (
      arith,
      read,
      get_elem?-take l1.count l1.claims k,
      get_elem?-append (take l.count l.claims) (claim ∷ []) k,
      get_elem?-take l.count l.claims k,
      length-take l.count l.claims,
      v.slots,
      v.within,
      get_elem?-single claim (k - l.count),
    )

module _ {K : Type 0} (os : Posix K) (claim : MemoryClaim) (o : ℕ) (w : World K) where
  -- On a valid list with two slots to spare, whose live claims all start at or before the new
  -- one and have other ids, adding the claim and removing its id both succeed, and the live claims
  -- are what they were.
  pub remove-add :
      IsValid (w.lists o)
      → (w.lists o).count + 1 < (w.lists o).capacity
      → ((i : ℕ) (c : MemoryClaim)
          → i < (w.lists o).count
          → get_elem? (w.lists o).claims i ≡ some c
          → c.offset ≤ claim.offset)
      → Lacks (w.lists o) claim.claim_id
      → (l1 l2 : ClaimList) × (claim_add_to_list os claim o w
          ≡ done (IpmResult.success, set_list o l1 w))
        × (claim_remove_from_list os claim.claim_id o (set_list o l1 w)
            ≡ done (IpmResult.success, set_list o l2 w))
        × (live l2 ≡ live (w.lists o))
  remove-add v room low fresh =
      let l = w.lists o in
      let space : l.count < l.capacity = omega arith in
      let l1 = grown l (put claim l v space).ys in
      let w1 = set_list o l1 w in
      let there = sym (lists-set_list o l1 w) in
      let slot = appended_slot claim l l1 v refl (grown-append claim l v space low) in
      let (l2, removes, _, rest) =
        remove_newest os claim.claim_id o w1 (subst IsValid there (grown-IsValid claim l v space))
          (subst (λ (x : ClaimList). x.count < x.capacity) there (omega arith)) claim
          (subst (λ (x : ClaimList). 0 < x.count) there (omega arith))
          (subst (λ (x : ClaimList). get_elem? x.claims (x.count - 1) ≡ some claim) there
            (ground (arith, slot l.count)))
          refl
          (subst
            (λ (x : ClaimList).
              (k : ℕ) (c : MemoryClaim)
              → k + 1 < x.count
              → get_elem? x.claims k ≡ some c
              → c.claim_id ≢ claim.claim_id)
            there (λ k c lt e. fresh k c (omega arith) (ground (arith, slot k)))) in
      (
        l1,
        l2,
        add_runs os claim o w v space (put claim l v space),
        removes ∙ ap (λ (u : World K). done (IpmResult.success, u)) (set_list-set_list o l1 l2 w),
        sym (
            init_cancel (live l) (live l2) claim claim
              (sym (grown-append claim l v space low) ∙ ap live there ∙ rest)),
      )
