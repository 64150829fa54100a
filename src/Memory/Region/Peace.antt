-- ===== src/Memory/Region/Peace.antt =====
-- What the claims are for: over any sequence of additions and removals, as `ipm_memory_claim_region`
-- and the releases make them under the mutex, no two live claims conflict.
use ipm.Base.{
  ℕ, ◌-◌, ◌≤◌, ◌<◌, ◌≡◌, ◌⊎◌, inl, inr, false, List, [], ◌∷◌, ◌++◌, some, arith, get_elem?,
  get_elem?-append, get_elem?-single, get_elem?-take, subst, ap, sym, ◌∙◌, length,
}
use native.Mathlib.Decide.{dec_lt}
use ipm.Error.{IpmResult}
use ipm.Layout.{MemoryClaim, ClaimList}
use ipm.System.{World, Posix, done, set_list}
use ipm.Claim.{claims_conflict, claim_add_to_list, claim_remove_from_list}
use ipm.Claim.Conflict.{claims_conflict_comm, claims_conflict_self}
use ipm.Claim.Valid.{live, IsValid}
use ipm.Claim.Add.Results.{add_appends}
use ipm.Claim.Remove.{lists-set_list}
use ipm.Claim.Remove.Results.{Holds, remove_shrinks}
use ipm.Memory.Region.Waiting.{Admissible}

-- A valid list of live claims that do not conflict.
pub record Orderly (l : ClaimList) : Type 0 where
  pub valid : IsValid l
  pub peace :
      (i j : ℕ) (c d : MemoryClaim)
      → get_elem? (live l) i ≡ some c
      → get_elem? (live l) j ≡ some d
      → claims_conflict c d ≡ false

-- What is read from a list with one more entry.
pub appended :
    (xs : List MemoryClaim) (claim c : MemoryClaim) (i : ℕ)
    → get_elem? (xs ++ (claim ∷ [])) i ≡ some c
    → (get_elem? xs i ≡ some c) ⊎ (c ≡ claim)
appended xs claim c i e = elim (dec_lt i (length xs)) [
  | yes inside ↦ inl (ground (arith, get_elem?-append xs (claim ∷ []) i))
  | no beyond ↦
      inr
        (ground (arith, get_elem?-append xs (claim ∷ []) i, get_elem?-single claim (i - length xs)))
]

-- A claim that may join conflicts with no live claim.
pub joins_in_peace :
    (claim c : MemoryClaim) (l : ClaimList) (i : ℕ)
    → Admissible claim l
    → get_elem? (live l) i ≡ some c
    → claims_conflict claim c ≡ false
joins_in_peace claim c l i free e = elim (dec_lt i l.count) [
  | yes lt ↦ free.free i c lt (ground (arith, get_elem?-take l.count l.claims i))
  | no ge ↦ absurd (ground (arith, get_elem?-take l.count l.claims i))
]

Orderly-append :
    (claim : MemoryClaim) (l l' : ClaimList)
    → Orderly l
    → Admissible claim l
    → IsValid l'
    → live l' ≡ live l ++ (claim ∷ [])
    → Orderly l'
Orderly-append claim l l' was free valid grows = record { valid = valid; peace = peace }
  where
    read :
        (i : ℕ) (c : MemoryClaim)
        → get_elem? (live l') i ≡ some c
        → (get_elem? (live l) i ≡ some c) ⊎ (c ≡ claim)
    read i c e =
        appended (live l) claim c i (ap (λ (xs : List MemoryClaim). get_elem? xs i) (sym grows) ∙ e)

    peace :
        (i j : ℕ) (c d : MemoryClaim)
        → get_elem? (live l') i ≡ some c
        → get_elem? (live l') j ≡ some d
        → claims_conflict c d ≡ false
    peace i j c d ec ed = elim (read i c ec) [
      | inl old ↦ elim (read j d ed) [
        | inl other ↦ was.peace i j c d old other
        | inr new ↦
            subst (λ (x : MemoryClaim). claims_conflict c x ≡ false) (sym new)
              (claims_conflict_comm c claim ∙ joins_in_peace claim c l i free old)
      ]
      | inr new ↦ elim (read j d ed) [
        | inl other ↦
            subst (λ (x : MemoryClaim). claims_conflict x d ≡ false) (sym new)
              (joins_in_peace claim d l j free other)
        | inr both ↦
            subst (λ (x : MemoryClaim). claims_conflict x d ≡ false) (sym new)
              (subst (λ (x : MemoryClaim). claims_conflict claim x ≡ false) (sym both)
                (claims_conflict_self claim))
      ]
    ]

module _ {K : Type 0} (os : Posix K) (o : ℕ) where
  -- One change of the list: a claim that may join is added behind the live ones, or a live claim is
  -- removed from a list that is not full.
  pub data Step (w u : World K) : Type 0 where
    adds :
        (claim : MemoryClaim)
        → Admissible claim (w.lists o)
        → ((i : ℕ) (c : MemoryClaim)
            → i < (w.lists o).count
            → get_elem? (w.lists o).claims i ≡ some c
            → c.offset ≤ claim.offset)
        → claim_add_to_list os claim o w ≡ done (IpmResult.success, u)
        → Step w u
    removes :
        (claim_id : ℕ)
        → Holds (w.lists o) claim_id
        → (w.lists o).count < (w.lists o).capacity
        → claim_remove_from_list os claim_id o w ≡ done (IpmResult.success, u)
        → Step w u

  -- Any number of changes.
  pub data Reaches (w : World K) : World K → Type 0 where
    here : Reaches w w
    step : {v u : World K} → Reaches w v → Step v u → Reaches w u

  Step-Orderly : (w u : World K) → Step w u → Orderly (w.lists o) → Orderly (u.lists o)
  Step-Orderly w u (adds claim free low e) was =
      let room : (w.lists o).count < (w.lists o).capacity =
        omega (arith, was.valid.within, free.room) in
      let (l', runs, valid, grows) = add_appends os claim o w was.valid room low in
      let ends : u ≡ set_list o l' w = cc (e, runs) in
      let there : u.lists o ≡ l' = ap (λ (v : World K). v.lists o) ends ∙ lists-set_list o l' w in
      subst Orderly (sym there) (Orderly-append claim (w.lists o) l' was free valid grows)
  Step-Orderly w u (removes claim_id held room e) was =
      let (l', runs, valid, _, old) = remove_shrinks os claim_id o w was.valid room held in
      let ends : u ≡ set_list o l' w = cc (e, runs) in
      let there : u.lists o ≡ l' = ap (λ (v : World K). v.lists o) ends ∙ lists-set_list o l' w in
      subst Orderly (sym there) (record {
        valid = valid;
        peace = λ i j c d ec ed.
            let (i', ec') = old i c ec in let (j', ed') = old j d ed in was.peace i' j' c d ec' ed';
      })

  -- From a valid list in which no two live claims conflict, any sequence of additions of claims that
  -- may join, each at or behind the last, and of removals of live claims while the list is not
  -- full, leads to such a list again.
  pub reached_in_peace : (w u : World K) → Reaches w u → Orderly (w.lists o) → Orderly (u.lists o)
  reached_in_peace w u here was = was
  reached_in_peace w u (step {v = v} r s) was = Step-Orderly v u s (reached_in_peace w v r was)
