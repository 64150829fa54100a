-- ===== src/Memory/Region/Order.antt =====
-- What holds of the claims over any sequence of calls by any number of handles
-- (`ipm_memory_claim_region`, `ipm_memory_release_region`, `ipm_memory_release_all`).
use native.Mathlib.Decide.{dec_lt}
use ipm.Base.{
  ℕ, ◌+◌, ◌<◌, ◌≡◌, ◌≢◌, ◌⊎◌, ◌∙◌, inl, inr, false, List, [], ◌∷◌, ◌++◌, some, arith, sym, ap,
  subst, get_elem?, get_elem?-take,
}
use ipm.Layout.{MemoryClaim, ClaimList}
use ipm.Claim.{claims_conflict}
use ipm.Claim.Conflict.{claims_conflict_comm, claims_conflict_self}
use ipm.Claim.Valid.{live, IsValid}
use ipm.Memory.Region.Waiting.{Admissible}
use ipm.Memory.Region.Peace.{appended, joins_in_peace}
use ipm.Memory.Region.Scanning.{IdsIdentify}

-- The claim is live.
abbrev pub InLive : ClaimList → MemoryClaim → Type 0
InLive l c = (k : ℕ) × (get_elem? (live l) k ≡ some c)

-- A valid list; no two live claims conflict; their ids are behind the counter, and two with one id
-- are of one handle.
pub record Sound (l : ClaimList) : Type 0 where
  pub valid : IsValid l
  pub peace : (c d : MemoryClaim) → InLive l c → InLive l d → claims_conflict c d ≡ false
  pub below : (c : MemoryClaim) → InLive l c → c.claim_id < l.claim_counter
  pub ids :
      (c d : MemoryClaim)
      → InLive l c
      → InLive l d
      → c.claim_id ≡ d.claim_id
      → c.proc_id ≡ d.proc_id

pub InLive-slot :
    (l : ClaimList) (k : ℕ) (c : MemoryClaim)
    → k < l.count
    → get_elem? l.claims k ≡ some c
    → InLive l c
InLive-slot l k c lt e = (k, ground (arith, get_elem?-take l.count l.claims k))

pub slot-InLive :
    (l : ClaimList) (c : MemoryClaim)
    → InLive l c
    → (k : ℕ) × (k < l.count) × (get_elem? l.claims k ≡ some c)
slot-InLive l c (k, e) = elim (dec_lt k l.count) [
  | yes lt ↦ (k, lt, ground (arith, get_elem?-take l.count l.claims k))
  | no ge ↦ absurd (ground (arith, get_elem?-take l.count l.claims k))
]

pub Sound-IdsIdentify : (l : ClaimList) → Sound l → IdsIdentify l
Sound-IdsIdentify l s i j c d li lj ei ej same =
    s.ids c d (InLive-slot l i c li ei) (InLive-slot l j d lj ej) same

-- A list whose live claims were all live before, under the same counter.
pub record Within (l after : ClaimList) : Type 0 where
  pub was : (c : MemoryClaim) → InLive after c → InLive l c
  pub counter : after.claim_counter ≡ l.claim_counter

pub Sound-Within : (l after : ClaimList) → Sound l → IsValid after → Within l after → Sound after
Sound-Within l after s v h = record {
  valid = v;
  peace = λ c d ic id. s.peace c d (h.was c ic) (h.was d id);
  below = λ c ic. omega (arith, s.below c (h.was c ic), h.counter);
  ids = λ c d ic id same. s.ids c d (h.was c ic) (h.was d id) same;
}

-- A claim that may join is added behind the live ones, under an id that the counter has left.
pub Sound-append :
    (claim : MemoryClaim) (l after : ClaimList)
    → Sound l
    → Admissible claim l
    → l.claim_counter ≡ claim.claim_id
    → after.claim_counter ≡ claim.claim_id + 1
    → IsValid after
    → live after ≡ live l ++ (claim ∷ [])
    → Sound after
Sound-append claim l after s free its_id counter v grows = record {
  valid = v;
  peace = λ c d ic id. elim (old_or_new c ic) [
    | inl oc ↦ elim (old_or_new d id) [
      | inl od ↦ s.peace c d oc od
      | inr new ↦
          subst (λ (x : MemoryClaim). claims_conflict c x ≡ false) (sym new)
            (claims_conflict_comm c claim ∙ peaceful c oc)
    ]
    | inr new ↦
        subst (λ (x : MemoryClaim). claims_conflict x d ≡ false) (sym new)
          (elim (old_or_new d id) [
            | inl od ↦ peaceful d od
            | inr both ↦
                subst (λ (x : MemoryClaim). claims_conflict claim x ≡ false) (sym both)
                  (claims_conflict_self claim)
          ])
  ];
  below = λ c ic. elim (old_or_new c ic) [
    | inl oc ↦ omega (arith, s.below c oc, its_id, counter)
    | inr new ↦ omega (arith, ap MemoryClaim.claim_id new, counter)
  ];
  ids = λ c d ic id same. elim (old_or_new c ic) [
    | inl oc ↦ elim (old_or_new d id) [
      | inl od ↦ s.ids c d oc od same
      | inr new ↦ absurd (omega (arith, s.below c oc, its_id, ap MemoryClaim.claim_id new))
    ]
    | inr new ↦ elim (old_or_new d id) [
      | inl od ↦ absurd (omega (arith, s.below d od, its_id, ap MemoryClaim.claim_id new))
      | inr both ↦ ap MemoryClaim.proc_id (new ∙ sym both)
    ]
  ];
}
  where
    old_or_new : (c : MemoryClaim) → InLive after c → InLive l c ⊎ (c ≡ claim)
    old_or_new c (k, e) =
        elim (appended (live l) claim c k
          (ap (λ (xs : List MemoryClaim). get_elem? xs k) (sym grows) ∙ e)) [
            | inl old ↦ inl (k, old)
            | inr new ↦ inr new
          ]

    peaceful : (c : MemoryClaim) → InLive l c → claims_conflict claim c ≡ false
    peaceful c (k, e) = joins_in_peace claim c l k free e

-- Without live claims there is nothing to keep apart.
pub empty-Sound : (l : ClaimList) → IsValid l → l.count ≡ 0 → Sound l
empty-Sound l v none_live = record {
  valid = v;
  peace = λ c d (i, e) _. absurd (nobody i c e);
  below = λ c (i, e). absurd (nobody i c e);
  ids = λ c d (i, e) _ _. absurd (nobody i c e);
}
  where
    nobody : (i : ℕ) (c : MemoryClaim) → get_elem? (live l) i ≢ some c
    nobody i c e = ground (arith, e, none_live)
