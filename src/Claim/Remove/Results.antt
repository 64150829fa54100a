-- ===== src/Claim/Remove/Results.antt =====
-- `claim_remove_from_list` against the list that a removal should give.
use native.Mathlib.Decide.{dec_lt}
use ipm.Base.{
  get_elem?-single, ℕ, ◌+◌, ◌-◌, ◌<◌, ◌≡◌, ◌≢◌, ◌⊎◌, false, [], ◌∷◌, ◌++◌, some, arith, take,
  get_elem?, length-take, get_elem?-append, get_elem?-take, get_elem?-some, list_ext,
}
use ipm.Error.{IpmResult}
use ipm.Layout.{MemoryClaim, ClaimList, u32}
use ipm.System.{World, Posix, done, aborted, fault, set_list}
use ipm.Claim.{claim_remove_from_list}
use ipm.Claim.Valid.{live, IsValid}
use ipm.Claim.Remove.{Cut, removed-Cut, removed_outside, shrunk, remove_runs}

-- Some live claim has the id.
abbrev pub Holds : ClaimList → ℕ → Type 0
Holds l claim_id =
    (k : ℕ) × (c : MemoryClaim) × (k < l.count)
    × (get_elem? l.claims k ≡ some c)
    × (c.claim_id ≡ claim_id)

-- No live claim has it.
abbrev pub Lacks : ClaimList → ℕ → Type 0
Lacks l claim_id =
    (k : ℕ) (c : MemoryClaim) → k < l.count → get_elem? l.claims k ≡ some c → c.claim_id ≢ claim_id

module _ (claim_id : ℕ) (l : ClaimList) (v : IsValid l) where
  pub cut : Holds l claim_id → Cut claim_id l.count l.claims
  cut (k, c, lt, e, id) =
      removed-Cut claim_id l.count l.claims (omega (arith, v.slots, v.within))
        (omega (arith, v.slots, v.small)) k c lt e id

  pub shrunk-IsValid : (c : Cut claim_id l.count l.claims) → IsValid (shrunk l c.ys)
  shrunk-IsValid c = record {
    slots = ground (arith, c.removal.same_length, v.slots);
    within = omega (arith, v.within);
    small = v.small;
  }

  shrunk-live :
      (c : Cut claim_id l.count l.claims) (i : ℕ) (d : MemoryClaim)
      → get_elem? (live (shrunk l c.ys)) i ≡ some d
      → (j : ℕ) × (get_elem? (live l) j ≡ some d)
  shrunk-live c i d e =
      let here = get_elem?-take (l.count - 1) c.ys i in
      elim (dec_lt (i + 2) (l.count + 1)) [
        | yes low ↦ elim (dec_lt i c.pos) [
          | yes before ↦
              (i, ground (arith, here, c.removal.slot i, get_elem?-take l.count l.claims i))
          | no from ↦ elim (dec_lt (i + 2) l.count) [
            | yes moved ↦ (
              i + 1,
              ground (arith, here, c.removal.slot i, get_elem?-take l.count l.claims (i + 1)),
            )
            | no kept ↦
                (i, ground (arith, here, c.removal.slot i, get_elem?-take l.count l.claims i))
          ]
        ]
        | no high ↦ absurd (ground (arith, here))
      ]

  shrunk_last :
      (c : Cut claim_id l.count l.claims) (d : MemoryClaim)
      → get_elem? l.claims (l.count - 1) ≡ some d
      → c.pos + 1 ≡ l.count
      → live l ≡ live (shrunk l c.ys) ++ (d ∷ [])
  shrunk_last c d e last = list_ext _ _ λ i. ground (
    arith,
    c.removal.slot i,
    get_elem?-take l.count l.claims i,
    get_elem?-append (take (l.count - 1) c.ys) (d ∷ []) i,
    get_elem?-take (l.count - 1) c.ys i,
    length-take (l.count - 1) c.ys,
    c.removal.same_length,
    v.slots,
    v.within,
    get_elem?-single d (i - (l.count - 1)),
  )

module _ {K : Type 0} (os : Posix K) (claim_id o : ℕ) (w : World K) where
  -- On a valid list that is not full, the removal of an id that some live claim has succeeds,
  -- changes nothing but this list, keeps it valid, counts one claim less, and leaves no claim live
  -- that was not live before.
  pub remove_shrinks :
      IsValid (w.lists o)
      → (w.lists o).count < (w.lists o).capacity
      → Holds (w.lists o) claim_id
      → (l' : ClaimList) × (claim_remove_from_list os claim_id o w
          ≡ done (IpmResult.success, set_list o l' w))
        × IsValid l'
        × (l'.count + 1 ≡ (w.lists o).count)
        × ((i : ℕ) (d : MemoryClaim)
            → get_elem? (live l') i ≡ some d
            → (j : ℕ) × (get_elem? (live (w.lists o)) j ≡ some d))
  remove_shrinks v room h =
      let c = cut claim_id (w.lists o) v h in
      (
        shrunk (w.lists o) c.ys,
        remove_runs os claim_id o w v room c,
        shrunk-IsValid claim_id (w.lists o) v c,
        omega (arith, c.inside),
        shrunk-live claim_id (w.lists o) v c,
      )

  -- On a valid list that is not full, a claim that is the last live one, and the first live one with
  -- its id, is taken off the end of the live claims, and the rest stay as they were.
  pub remove_newest :
      IsValid (w.lists o)
      → (w.lists o).count < (w.lists o).capacity
      → (d : MemoryClaim) → 0 < (w.lists o).count
      → get_elem? (w.lists o).claims ((w.lists o).count - 1) ≡ some d
      → d.claim_id ≡ claim_id
      → ((k : ℕ) (c : MemoryClaim)
          → k + 1 < (w.lists o).count
          → get_elem? (w.lists o).claims k ≡ some c
          → c.claim_id ≢ claim_id)
      → (l' : ClaimList) × (claim_remove_from_list os claim_id o w
          ≡ done (IpmResult.success, set_list o l' w))
        × IsValid l'
        × (live (w.lists o) ≡ live l' ++ (d ∷ []))
  remove_newest v room d some_live e id first =
      let l = w.lists o in
      let c = cut claim_id l v (l.count - 1, d, omega arith, e, id) in
      let last : c.pos + 1 ≡ l.count = elim (dec_lt (c.pos + 1) l.count) [
        | yes lt ↦
            let (x, q) = get_elem?-some l.claims c.pos (omega (arith, v.slots, v.within)) in
            absurd (ground (arith, c.found.hit x, first c.pos x))
        | no ge ↦ omega (arith, c.inside)
      ] in
      (
        shrunk l c.ys,
        remove_runs os claim_id o w v room c,
        shrunk-IsValid claim_id l v c,
        shrunk_last claim_id l v c d e last,
      )

  -- The claim that is lost: where a claim that is not the last live one is removed, the new last
  -- live slot holds the claim that was last but one, and every live slot holds a claim that was not
  -- the last.
  remove_loses_last :
      IsValid (w.lists o)
      → (w.lists o).count < (w.lists o).capacity
      → (k : ℕ) (c : MemoryClaim) → k + 1 < (w.lists o).count
      → get_elem? (w.lists o).claims k ≡ some c
      → c.claim_id ≡ claim_id
      → (l' : ClaimList) × (claim_remove_from_list os claim_id o w
          ≡ done (IpmResult.success, set_list o l' w))
        × (get_elem? (live l') ((w.lists o).count - 2)
            ≡ get_elem? (w.lists o).claims ((w.lists o).count - 2))
        × ((i : ℕ)
            → i + 1 < (w.lists o).count
            → (j : ℕ) × (j + 1 < (w.lists o).count)
              × (get_elem? (live l') i ≡ get_elem? (w.lists o).claims j))
  remove_loses_last v room k c lt e id =
      let l = w.lists o in
      let t = cut claim_id l v (k, c, omega arith, e, id) in
      (
        shrunk l t.ys,
        remove_runs os claim_id o w v room t,
        ground
            (arith, get_elem?-take (l.count - 1) t.ys (l.count - 2), t.removal.slot (l.count - 2)),
        λ i h. elim (dec_lt i t.pos) [
          | yes before ↦
              (i, h, ground (arith, get_elem?-take (l.count - 1) t.ys i, t.removal.slot i))
          | no from ↦ elim (dec_lt (i + 2) l.count) [
            | yes moved ↦ (
              i + 1,
              omega arith,
              ground (arith, get_elem?-take (l.count - 1) t.ys i, t.removal.slot i),
            )
            | no kept ↦
                (i, h, ground (arith, get_elem?-take (l.count - 1) t.ys i, t.removal.slot i))
          ]
        ],
      )

  -- An id that no live claim has, on a valid list that is neither empty nor full: the call moves
  -- memory beyond the array's end.
  pub remove_unknown_faults :
      IsValid (w.lists o)
      → 0 < (w.lists o).count
      → (w.lists o).count < (w.lists o).capacity
      → Lacks (w.lists o) claim_id
      → claim_remove_from_list os claim_id o w ≡ fault
  unfolding claim_remove_from_list
  remove_unknown_faults v some_live room absent =
      let l = w.lists o in
      let n : u32 l.count ≡ l.count = omega (arith, v.small) in
      let out =
        removed_outside claim_id l.count l.claims (omega (arith, v.slots, v.within))
          (omega (arith, v.slots, v.small)) absent in
      ground (arith, n, out)

  -- On a valid list that is full or empty the assert stops the process, whatever the id, in a build
  -- without NDEBUG.
  pub remove_full_or_empty_aborts :
      IsValid (w.lists o)
      → os.ndebug ≡ false
      → ((w.lists o).count ≡ (w.lists o).capacity) ⊎ ((w.lists o).count ≡ 0)
      → claim_remove_from_list os claim_id o w ≡ aborted
  unfolding claim_remove_from_list
  remove_full_or_empty_aborts v debug edge =
      let n : u32 (w.lists o).count ≡ (w.lists o).count = omega (arith, v.small, v.within) in
      ground (arith, n)
