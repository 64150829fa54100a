-- ===== src/Claim/Add/Results.antt =====
-- `claim_add_to_list` against the list that an insertion should give.
use ipm.Base.{
  get_elem?-single, ℕ, ◌+◌, ◌-◌, ◌≤◌, ◌<◌, ◌≡◌, ◌⊎◌, inl, inr, [], ◌∷◌, ◌++◌, some, arith, take,
  get_elem?, length-take, get_elem?-append, get_elem?-take, list_ext, get_elem?-some,
}
use native.Mathlib.Decide.{dec_lt}
use ipm.Error.{IpmResult}
use ipm.Layout.{MemoryClaim, ClaimList}
use ipm.System.{World, Posix, done, set_list}
use ipm.Claim.{claim_add_to_list}
use ipm.Claim.Valid.{live, IsValid, Sorted}
use ipm.Claim.Add.{Put, inserted-Put, grown, add_runs}

module _ (claim : MemoryClaim) (l : ClaimList) (v : IsValid l) (room : l.count < l.capacity) where
  pub put : Put claim l.count l.claims
  put =
      inserted-Put claim l.count l.claims (omega (arith, v.slots)) (omega (arith, v.slots, v.small))

  pub grown-IsValid : IsValid (grown l put.ys)
  grown-IsValid = record {
    slots = ground (arith, put.insertion.same_length, v.slots);
    within = omega arith;
    small = v.small;
  }

  -- No live entry lies further up: the claim goes to the end.
  put_at_end :
      ((i : ℕ) (c : MemoryClaim)
        → i < l.count
        → get_elem? l.claims i ≡ some c
        → c.offset ≤ claim.offset)
      → put.pos ≡ l.count
  put_at_end low = elim (dec_lt put.pos l.count) [
    | yes lt ↦
        let (c, e) = get_elem?-some l.claims put.pos (omega (arith, v.slots)) in
        absurd (ground (arith, put.found.hit c, low put.pos c))
    | no ge ↦ omega (arith, put.found.within)
  ]

  pub grown-append :
      ((i : ℕ) (c : MemoryClaim)
        → i < l.count
        → get_elem? l.claims i ≡ some c
        → c.offset ≤ claim.offset)
      → live (grown l put.ys) ≡ live l ++ (claim ∷ [])
  grown-append low = list_ext _ _ λ i. pointwise i
    where
      pointwise :
          (i : ℕ)
          → get_elem? (take (l.count + 1) put.ys) i
            ≡ get_elem? (take l.count l.claims ++ (claim ∷ [])) i
      pointwise i = ground (
        arith,
        put_at_end low,
        put.insertion.slot i,
        get_elem?-take (l.count + 1) put.ys i,
        get_elem?-append (take l.count l.claims) (claim ∷ []) i,
        get_elem?-take l.count l.claims i,
        length-take l.count l.claims,
        v.slots,
        get_elem?-single claim (i - l.count),
      )

  grown-Sorted : Sorted l.count l.claims → Sorted l.count put.ys
  grown-Sorted s = λ i c d lt ec ed. ground (
    arith,
    put.insertion.slot i,
    put.insertion.slot (i + 1),
    put.found.hit d,
    put.found.misses i c,
    s i c d,
    s (i - 1) c d,
  )

module _ {K : Type 0} (os : Posix K) (claim : MemoryClaim) (o : ℕ) (w : World K) where
  -- On a valid list with room, whose live claims all start at or before the new one, the call
  -- succeeds, changes nothing but this list, keeps it valid, and appends the claim to its live claims.
  pub add_appends :
      IsValid (w.lists o)
      → (w.lists o).count < (w.lists o).capacity
      → ((i : ℕ) (c : MemoryClaim)
          → i < (w.lists o).count
          → get_elem? (w.lists o).claims i ≡ some c
          → c.offset ≤ claim.offset)
      → (l' : ClaimList) × (claim_add_to_list os claim o w
          ≡ done (IpmResult.success, set_list o l' w))
        × IsValid l'
        × (live l' ≡ live (w.lists o) ++ (claim ∷ []))
  add_appends v room low = (
    grown (w.lists o) (put claim (w.lists o) v room).ys,
    add_runs os claim o w v room (put claim (w.lists o) v room),
    grown-IsValid claim (w.lists o) v room,
    grown-append claim (w.lists o) v room low,
  )

  -- On a valid list with room the call succeeds, changes nothing but this list, keeps it valid,
  -- counts one claim more, and has the new claim among the live ones.
  pub add_places :
      IsValid (w.lists o)
      → (w.lists o).count < (w.lists o).capacity
      → (l' : ClaimList) × (pos : ℕ) × (claim_add_to_list os claim o w
          ≡ done (IpmResult.success, set_list o l' w))
        × IsValid l'
        × (l'.count ≡ (w.lists o).count + 1)
        × (get_elem? (live l') pos ≡ some claim)
  add_places v room =
      let p = put claim (w.lists o) v room in
      (
        grown (w.lists o) p.ys,
        p.pos,
        add_runs os claim o w v room p,
        grown-IsValid claim (w.lists o) v room,
        omega arith,
        ground (
          arith,
          get_elem?-take ((w.lists o).count + 1) p.ys p.pos,
          p.insertion.slot p.pos,
          p.found.within,
        ),
      )

  -- On a valid list with room whose live claims are in order of their offsets, the call succeeds,
  -- changes nothing but this list, and leaves the slots below the old count in order.
  add_orders :
      IsValid (w.lists o)
      → (w.lists o).count < (w.lists o).capacity
      → Sorted (w.lists o).count (w.lists o).claims
      → (l' : ClaimList) × (claim_add_to_list os claim o w
          ≡ done (IpmResult.success, set_list o l' w))
        × Sorted (w.lists o).count l'.claims
  add_orders v room s =
      let p = put claim (w.lists o) v room in
      (
        grown (w.lists o) p.ys,
        add_runs os claim o w v room p,
        grown-Sorted claim (w.lists o) v room s,
      )

  -- The claim that is lost: where some live claim starts after the new one, the call succeeds, but
  -- the last live slot of the new list is the old list's first unused slot, unwritten, and every
  -- other live slot holds the new claim or a claim that was not the last.
  add_loses_last :
      IsValid (w.lists o)
      → (w.lists o).count < (w.lists o).capacity
      → (k : ℕ) (d : MemoryClaim) → k < (w.lists o).count
      → get_elem? (w.lists o).claims k ≡ some d
      → claim.offset < d.offset
      → (l' : ClaimList) × (claim_add_to_list os claim o w
          ≡ done (IpmResult.success, set_list o l' w))
        × (get_elem? (live l') (w.lists o).count ≡ get_elem? (w.lists o).claims (w.lists o).count)
        × ((i : ℕ)
            → i < (w.lists o).count
            → (get_elem? (live l') i ≡ some claim)
              ⊎ ((j : ℕ) × (j + 1 < (w.lists o).count)
                  × (get_elem? (live l') i ≡ get_elem? (w.lists o).claims j)))
  add_loses_last v room k d lt e up =
      let p = put claim (w.lists o) v room in
      let l = w.lists o in
      let within : p.pos < l.count = elim (dec_lt k p.pos) [
        | yes below ↦ absurd (ground (arith, p.found.misses k d))
        | no above ↦ omega arith
      ] in
      (
        grown l p.ys,
        add_runs os claim o w v room p,
        ground (arith, get_elem?-take (l.count + 1) p.ys l.count, p.insertion.slot l.count, within),
        λ i h. elim (dec_lt i p.pos) [
          | yes before ↦ inr (
            i,
            omega (arith, within),
            ground (arith, get_elem?-take (l.count + 1) p.ys i, p.insertion.slot i, within),
          )
          | no from ↦ elim (dec_lt p.pos i) [
            | yes beyond ↦ inr (
              i - 1,
              omega arith,
              ground (arith, get_elem?-take (l.count + 1) p.ys i, p.insertion.slot i, within),
            )
            | no not_beyond ↦
                inl
                  (ground (arith, get_elem?-take (l.count + 1) p.ys i, p.insertion.slot i, within))
          ]
        ],
      )
