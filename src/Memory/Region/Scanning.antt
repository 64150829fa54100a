-- ===== src/Memory/Region/Scanning.antt =====
-- The state of the loop of `ipm_memory_release_all` (source/ipm_memory.c) between its rounds.
use native.Mathlib.Decide.{dec_lt}
use ipm.Base.{
  ℕ, ◌+◌, ◌-◌, ◌≤◌, ◌<◌, ◌≡◌, ◌≢◌, ◌∙◌, List, some, arith, get_elem?, get_elem?-some, sym, ap,
}
use ipm.Layout.{MemoryClaim, ClaimList}
use ipm.Claim.Valid.{IsValid}
use ipm.Claim.Remove.{Cut, shrunk}
use ipm.Claim.Remove.Results.{shrunk-IsValid}

-- Live claims with one id belong to one handle.
abbrev pub IdsIdentify : ClaimList → Type 0
IdsIdentify l =
    (i j : ℕ) (c d : MemoryClaim)
    → i < l.count
    → j < l.count
    → get_elem? l.claims i ≡ some c
    → get_elem? l.claims j ≡ some d
    → c.claim_id ≡ d.claim_id
    → c.proc_id ≡ d.proc_id

-- No claim of the handle among the first `n` slots.
abbrev pub NoneOf : ℕ → ℕ → List MemoryClaim → Type 0
NoneOf proc_id n xs =
    (k : ℕ) (c : MemoryClaim) → k < n → get_elem? xs k ≡ some c → c.proc_id ≢ proc_id

-- A slot of the list after a removal is a slot of the list before it.
pub shrunk_slot :
    (claim_id : ℕ) (l : ClaimList) (c : Cut claim_id l.count l.claims) (i : ℕ) (d : MemoryClaim)
    → i < l.count - 1
    → get_elem? c.ys i ≡ some d
    → (j : ℕ) × (j < l.count) × (get_elem? l.claims j ≡ some d)
shrunk_slot claim_id l c i d lt e = elim (dec_lt i c.pos) [
  | yes before ↦ (i, omega arith, ground (arith, c.removal.slot i))
  | no from ↦ elim (dec_lt (i + 2) l.count) [
    | yes moved ↦ (i + 1, omega arith, ground (arith, c.removal.slot i))
    | no kept ↦ (i, omega arith, ground (arith, c.removal.slot i))
  ]
]

shrunk-IdsIdentify :
    (claim_id : ℕ) (l : ClaimList) (c : Cut claim_id l.count l.claims)
    → IdsIdentify l
    → IdsIdentify (shrunk l c.ys)
shrunk-IdsIdentify claim_id l c ids i j x y li lj ei ej same =
    let (i', li', ei') = shrunk_slot claim_id l c i x li ei in
    let (j', lj', ej') = shrunk_slot claim_id l c j y lj ej in ids i' j' x y li' lj' ei' ej' same

-- The loop stands at `i`; all claims below are of others.
pub record AtIndex (proc_id i : ℕ) (l : ClaimList) : Type 0 where
  pub valid : IsValid l
  pub room : l.count < l.capacity
  pub ids : IdsIdentify l
  pub passed : NoneOf proc_id i l.claims
  pub reached : i ≤ l.count

-- The removal at the loop's index takes out the entry at that index.
removal_place :
    (proc_id i : ℕ) (l : ClaimList) (x : MemoryClaim)
    → AtIndex proc_id i l
    → i < l.count
    → get_elem? l.claims i ≡ some x
    → x.proc_id ≡ proc_id
    → (c : Cut x.claim_id l.count l.claims) → c.pos ≡ i
removal_place proc_id i l x a lt e own c =
    let (y, q) =
      get_elem?-some l.claims c.pos (omega (arith, a.valid.slots, a.valid.within, c.inside)) in
    let hit = c.found.hit y c.inside q in
    let same : y.claim_id ≡ x.claim_id = ground arith in
    let its : y.proc_id ≡ x.proc_id = a.ids c.pos i y x c.inside lt q e same in
    elim (dec_lt c.pos i) [
      | yes below ↦ absurd (a.passed c.pos y below q (its ∙ own))
      | no from ↦ elim (dec_lt i c.pos) [
        | yes above ↦ absurd (ground (arith, c.found.misses i x))
        | no here ↦ omega arith
      ]
    ]

pub AtIndex-shrunk :
    (proc_id i : ℕ) (l : ClaimList) (x : MemoryClaim)
    → AtIndex proc_id i l
    → i < l.count
    → get_elem? l.claims i ≡ some x
    → x.proc_id ≡ proc_id
    → (c : Cut x.claim_id l.count l.claims) → AtIndex proc_id i (shrunk l c.ys)
AtIndex-shrunk proc_id i l x a lt e own c =
    let here = removal_place proc_id i l x a lt e own c in
    record {
      valid = shrunk-IsValid x.claim_id l a.valid c;
      room = omega (arith, a.room);
      ids = shrunk-IdsIdentify x.claim_id l c a.ids;
      passed = λ k d lk ek. a.passed k d lk (ground (arith, here, c.removal.slot k));
      reached = omega arith;
    }

-- What the loop leaves: a valid list, with no claim of the handle and no claim that is new.
pub record Cleared (proc_id : ℕ) (before after : ClaimList) : Type 0 where
  pub valid : IsValid after
  pub none_left : NoneOf proc_id after.count after.claims
  pub no_new :
      (i : ℕ) (d : MemoryClaim)
      → i < after.count
      → get_elem? after.claims i ≡ some d
      → (j : ℕ) × (j < before.count) × (get_elem? before.claims j ≡ some d)
  pub counter : after.claim_counter ≡ before.claim_counter

pub Cleared-shrunk :
    (proc_id claim_id : ℕ) (l after : ClaimList) (c : Cut claim_id l.count l.claims)
    → Cleared proc_id (shrunk l c.ys) after
    → Cleared proc_id l after
Cleared-shrunk proc_id claim_id l after c r = record {
  valid = r.valid;
  none_left = r.none_left;
  no_new = λ i d lt e. let (j, lj, ej) = r.no_new i d lt e in shrunk_slot claim_id l c j d lj ej;
  counter = r.counter;
}

pub AtIndex-next :
    (proc_id i : ℕ) (l : ClaimList) (x : MemoryClaim)
    → AtIndex proc_id i l
    → i < l.count
    → get_elem? l.claims i ≡ some x
    → x.proc_id ≢ proc_id
    → AtIndex proc_id (i + 1) l
AtIndex-next proc_id i l x a lt e other = record {
  valid = a.valid;
  room = a.room;
  ids = a.ids;
  passed = λ k d lk ek. elim (dec_lt k i) [
    | yes below ↦ a.passed k d below ek
    | no at ↦
        let here : k ≡ i = omega arith in
        let same : some d ≡ some x = sym ek ∙ ap (get_elem? l.claims) here ∙ e in
        ground (arith, same, other)
  ];
  reached = omega arith;
}
