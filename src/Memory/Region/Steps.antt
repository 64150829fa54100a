-- ===== src/Memory/Region/Steps.antt =====
-- The claim list after each call on it, as the calls (source/ipm_memory.c) change it.
use ipm.Base.{
  ℕ, ◌+◌, ◌^◌, ◌<◌, ◌≤◌, ◌≡◌, ◌∙◌, List, [], ◌∷◌, ◌++◌, some, arith, sym, ap, subst, refl,
  get_elem?,
}
use ipm.Layout.{AccessMode, MemoryClaim, ClaimList}
use ipm.System.{World, Posix, set_list}
use ipm.Claim.Valid.{live, IsValid}
use ipm.Claim.Add.{grown, add_runs}
use ipm.Claim.Add.Results.{put, grown-IsValid, grown-append}
use ipm.Claim.Remove.{shrunk, lists-set_list}
use ipm.Claim.Remove.Results.{shrunk-IsValid}
use ipm.Memory.{IpmMemory}
use ipm.Memory.Region.Waiting.{Admissible, admits-Admissible}
use ipm.Memory.Region.Claiming.{claim_of}
use ipm.Memory.Region.Scanning.{Cleared, shrunk_slot}
use ipm.Memory.Region.Alone.{KeepsLists, counted, Joined, Left}
use ipm.Memory.Region.Order.{InLive, Sound, InLive-slot, slot-InLive, Sound-Within, Sound-append}

module _ {K : Type 0} (os : Posix K) (keeps : KeepsLists os) (o : ℕ) where
  pub Joined-Sound :
      (memory : IpmMemory K) (access : AccessMode) (offset count id : ℕ) (w u : World K)
      → (w.lists o).claim_counter + 1 < 2 ^ 64
      → ((c : MemoryClaim) → InLive (w.lists o) c → c.offset ≤ offset)
      → Sound (w.lists o)
      → Joined os keeps o memory access offset count id w u
      → Sound (u.lists o)
  Joined-Sound memory access offset count id w u small low s j =
      let claim = claim_of memory access offset count id in
      let l = w.lists o in
      let lm = j.moment.lists o in
      let valid : IsValid (counted os keeps o memory access offset count l) = record {
        slots = s.valid.slots;
        within = s.valid.within;
        small = s.valid.small;
      } in
      let vm = subst IsValid (sym j.list) valid in
      let fm = admits-Admissible claim lm j.free in
      let f = subst (Admissible claim) j.list fm in
      let free : Admissible claim l = record { room = f.room; free = f.free } in
      let room : lm.count < lm.capacity = omega (arith, vm.within, fm.room) in
      let same_live : live lm ≡ live l = ap live j.list in
      let low_slots =
        λ (k : ℕ) (c : MemoryClaim) (lt : k < lm.count) (e : get_elem? lm.claims k ≡ some c).
          low c (subst (λ (x : ClaimList). InLive x c) j.list (InLive-slot lm k c lt e)) in
      let after = grown lm (put claim lm vm room).ys in
      let runs = add_runs os claim o j.moment vm room (put claim lm vm room) in
      let ends : j.added ≡ set_list o after j.moment = cc (j.adds, runs) in
      let there : u.lists o ≡ after =
        ap (λ (ls : ℕ → ClaimList). ls o) j.after
        ∙ ap (λ (v : World K). v.lists o) ends
        ∙ lists-set_list o after j.moment in
      subst Sound (sym there) (
        Sound-append claim l after s free (sym j.its_id)
          (omega (arith, small, j.its_id, ap ClaimList.claim_counter j.list))
          (grown-IsValid claim lm vm room)
          (grown-append claim lm vm room low_slots
            ∙ ap (λ (xs : List MemoryClaim). xs ++ (claim ∷ [])) same_live))

  pub Left-Sound :
      (memory : IpmMemory K) (claim_id : ℕ) (w u : World K)
      → Sound (w.lists o)
      → Left os keeps o memory claim_id (w.lists o) (u.lists o)
      → Sound (u.lists o)
  Left-Sound memory claim_id w u s t =
      let l = w.lists o in
      let after = shrunk l t.cut_out.ys in
      subst Sound (sym t.rest) (
        Sound-Within l after s (shrunk-IsValid claim_id l s.valid t.cut_out) (record {
          was = λ c ic.
              let (k, lt, e) = slot-InLive after c ic in
              let (j, lj, ej) = shrunk_slot claim_id l t.cut_out k c lt e in
              InLive-slot l j c lj ej;
          counter = refl;
        }))

  pub Cleared-Sound :
      (proc_id : ℕ) (l after : ClaimList) → Sound l → Cleared proc_id l after → Sound after
  Cleared-Sound proc_id l after s r = Sound-Within l after s r.valid (record {
    was = λ c ic.
        let (k, lt, e) = slot-InLive after c ic in
        let (j, lj, ej) = r.no_new k c lt e in InLive-slot l j c lj ej;
    counter = r.counter;
  })

  -- A list on which only an id was given away.
  pub Sound-counted :
      (l after : ClaimList)
      → Sound l
      → after ≡ record l { claim_counter = l.claim_counter + 1 }
      → Sound after
  Sound-counted l after s e = subst Sound (sym e) (record {
    valid = record { slots = s.valid.slots; within = s.valid.within; small = s.valid.small };
    peace = s.peace;
    below = λ c ic. omega (arith, s.below c ic);
    ids = s.ids;
  })
