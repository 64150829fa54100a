-- ===== src/Memory/Region/Exclusive.antt =====
-- What the claims are for (README.md): the bytes of a claim for writing are its handle's alone.
-- `claim_list_init`, and then calls by any number of handles.
use ipm.Base.{
  ℕ, ◌<◌, ◌≡◌, ◌≢◌, ◌^◌, ◌∙◌, ap, true, ◌&&◌, ◌==◌, ◌⊎◌, arith, length, Bool-cases, inl, inr,
}
use ipm.Error.{IpmResult}
use ipm.Layout.{MemoryClaim, ClaimList}
use ipm.System.{Mutex, World, Posix, done}
use ipm.Platform.{ipm_mutex_init, ipm_condition_init}
use ipm.Platform.Still.{mutex_init_still, condition_init_still}
use ipm.Claim.{is_read_only, claim_list_init}
use ipm.Claim.Conflict.{Covers, Fits, overlap_conflicts}
use ipm.Memory.Region.Alone.{KeepsLists}
use ipm.Memory.Region.Order.{InLive, Sound, empty-Sound}
use ipm.Memory.Region.Calls.{ApiCalls, called_in_order}

module _ {K : Type 0} (os : Posix K) (keeps : KeepsLists os) (o : ℕ) where
  abbrev lists_of : World K → ℕ → ClaimList
  lists_of w = w.lists

  claim_list_init-Sound :
      (capacity : ℕ) (w v : World K)
      → length (w.lists o).claims ≡ capacity
      → capacity < 2 ^ 31
      → claim_list_init os o capacity w ≡ done (IpmResult.success, v)
      → Sound (v.lists o)
  unfolding claim_list_init
  claim_list_init-Sound capacity w v slots small e =
      let made = ipm_mutex_init os (Mutex.list_mutex o) w in
      let same = mutex_init_still os lists_of keeps (Mutex.list_mutex o) w in
      let ready = ipm_condition_init os o made.1 in
      let same' = condition_init_still os lists_of keeps o made.1 in
      let there : ready.1.lists o ≡ w.lists o = ap (λ (f : ℕ → ClaimList). f o) (same' ∙ same) in
      empty-Sound (v.lists o)
        (record {
          slots = ground (arith, e, there, slots);
          within = ground (arith, e);
          small = ground (arith, e, small);
        })
        (ground (arith, e))

  -- A byte that one handle has claimed for writing is in no other handle's claim. Let
  -- `claim_list_init` succeed on an array with a slot for each claim of the capacity, and let any
  -- handles then make any sequence of calls, one after the other, whatever they return: claims,
  -- releases of one claim or of all of the handle, and removals of every claim. The calls on
  -- mutexes and condition variables leave all lists as they are, each claim that is granted starts
  -- at or behind the live ones, the counter does not wrap round, each release of one claim is of a
  -- live one, lists are not full at releases and removals, and the loops have more fuel than there
  -- are claims. Then two live claims whose regions do not wrap round and have a byte in common are
  -- of one handle, or both for reading.
  pub writers_alone :
      (capacity b : ℕ) (w v u : World K) (c d : MemoryClaim)
      → length (w.lists o).claims ≡ capacity
      → capacity < 2 ^ 31
      → claim_list_init os o capacity w ≡ done (IpmResult.success, v)
      → ApiCalls os keeps o v u
      → InLive (u.lists o) c
      → InLive (u.lists o) d
      → Fits c
      → Fits d
      → Covers c b
      → Covers d b
      → (c.proc_id ≡ d.proc_id) ⊎ (is_read_only c.access && is_read_only d.access ≡ true)
  writers_alone capacity b w v u c d slots small begins calls ic id fc fd hc hd =
      let first = claim_list_init-Sound capacity w v slots small begins in
      let last = called_in_order os keeps o v u calls first in
      let apart = last.peace c d ic id in
      elim (Bool-cases (c.proc_id == d.proc_id)) [
        | inl same ↦ inl (ground (arith, same))
        | inr other ↦ elim (Bool-cases (is_read_only c.access && is_read_only d.access)) [
          | inl reads ↦ inr reads
          | inr writes ↦
              let procs : c.proc_id ≢ d.proc_id = λ e. ground (arith, e, other) in
              let together = overlap_conflicts c d b fc fd procs writes hc hd in
              absurd (ground (arith, apart, together))
        ]
      ]
