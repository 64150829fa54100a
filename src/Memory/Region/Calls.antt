-- ===== src/Memory/Region/Calls.antt =====
-- Sequences of calls on one claim list: `ipm_memory_claim_region`, `ipm_memory_release_region`,
-- `ipm_memory_release_all` and `ipm_memory_remove_all_active_claims`, by any number of handles.
use ipm.Base.{
  ℕ, ◌+◌, ◌^◌, ◌<◌, ◌≤◌, ◌≡◌, ◌∙◌, some, none, inl, inr, arith, sym, ap, subst, Bool-cases,
}
use ipm.Error.{IpmResult}
use ipm.Layout.{AccessMode, MemoryClaim}
use ipm.Platform.{ipm_mutex_lock}
use ipm.Claim.{is_success}
use ipm.System.{Mutex, World, Posix, done}
use ipm.Claim.Remove.Results.{Holds}
use ipm.Memory.{IpmMemory}
use ipm.Memory.Region.{
  ipm_memory_claim_region, ipm_memory_release_region, ipm_memory_release_all,
  ipm_memory_remove_all_active_claims,
}
use ipm.Memory.Region.LockedOut.{
  release_region_succeeds, release_region_locked_out, release_all_returns_lock,
  release_all_locked_out, remove_all-empty, remove_all_locked_out,
}
use ipm.Memory.Region.Alone.{
  KeepsLists, claim_region-Joined, release_region-Left, release_all-Cleared,
}
use ipm.Memory.Region.Unclaimed.{claim_region_unclaimed}
use ipm.Memory.Region.Steps.{Joined-Sound, Left-Sound, Cleared-Sound, Sound-counted}
use ipm.Memory.Region.Order.{InLive, Sound, empty-Sound, Sound-IdsIdentify}

module _ {K : Type 0} (os : Posix K) (keeps : KeepsLists os) (o : ℕ) where
  -- The handle's claims are in this object.
  abbrev pub Claims : IpmMemory K → Type 0
  Claims memory =
      (address : ℕ) × (memory.active_claims.memory
        ≡ some (record { address = address; object = o }))

  -- One call. A claim that is granted starts at or behind the live ones; whether or not it is, the
  -- counter of ids does not wrap round. A release is of a live claim, and at a release or a removal
  -- the list is not full.
  pub data ApiCall (w u : World K) : Type 0 where
    claims :
        (memory : IpmMemory K) (access : AccessMode) (offset count fuel id : ℕ)
        → Claims memory
        → (w.lists o).claim_counter + 1 < 2 ^ 64
        → ((c : MemoryClaim) → InLive (w.lists o) c → c.offset ≤ offset)
        → ipm_memory_claim_region os fuel memory access offset count w
          ≡ done ((IpmResult.success, some id), u)
        → ApiCall w u
    gives_up :
        (memory : IpmMemory K) (access : AccessMode) (offset count fuel : ℕ) (res : IpmResult)
        → Claims memory
        → (w.lists o).claim_counter + 1 < 2 ^ 64
        → ipm_memory_claim_region os fuel memory access offset count w ≡ done ((res, none), u)
        → ApiCall w u
    releases :
        (memory : IpmMemory K) (claim_id : ℕ) (res : IpmResult)
        → Claims memory
        → (w.lists o).count < (w.lists o).capacity
        → Holds (w.lists o) claim_id
        → ipm_memory_release_region os memory claim_id w ≡ done (res, u)
        → ApiCall w u
    leaves :
        (memory : IpmMemory K) (fuel : ℕ) (res : IpmResult)
        → Claims memory
        → (w.lists o).count < (w.lists o).capacity
        → (w.lists o).count < fuel
        → ipm_memory_release_all os fuel memory w ≡ done (res, u)
        → ApiCall w u
    empties :
        (memory : IpmMemory K) (fuel : ℕ) (res : IpmResult)
        → Claims memory
        → (w.lists o).count < (w.lists o).capacity
        → (w.lists o).count < fuel
        → ipm_memory_remove_all_active_claims os fuel memory w ≡ done (res, u)
        → ApiCall w u

  -- Any number of calls.
  pub data ApiCalls (w : World K) : World K → Type 0 where
    start : ApiCalls w w
    call : {v u : World K} → ApiCalls w v → ApiCall v u → ApiCalls w u

  ApiCall-Sound : (w u : World K) → ApiCall w u → Sound (w.lists o) → Sound (u.lists o)
  ApiCall-Sound w u (claims memory access offset count fuel id (address, at) small low e) s =
      Joined-Sound os keeps o memory access offset count id w u small low s
        (claim_region-Joined os keeps o memory access offset count fuel id address w u at e)
  ApiCall-Sound w u (gives_up memory access offset count fuel res (address, at) small e) s =
      elim (claim_region_unclaimed os keeps o memory access offset count fuel address res w u at
        e) [
          | inl (failed, same) ↦ subst Sound (sym same) s
          | inr (fine, counted_on) ↦
              Sound-counted os keeps o (w.lists o) (u.lists o) s (ground (arith, counted_on, small))
        ]
  ApiCall-Sound w u (releases memory claim_id res (address, at) room held e) s =
      elim (Bool-cases (is_success (ipm_mutex_lock os (Mutex.list_mutex o) w).0)) [
        | inl good ↦
            let fine =
              release_region_succeeds os keeps o memory address at res w u claim_id s.valid room
                held e good in
            Left-Sound os keeps o memory claim_id w u s (
              release_region-Left os keeps o memory claim_id address w u at s.valid room held
                (e ∙ ap (λ (r : IpmResult). done (r, u)) fine))
        | inr out ↦
            subst Sound
              (sym (release_region_locked_out os keeps o memory address at res w u claim_id e out))
              s
      ]
  ApiCall-Sound w u (leaves memory fuel res (address, at) room enough e) s =
      elim (Bool-cases (is_success (ipm_mutex_lock os (Mutex.list_mutex o) w).0)) [
        | inl good ↦
            let fine : res ≡ IpmResult.success =
              release_all_returns_lock os keeps o memory address at res w u fuel e
              ∙ ground (arith, good) in
            Cleared-Sound os keeps o memory.real_memory.access_id (w.lists o) (u.lists o) s (
              release_all-Cleared os keeps o memory fuel address w u at s.valid room
                (Sound-IdsIdentify (w.lists o) s) enough
                (e ∙ ap (λ (r : IpmResult). done (r, u)) fine))
        | inr out ↦
            subst Sound
              (sym (release_all_locked_out os keeps o memory address at res w u fuel e out)) s
      ]
  ApiCall-Sound w u (empties memory fuel res (address, at) room enough e) s =
      elim (Bool-cases (is_success (ipm_mutex_lock os (Mutex.list_mutex o) w).0)) [
        | inl good ↦
            let (valid, none_left) =
              remove_all-empty os keeps o memory address at res w u fuel s.valid room enough e
                good in
            empty-Sound (u.lists o) valid none_left
        | inr out ↦
            subst Sound
              (sym (remove_all_locked_out os keeps o memory address at res w u fuel e out)) s
      ]

  -- Over any sequence of calls by any number of handles, one after the other, where the calls on
  -- mutexes and condition variables leave all lists as they are, a sound list stays sound: it stays
  -- valid, no two live claims conflict, live ids are below the counter, and two live claims with one
  -- id are of one handle. The calls, whatever they return, are claims, releases of one claim or of
  -- all of a handle, and removals of every claim. Each claim that is granted starts at or behind the
  -- live ones, the counter does not wrap round, each release of one claim is of a live one, lists are
  -- not full at releases and removals, and the loops have more fuel than there are claims.
  pub called_in_order : (w u : World K) → ApiCalls w u → Sound (w.lists o) → Sound (u.lists o)
  called_in_order w u start s = s
  called_in_order w u (call {v = v} before c) s = ApiCall-Sound v u c (called_in_order w v before s)
