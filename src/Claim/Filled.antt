-- ===== src/Claim/Filled.antt =====
-- A claim list that has become full (source/memory_claim.c).
use ipm.Base.{ℕ, ◌+◌, ◌-◌, ◌^◌, ◌<◌, ◌≡◌, Bool, true, false, arith, inl, subst, sym}
use ipm.Error.{IpmResult}
use ipm.Layout.{MemoryClaim, ClaimList, u64}
use ipm.Platform.{ipm_mutex_unlock}
use ipm.System.{Mutex, World, Posix, done, aborted, set_list}
use ipm.Claim.{claim_add_to_list, claim_remove_from_list, claims_iterate}
use ipm.Claim.Valid.{IsValid}
use ipm.Claim.Add.{grown, add_runs}
use ipm.Claim.Add.Results.{put, grown-IsValid}
use ipm.Claim.Remove.{lists-set_list}
use ipm.Claim.Remove.Results.{remove_full_or_empty_aborts}
use ipm.Claim.Iterate.{iterate_full_skips}

module _ {K : Type 0} (os : Posix K) (claim : MemoryClaim) (o : ℕ) (w : World K) where
  -- The claim that fills the list is accepted, but in a build without NDEBUG no claim can be removed
  -- then: whatever the id, the assert stops the process. And `claims_iterate` returns success without
  -- a call of the callback.
  pub filled_list_stuck :
      (claim_id : ℕ) (callback : MemoryClaim → World K → Bool × World K)
      → IsValid (w.lists o)
      → (w.lists o).count + 1 ≡ (w.lists o).capacity
      → os.ndebug ≡ false
      → (l1 : ClaimList) × (claim_add_to_list os claim o w
          ≡ done (IpmResult.success, set_list o l1 w))
        × (claim_remove_from_list os claim_id o (set_list o l1 w) ≡ aborted)
        × (claims_iterate os o callback (set_list o l1 w)
            ≡ done (IpmResult.success, set_list o l1 w))
  filled_list_stuck claim_id callback v last debug =
      let l = w.lists o in
      let room : l.count < l.capacity = omega arith in
      let l1 = grown l (put claim l v room).ys in
      let there = sym (lists-set_list o l1 w) in
      let valid = subst IsValid there (grown-IsValid claim l v room) in
      let full = subst (λ (x : ClaimList). x.count ≡ x.capacity) there last in
      (
        l1,
        add_runs os claim o w v room (put claim l v room),
        remove_full_or_empty_aborts os claim_id o (set_list o l1 w) valid debug (inl full),
        iterate_full_skips os o callback (set_list o l1 w) valid full,
      )

module _ {K : Type 0} (os : Posix K) (o : ℕ) (w : World K) where
  -- The count that an empty list has after a removal.
  abbrev pub wrapped : ClaimList
  wrapped = record (w.lists o) { count = 2 ^ 64 - 1 }

  -- A removal from an empty list, in a build with NDEBUG, spoils it: the call returns
  -- ERR_INVALID_CLAIM, but has decremented the count to 2^64 - 1, so that from then on no claim is
  -- accepted, and a walk finds a count that does not fit an `unsigned`.
  pub emptied_list_dead :
      (claim_id : ℕ) (claim : MemoryClaim) (callback : MemoryClaim → World K → Bool × World K)
      → IsValid (w.lists o)
      → (w.lists o).count ≡ 0
      → os.ndebug ≡ true
      → (claim_remove_from_list os claim_id o w
          ≡ done (IpmResult.err_invalid_claim, set_list o wrapped w))
        × (claim_add_to_list os claim o (set_list o wrapped w)
            ≡ done (
              IpmResult.err_list_size_mismatch,
              (ipm_mutex_unlock os (Mutex.list_mutex o) (set_list o wrapped w)).1,
            ))
        × (claims_iterate os o callback (set_list o wrapped w)
            ≡ done (IpmResult.err_list_size_mismatch, set_list o wrapped w))
  unfolding claim_remove_from_list claim_add_to_list claims_iterate
  emptied_list_dead claim_id claim callback v none_live debug =
      let there = lists-set_list o wrapped w in
      let less : u64 ((w.lists o).count + 2 ^ 64 - 1) ≡ 2 ^ 64 - 1 = omega (arith, none_live) in
      (
        ground (arith, none_live, debug),
        ground (arith, there, debug, v.small),
        ground (arith, there, debug, v.small),
      )
