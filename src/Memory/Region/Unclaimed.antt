-- ===== src/Memory/Region/Unclaimed.antt =====
-- What an `ipm_memory_claim_region` that gives no claim leaves of the list: a refusal, a lock that
-- failed, or a wait that failed.
use ipm.Base.{
  ℕ, ◌+◌, ◌≡◌, ◌≢◌, ◌⊎◌, subst, ◌∙◌, ap, inl, inr, Bool-cases, not, ◌&&◌, ltb, String, [], ◌∷◌,
  Option, none, some, arith,
}
use ipm.Error.{IpmResult}
use ipm.Layout.{AccessMode, MemoryClaim, ClaimList, u64}
use ipm.System.{Mutex, Arg, World, Posix, done, M, ◌>>=◌}
use ipm.System.Inversion.{bind-Stepped}
use ipm.Platform.{ipm_mutex_lock}
use ipm.Platform.Still.{mutex_lock_still, mutex_unlock_still}
use ipm.Common.{ipm_report_error}
use ipm.Common.Local.{report_local}
use ipm.Claim.{is_read_only, is_success, claim_add_to_list}
use ipm.Claim.Remove.{lists-set_list}
use ipm.Memory.{IpmMemory, reason}
use ipm.Memory.Region.{await_turn, claim_locked, ipm_memory_claim_region}
use ipm.Memory.Region.Alone.{KeepsLists, lists_of, counted, await_turn_alone}
use ipm.Memory.Region.Claiming.{claim_of, numbered}
use ipm.Memory.Region.Guarded.{guarded, guarded-Course, entered, refused, conclude}

module _ {K : Type 0} (os : Posix K) (keeps : KeepsLists os) (o : ℕ) (memory : IpmMemory K)
    (access : AccessMode) (offset count : ℕ) where
  abbrev more : ClaimList → ClaimList
  more = counted os keeps o memory access offset count

  concluded_claims :
      (claim : MemoryClaim) (res : IpmResult) (w u : World K)
      → (claim_add_to_list os claim o >>= conclude os memory o claim.claim_id) w
        ≢ done ((res, none), u)
  concluded_claims claim res w u e =
      let s =
        bind-Stepped (claim_add_to_list os claim o) (conclude os memory o claim.claim_id) w
          ((res, none), u) e in
      absurd (ground (arith, s.rest))

  claim_locked_unclaimed :
      (fuel : ℕ) (res : IpmResult) (w u : World K)
      → claim_locked os fuel memory access offset count o w ≡ done ((res, none), u)
      → (res ≡ IpmResult.success) × (u.lists o ≡ more (w.lists o))
  unfolding claim_locked
  claim_locked_unclaimed fuel res w u e =
      let c = claim_of memory access offset count (w.lists o).claim_counter in
      let start = numbered os memory access offset count o w in
      let s = bind-Stepped (await_turn os fuel c o) _ start ((res, none), u) e in
      let waited = await_turn_alone os keeps o fuel c s.value start s.between s.first in
      elim (Bool-cases (is_success s.value)) [
        | inl good ↦ absurd (concluded_claims c res s.between u (ground (arith, good, s.rest)))
        | inr bad ↦
            let msg : String = "Could not wait on condition variable, reason: %s (%s)" in
            let told = report_local os memory.ctx msg (reason s.value) s.between in
            let v = ipm_report_error os memory.ctx msg (reason s.value) s.between in
            let unlocked = mutex_unlock_still os lists_of keeps (Mutex.list_mutex o) v in
            let same : u.lists ≡ start.lists =
              ground (arith, bad, s.rest, unlocked, told, waited) in
            (
              ground (arith, bad, s.rest),
              ap (λ (f : ℕ → ClaimList). f o) same ∙ lists-set_list o (more (w.lists o)) w,
            )
      ]

  locked_unclaimed :
      (fuel address : ℕ) (res : IpmResult) (w u : World K)
      → memory.active_claims.memory ≡ some (record { address = address; object = o })
      → guarded os memory "Could not lock access list mutex, reason: %s (%s)"
          (λ bad. (bad, none))
          (λ p got. claim_locked os fuel memory access offset count p)
          w
        ≡ done ((res, none), u)
      → ((res ≢ IpmResult.success) × (u.lists o ≡ w.lists o))
        ⊎ ((res ≡ IpmResult.success) × (u.lists o ≡ more (w.lists o)))
  locked_unclaimed fuel address res w u at e =
      let msg : String = "Could not lock access list mutex, reason: %s (%s)" in
      let body : ℕ → IpmResult → M K (IpmResult × Option ℕ) =
        λ p got. claim_locked os fuel memory access offset count p in
      let out = ipm_mutex_lock os (Mutex.list_mutex o) w in
      let same : out.1.lists o ≡ w.lists o =
        ap (λ (f : ℕ → ClaimList). f o)
          (mutex_lock_still os lists_of keeps (Mutex.list_mutex o) w) in
      elim (guarded-Course os memory msg (λ bad. (bad, none)) body (res, none) w u e) [
        | refused p mapped bad got end ↦
            let object : p.object ≡ o = ground (arith, mapped, at) in
            let told = report_local os memory.ctx msg (reason out.0) out.1 in
            inl (
              λ fine. absurd (ground (arith, end, object, bad, fine)),
              ground (arith, end, object, same, told),
            )
        | entered p mapped good rest ↦
            let object : p.object ≡ o = ground (arith, mapped, at) in
            let (fine, counted_on) = claim_locked_unclaimed fuel res out.1 u (
              subst
                (λ (x : ℕ).
                  claim_locked os fuel memory access offset count x
                    (ipm_mutex_lock os (Mutex.list_mutex x) w).1
                  ≡ done ((res, none), u))
                object rest) in
            inr (fine, counted_on ∙ ap more same)
      ]

  -- A call that gives no id, of a handle whose claims are in the list, adds no claim, and its result
  -- tells which of two ways it ended in: an error leaves the list as it was; success, which is what a
  -- failed wait for the region returns, leaves a list that has only counted one id more. The calls on
  -- mutexes and condition variables leave all lists as they are.
  pub claim_region_unclaimed :
      (fuel address : ℕ) (res : IpmResult) (w u : World K)
      → memory.active_claims.memory ≡ some (record { address = address; object = o })
      → ipm_memory_claim_region os fuel memory access offset count w ≡ done ((res, none), u)
      → ((res ≢ IpmResult.success) × (u.lists o ≡ w.lists o))
        ⊎ ((res ≡ IpmResult.success) × (u.lists o ≡ more (w.lists o)))
  unfolding ipm_memory_claim_region
  claim_region_unclaimed fuel address res w u at e =
      let readonly =
        report_local os memory.ctx
          "Memory block was opened as read-only and can not be claimed for read only access" [] w in
      let args =
        Arg.number memory.real_memory.size
        ∷ Arg.number offset
        ∷ Arg.number (u64 (offset + count))
        ∷ [] in
      let outside =
        report_local os memory.ctx
          "Memory block has the size of %zu, so region [%zu, %zu) can not be claimed" args w in
      let here = λ (v : World K) (same : v.lists ≡ w.lists). ap (λ (f : ℕ → ClaimList). f o) same in
      let read_only_block =
        is_read_only memory.real_memory.access_mode && not (is_read_only access) in
      elim (Bool-cases read_only_block) [
        | inl denied ↦ inl (
          λ fine. absurd (ground (arith, denied, e, fine)),
          here u (ground (arith, denied, e, readonly)),
        )
        | inr allowed ↦ elim (Bool-cases (ltb memory.real_memory.size (u64 (offset + count)))) [
          | inl too_long ↦ inl (
            λ fine. absurd (ground (arith, allowed, too_long, e, fine)),
            here u (ground (arith, allowed, too_long, e, outside)),
          )
          | inr inside ↦
              locked_unclaimed fuel address res w u at (ground (arith, allowed, inside, e))
        ]
      ]
