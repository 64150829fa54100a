-- ===== src/Memory/Region/Locking/Claiming.antt =====
-- `ipm_memory_claim_region` gives back the mutex that it takes.
use ipm.Base.{
  ℕ, zero, suc, ◌+◌, ◌&&◌, not, ltb, ◌≡◌, ◌≢◌, Bool-cases, List, String, [], ◌∷◌, Option, none,
  arith, inl, inr, refl, sym, ◌∙◌,
}
use ipm.Error.{IpmResult}
use ipm.Layout.{AccessMode, MemoryClaim, u64}
use ipm.System.{Errno, Mutex, Arg, World, Posix, done, M, ◌>>=◌, set_list}
use ipm.System.Inversion.{bind-Stepped}
use ipm.Platform.{ipm_mutex_unlock, ipm_condition_wait}
use ipm.Platform.Locking.{Locks, holds, holds-ipm_mutex_unlock, holds-ipm_condition_wait}
use ipm.Common.{ipm_report_error}
use ipm.Common.Kept.{Kept, report_kept}
use ipm.Claim.{is_read_only, is_success, claim_add_to_list}
use ipm.Memory.{IpmMemory, reason}
use ipm.Memory.Region.{await_turn, claim_locked, ipm_memory_claim_region}
use ipm.Memory.Region.Still.{add_still}
use ipm.Memory.Region.Guarded.{conclude}
use ipm.Memory.Region.Locking.{holds-guarded}

module _ {K : Type 0} (os : Posix K) (l : Locks os) where
  holds-await_turn :
      (fuel : ℕ) (claim : MemoryClaim) (o : ℕ) (res : IpmResult) (w u : World K)
      → await_turn os fuel claim o w ≡ done (res, u)
      → holds os l u ≡ holds os l w
  unfolding await_turn
  holds-await_turn zero claim o res w u e = absurd (ground arith)
  holds-await_turn (suc fuel) claim o res w u e =
      let mtx = Mutex.list_mutex o in
      let w1 = (ipm_condition_wait os o mtx w).1 in
      ground (arith, holds-ipm_condition_wait os l o mtx w, holds-await_turn fuel claim o res w1 u)

module _ {K : Type 0} (os : Posix K) (l : Locks os) (memory : IpmMemory K)
    (kept : Kept memory.ctx l.owned) where
  abbrev at : World K → List Mutex
  at = holds os l

  holds-concluded :
      (claim : MemoryClaim) (o : ℕ) (res : IpmResult) (id : Option ℕ) (held : List Mutex)
      (w u : World K)
      → (claim_add_to_list os claim o >>= conclude os memory o claim.claim_id) w
        ≡ done ((res, id), u)
      → res ≢ IpmResult.err_list_size_mismatch
      → at w ≡ Mutex.list_mutex o ∷ held
      → at u ≡ held
  holds-concluded claim o res id held w u e fits start =
      let mtx = Mutex.list_mutex o in
      let s =
        bind-Stepped (claim_add_to_list os claim o) (conclude os memory o claim.claim_id) w
          ((res, id), u) e in
      let same : s.value ≡ res = ground (arith, s.rest) in
      let added =
        add_still os at (λ p list v. refl) claim o s.value w s.between s.first
          (λ q. fits (sym same ∙ q)) in
      let unlocked = (ipm_mutex_unlock os mtx s.between).1 in
      let told =
        report_kept os memory.ctx l.owned kept "Could not add memory claim to list, reason: %s (%s)"
          (reason s.value) unlocked in
      ground (arith, s.rest, told, holds-ipm_mutex_unlock os l mtx held s.between (added ∙ start))

  holds-claim_locked :
      (fuel : ℕ) (access : AccessMode) (offset count o : ℕ) (res : IpmResult) (id : Option ℕ)
      (held : List Mutex) (w u : World K)
      → claim_locked os fuel memory access offset count o w ≡ done ((res, id), u)
      → res ≢ IpmResult.err_list_size_mismatch
      → at w ≡ Mutex.list_mutex o ∷ held
      → at u ≡ held
  unfolding claim_locked
  holds-claim_locked fuel access offset count o res id held w u e fits start =
      let mtx = Mutex.list_mutex o in
      let list = w.lists o in
      let claim : MemoryClaim = record {
        claim_id = list.claim_counter;
        proc_id = memory.real_memory.access_id;
        access = access;
        offset = offset;
        size = count;
      } in
      let begun = set_list o (record list { claim_counter = u64 (list.claim_counter + 1) }) w in
      let s = bind-Stepped (await_turn os fuel claim o) _ begun ((res, id), u) e in
      let waited = holds-await_turn os l fuel claim o s.value begun s.between s.first in
      elim (Bool-cases (is_success s.value)) [
        | inr bad ↦
            let told =
              report_kept os memory.ctx l.owned kept
                "Could not wait on condition variable, reason: %s (%s)" (reason s.value)
                s.between in
            let v =
              ipm_report_error os memory.ctx "Could not wait on condition variable, reason: %s (%s)"
                (reason s.value) s.between in
            ground (arith, bad, s.rest, holds-ipm_mutex_unlock os l mtx held v, told, waited, start)
        | inl good ↦
            holds-concluded claim o res id held s.between u (ground (arith, good, s.rest)) fits
              (waited ∙ start)
      ]

  pub holds-claim_region :
      (fuel : ℕ) (access : AccessMode) (offset count : ℕ) (res : IpmResult) (id : Option ℕ)
      (w u : World K)
      → w.errno ≢ Errno.eownerdead
      → ipm_memory_claim_region os fuel memory access offset count w ≡ done ((res, id), u)
      → res ≢ IpmResult.err_list_size_mismatch
      → at u ≡ at w
  unfolding ipm_memory_claim_region
  holds-claim_region fuel access offset count res id w u fresh e fits =
      let readonly =
        report_kept os memory.ctx l.owned kept
          "Memory block was opened as read-only and can not be claimed for read only access" [] w in
      let args =
        Arg.number memory.real_memory.size
        ∷ Arg.number offset
        ∷ Arg.number (u64 (offset + count))
        ∷ [] in
      let outside =
        report_kept os memory.ctx l.owned kept
          "Memory block has the size of %zu, so region [%zu, %zu) can not be claimed" args w in
      let msg : String = "Could not lock access list mutex, reason: %s (%s)" in
      let body : ℕ → IpmResult → M K (IpmResult × Option ℕ) =
        λ o res. claim_locked os fuel memory access offset count o in
      let read_only_block =
        is_read_only memory.real_memory.access_mode && not (is_read_only access) in
      elim (Bool-cases read_only_block) [
        | inl denied ↦ ground (arith, denied, e, readonly)
        | inr allowed ↦ elim (Bool-cases (ltb memory.real_memory.size (u64 (offset + count)))) [
          | inl too_long ↦ ground (arith, allowed, too_long, e, outside)
          | inr inside ↦
              holds-guarded os l memory kept msg (λ bad. (bad, none)) body (res, id) w u fresh
                (ground (arith, allowed, inside, e))
                (λ o got v start locked.
                  holds-claim_locked fuel access offset count o res id (at w) v u locked fits start)
        ]
      ]
