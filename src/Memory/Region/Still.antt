-- ===== src/Memory/Region/Still.antt =====
-- What the changes of the claim list (source/memory_claim.c), the loops over it,
-- `ipm_memory_release_all` and `ipm_memory_remove_all_active_claims` (source/ipm_memory.c) leave alone:
-- whatever a write to the list, the wrappers of the mutex and an error report leave alone.
use ipm.Base.{
  ◌-◌, ◌^◌, ◌∙◌, ap, ltb, ◌==◌, Bool-cases, ℕ, zero, suc, ◌+◌, ◌≡◌, ◌≢◌, String, List, arith,
  get_elem?, Option-cases, inl, inr,
}
use ipm.Error.{IpmResult}
use ipm.Layout.{MemoryClaim, ClaimList, u32, u64}
use ipm.System.{Mutex, Arg, World, Posix, done, M, pure, ◌>>=◌, ◌>>◌, set_list}
use ipm.System.Inversion.{bind-Stepped}
use ipm.Platform.{ipm_mutex_lock, ipm_mutex_unlock}
use ipm.Common.{ipm_report_error}
use ipm.Claim.{removed, inserted, claim_add_to_list, claim_remove_from_list}
use ipm.Memory.{IpmMemory, reason}
use ipm.Memory.Region.{
  unlock_list, int_bound, release_from, ipm_memory_release_all, remove_while_any,
  ipm_memory_remove_all_active_claims,
}
use ipm.Memory.Region.Guarded.{looping, guarded-Course, entered, refused}

module _ {K B : Type 0} (os : Posix K) (f : World K → B)
    (writes : (o : ℕ) (l : ClaimList) (w : World K) → f (set_list o l w) ≡ f w) where
  pub remove_still :
      (claim_id o : ℕ) (res : IpmResult) (w u : World K)
      → claim_remove_from_list os claim_id o w ≡ done (res, u)
      → f u ≡ f w
  unfolding claim_remove_from_list
  remove_still claim_id o res w u e =
      let l = w.lists o in
      let less : ClaimList = record l { count = u64 (l.count + 2 ^ 64 - 1) } in
      let v = set_list o less w in
      let once = writes o less w in
      elim (Option-cases (removed claim_id (u32 l.count) l.claims)) [
        | inl outside ↦ ground (arith, outside, once)
        | inr ((r, xs), at) ↦
            let twice = writes o (record less { claims = xs }) v in ground (arith, at, once, twice)
      ]

  pub release_from_still :
      (fuel proc_id o i : ℕ) (w u : World K)
      → release_from os fuel proc_id o i w ≡ done (tt, u)
      → f u ≡ f w
  unfolding release_from
  release_from_still zero proc_id o i w u e = absurd (ground arith)
  release_from_still (suc fuel) proc_id o i w u e =
      let rest = release_from_still fuel proc_id o in
      elim (Option-cases (get_elem? (w.lists o).claims i)) [
        | inl outside ↦ ground (arith, outside)
        | inr (c, at) ↦
            let out = claim_remove_from_list os c.claim_id o w in
            elim (Bool-cases (ltb i (int_bound (w.lists o).count))) [
              | inr ends ↦ ground (arith, ends)
              | inl inside ↦ elim (Bool-cases (c.proc_id == proc_id)) [
                | inr other ↦ rest (i + 1) w u (ground (arith, at, inside, other))
                | inl own ↦
                    let s =
                      bind-Stepped (claim_remove_from_list os c.claim_id o)
                        (λ (_ : IpmResult). release_from os fuel proc_id o i) w (tt, u)
                        (ground (arith, at, inside, own)) in
                    rest i s.between u s.rest
                    ∙ remove_still c.claim_id o s.value w s.between s.first
              ]
            ]
      ]

  pub remove_while_any_still :
      (fuel o : ℕ) (w u : World K) → remove_while_any os fuel o w ≡ done (tt, u) → f u ≡ f w
  unfolding remove_while_any
  remove_while_any_still zero o w u e = absurd (ground arith)
  remove_while_any_still (suc fuel) o w u e =
      let l = w.lists o in
      elim (Bool-cases (l.count == 0)) [
        | inl ends ↦ ground (arith, ends)
        | inr some_left ↦ elim (Option-cases (get_elem? l.claims (l.count - 1))) [
          | inl outside ↦ ground (arith, some_left, outside)
          | inr (c, at) ↦
              let s =
                bind-Stepped (claim_remove_from_list os c.claim_id o)
                  (λ (_ : IpmResult). remove_while_any os fuel o) w (tt, u)
                  (ground (arith, at, some_left)) in
              remove_while_any_still fuel o s.between u s.rest
              ∙ remove_still c.claim_id o s.value w s.between s.first
        ]
      ]

  -- On a full list `claim_add_to_list` unlocks the mutex.
  pub add_still :
      (claim : MemoryClaim) (o : ℕ) (res : IpmResult) (w u : World K)
      → claim_add_to_list os claim o w ≡ done (res, u)
      → res ≢ IpmResult.err_list_size_mismatch
      → f u ≡ f w
  unfolding claim_add_to_list
  add_still claim o res w u e fits =
      let l = w.lists o in
      elim (Option-cases (inserted claim l.count l.claims)) [
        | inl outside ↦ ground (arith, outside)
        | inr (xs, at) ↦
            let more : ClaimList = record l { claims = xs; count = u64 (l.count + 1) } in
            ground (arith, at, writes o more w)
      ]

module _ {K B : Type 0} (os : Posix K) (f : World K → B) (memory : IpmMemory K)
    (locks : (mtx : Mutex) (w : World K) → f (ipm_mutex_lock os mtx w).1 ≡ f w)
    (unlocks : (mtx : Mutex) (w : World K) → f (ipm_mutex_unlock os mtx w).1 ≡ f w)
    (writes : (o : ℕ) (l : ClaimList) (w : World K) → f (set_list o l w) ≡ f w)
    (reports : (msg : String) (args : List Arg) (w : World K)
      → f (ipm_report_error os memory.ctx msg args w) ≡ f w) where
  looping_still :
      (loop : ℕ → M K (Unit {0})) (res : IpmResult) (w u : World K)
      → ((o : ℕ) (v t : World K) → loop o v ≡ done (tt, t) → f t ≡ f v)
      → looping os memory loop w ≡ done (res, u)
      → f u ≡ f w
  looping_still loop res w u keeps e =
      let msg : String = "Could not lock the claim list mutex, reason: %s (%s)" in
      let rest : ℕ → IpmResult → Unit {0} → M K IpmResult =
        λ o got _. unlock_list os o >> pure got in
      elim (guarded-Course os memory msg (λ bad. bad) (λ o got. loop o >>= rest o got) res w u e) [
        | refused p mapped bad same at ↦
            let mtx = Mutex.list_mutex p.object in
            let out = ipm_mutex_lock os mtx w in
            ap f at ∙ reports msg (reason out.0) out.1 ∙ locks mtx w
        | entered p mapped good rest_runs ↦
            let mtx = Mutex.list_mutex p.object in
            let out = ipm_mutex_lock os mtx w in
            let s = bind-Stepped (loop p.object) (rest p.object out.0) out.1 (res, u) rest_runs in
            let looped = keeps p.object out.1 s.between (ground (arith, s.first)) in
            ground (arith, s.rest, unlocks mtx s.between, looped, locks mtx w)
      ]

  pub release_all_still :
      (fuel : ℕ) (res : IpmResult) (w u : World K)
      → ipm_memory_release_all os fuel memory w ≡ done (res, u)
      → f u ≡ f w
  unfolding ipm_memory_release_all
  release_all_still fuel res w u e =
      let own = memory.real_memory.access_id in
      looping_still (λ o. release_from os fuel own o 0) res w u
        (λ o v t. release_from_still os f writes fuel own o 0 v t) (ground (arith, e))

  pub remove_all_still :
      (fuel : ℕ) (res : IpmResult) (w u : World K)
      → ipm_memory_remove_all_active_claims os fuel memory w ≡ done (res, u)
      → f u ≡ f w
  unfolding ipm_memory_remove_all_active_claims
  remove_all_still fuel res w u e =
      looping_still (remove_while_any os fuel) res w u
        (λ o v t. remove_while_any_still os f writes fuel o v t) (ground (arith, e))
