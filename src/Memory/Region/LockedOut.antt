-- ===== src/Memory/Region/LockedOut.antt =====
-- The calls that remove claims, when they cannot lock the list's mutex; and what they return when
-- they can (source/ipm_memory.c).
use ipm.Base.{ℕ, ◌<◌, ◌≡◌, ◌∙◌, ap, subst, sym, false, true, String, some, arith}
use ipm.Error.{IpmResult}
use ipm.Layout.{ClaimList}
use ipm.System.{Mutex, World, Posix, done, M, set_list, ◌>>=◌, ◌>>◌, pure}
use ipm.Platform.{ipm_mutex_lock, ipm_mutex_unlock}
use ipm.Platform.Still.{mutex_lock_still, mutex_unlock_still}
use ipm.Common.Local.{report_local}
use ipm.Claim.{is_success, claim_remove_from_list}
use ipm.Claim.Valid.{IsValid}
use ipm.Claim.Remove.{lists-set_list}
use ipm.Claim.Remove.Results.{Holds}
use ipm.Memory.{IpmMemory, reason}
use ipm.Memory.Region.{
  unlock_list, release_from, remove_while_any, ipm_memory_release_region, ipm_memory_release_all,
  ipm_memory_remove_all_active_claims,
}
use ipm.Memory.Region.Alone.{KeepsLists, lists_of}
use ipm.Memory.Region.Clearing.{remove_all_empties}
use ipm.Memory.Region.Guarded.{guarded, guarded-Course, entered, refused, signalled}
use ipm.Memory.Region.Releasing.{release_region_signals}

module _ {K : Type 0} (os : Posix K) (keeps : KeepsLists os) (o : ℕ) (memory : IpmMemory K)
    (address : ℕ)
    (at : memory.active_claims.memory ≡ some (record { address = address; object = o }))
    (res : IpmResult) (w u : World K) where
  guarded_locked_out :
      (msg : String) (body : ℕ → IpmResult → M K IpmResult)
      → guarded os memory msg (λ bad. bad) body w ≡ done (res, u)
      → is_success (ipm_mutex_lock os (Mutex.list_mutex o) w).0 ≡ false
      → u.lists o ≡ w.lists o
  guarded_locked_out msg body e out =
      let locked = ipm_mutex_lock os (Mutex.list_mutex o) w in
      let same = mutex_lock_still os lists_of keeps (Mutex.list_mutex o) w in
      elim (guarded-Course os memory msg (λ bad. bad) body res w u e) [
        | refused p mapped bad got end ↦
            let object : p.object ≡ o = ground (arith, mapped, at) in
            let told = report_local os memory.ctx msg (reason locked.0) locked.1 in
            let lists : u.lists ≡ w.lists = ground (arith, end, object, told, same) in
            ap (λ (f : ℕ → ClaimList). f o) lists
        | entered p mapped good rest ↦
            let object : p.object ≡ o = ground (arith, mapped, at) in
            absurd (ground (arith, good, object, out))
      ]

  pub release_region_locked_out :
      (claim_id : ℕ)
      → ipm_memory_release_region os memory claim_id w ≡ done (res, u)
      → is_success (ipm_mutex_lock os (Mutex.list_mutex o) w).0 ≡ false
      → u.lists o ≡ w.lists o
  unfolding ipm_memory_release_region
  release_region_locked_out claim_id e out =
      guarded_locked_out "Could not lock access list mutex, reason: %s (%s)"
        (λ p got. claim_remove_from_list os claim_id p >>= signalled os memory p)
        (ground (arith, e)) out

  pub release_all_locked_out :
      (fuel : ℕ)
      → ipm_memory_release_all os fuel memory w ≡ done (res, u)
      → is_success (ipm_mutex_lock os (Mutex.list_mutex o) w).0 ≡ false
      → u.lists o ≡ w.lists o
  unfolding ipm_memory_release_all
  release_all_locked_out fuel e out =
      guarded_locked_out "Could not lock the claim list mutex, reason: %s (%s)"
        (λ p got.
          release_from os fuel memory.real_memory.access_id p 0 >> (unlock_list os p >> pure got))
        (ground (arith, e)) out

  pub remove_all_locked_out :
      (fuel : ℕ)
      → ipm_memory_remove_all_active_claims os fuel memory w ≡ done (res, u)
      → is_success (ipm_mutex_lock os (Mutex.list_mutex o) w).0 ≡ false
      → u.lists o ≡ w.lists o
  unfolding ipm_memory_remove_all_active_claims
  remove_all_locked_out fuel e out =
      guarded_locked_out "Could not lock the claim list mutex, reason: %s (%s)"
        (λ p got. remove_while_any os fuel p >> (unlock_list os p >> pure got)) (ground (arith, e))
        out

  -- The release of all claims returns what the lock returned.
  pub release_all_returns_lock :
      (fuel : ℕ)
      → ipm_memory_release_all os fuel memory w ≡ done (res, u)
      → res ≡ (ipm_mutex_lock os (Mutex.list_mutex o) w).0
  unfolding ipm_memory_release_all
  release_all_returns_lock fuel e = ground (arith, at)

  -- With the lock, the release of a live claim succeeds.
  pub release_region_succeeds :
      (claim_id : ℕ)
      → IsValid (w.lists o)
      → (w.lists o).count < (w.lists o).capacity
      → Holds (w.lists o) claim_id
      → ipm_memory_release_region os memory claim_id w ≡ done (res, u)
      → is_success (ipm_mutex_lock os (Mutex.list_mutex o) w).0 ≡ true
      → res ≡ IpmResult.success
  release_region_succeeds claim_id v room held e good =
      let locked = (ipm_mutex_lock os (Mutex.list_mutex o) w).1 in
      let same =
        ap (λ (ls : ℕ → ClaimList). ls o)
          (mutex_lock_still os lists_of keeps (Mutex.list_mutex o) w) in
      let locks : ipm_mutex_lock os (Mutex.list_mutex o) w ≡ (IpmResult.success, locked) =
        ground (arith, good) in
      let (l', runs, valid, less, old) =
        release_region_signals os memory claim_id (record { address = address; object = o }) w
          locked at locks (subst IsValid (sym same) v)
          (subst (λ (l : ClaimList). l.count < l.capacity) (sym same) room)
          (subst (λ (l : ClaimList). Holds l claim_id) (sym same) held) in
      cc (e, runs)

  -- With the lock, the removal of every claim leaves a valid list with none.
  pub remove_all-empty :
      (fuel : ℕ)
      → IsValid (w.lists o)
      → (w.lists o).count < (w.lists o).capacity
      → (w.lists o).count < fuel
      → ipm_memory_remove_all_active_claims os fuel memory w ≡ done (res, u)
      → is_success (ipm_mutex_lock os (Mutex.list_mutex o) w).0 ≡ true
      → IsValid (u.lists o) × ((u.lists o).count ≡ 0)
  remove_all-empty fuel v room enough e good =
      let locked = (ipm_mutex_lock os (Mutex.list_mutex o) w).1 in
      let same =
        ap (λ (ls : ℕ → ClaimList). ls o)
          (mutex_lock_still os lists_of keeps (Mutex.list_mutex o) w) in
      let locks : ipm_mutex_lock os (Mutex.list_mutex o) w ≡ (IpmResult.success, locked) =
        ground (arith, good) in
      let (l', runs, valid, none_left, cap) =
        remove_all_empties os memory fuel (record { address = address; object = o }) w locked at
          locks (subst IsValid (sym same) v)
          (subst (λ (l : ClaimList). l.count < l.capacity) (sym same) room)
          (subst (λ (l : ClaimList). l.count < fuel) (sym same) enough) in
      let out = set_list o l' locked in
      let ends : u ≡ (ipm_mutex_unlock os (Mutex.list_mutex o) out).1 = cc (e, runs) in
      let there : u.lists o ≡ l' =
        ap (λ (x : World K). x.lists o) ends
        ∙ ap (λ (ls : ℕ → ClaimList). ls o)
            (mutex_unlock_still os lists_of keeps (Mutex.list_mutex o) out)
        ∙ lists-set_list o l' locked in
      (subst IsValid (sym there) valid, ap ClaimList.count there ∙ none_left)
