-- ===== src/Claim/Iterate/Stopping.antt =====
-- The list's mutex after `claims_iterate`.
use ipm.Base.{
  ℕ, zero, suc, ◌+◌, ◌==◌, ◌≡◌, ◌≢◌, Bool, false, List, ◌∷◌, arith, get_elem?, Option-cases,
  Bool-cases, inl, inr, if◌then◌else◌, ◌∙◌,
}
use ipm.Error.{IpmResult}
use ipm.Layout.{MemoryClaim, u32}
use ipm.System.{Errno, Mutex, World, Posix, done, M, pure, run, ◌>>=◌, ◌>>◌}
use ipm.System.Inversion.{bind-Stepped}
use ipm.Platform.{ipm_mutex_lock, ipm_mutex_unlock}
use ipm.Platform.Locking.{
  Locks, holds, holds-ipm_mutex_lock, holds-ipm_mutex_unlock, lock-ne-interrupted,
}
use ipm.Claim.{is_success, visit, claims_iterate}

module _ {K : Type 0} (os : Posix K) (l : Locks os) (o : ℕ)
    (callback : MemoryClaim → World K → Bool × World K) where
  -- The callback gives back each mutex that it takes.
  abbrev pub Tidy : Type 0
  Tidy = (c : MemoryClaim) (w : World K) → holds os l (callback c w).1 ≡ holds os l w

  holds-visit :
      (n i : ℕ) (stopped : Bool) (w u : World K)
      → Tidy
      → visit os o callback n i w ≡ done (stopped, u)
      → holds os l u ≡ holds os l w
  unfolding visit
  holds-visit zero i stopped w u tidy e = ground (arith, e)
  holds-visit (suc n) i stopped w u tidy e = elim (Option-cases (get_elem? (w.lists o).claims i)) [
    | inl outside ↦ absurd (ground (arith, outside, e))
    | inr (c, at) ↦
        let w1 = (callback c w).1 in
        ground (arith, at, tidy c w, holds-visit n (i + 1) stopped w1 u tidy)
  ]

  -- What the caller holds in the end, if it held these before.
  abbrev Left : IpmResult → List Mutex → World K → Type 0
  Left res held u =
      (res ≢ IpmResult.interrupted → holds os l u ≡ held)
      × (res ≡ IpmResult.interrupted → holds os l u ≡ Mutex.list_mutex o ∷ held)

  abbrev settle : Bool → M K IpmResult
  settle stopped =
      if stopped
      then pure IpmResult.interrupted
      else (do run (ipm_mutex_unlock os (Mutex.list_mutex o)); pure IpmResult.success)

  settled-Left :
      (count : ℕ) (res : IpmResult) (held : List Mutex) (w u : World K)
      → Tidy
      → (visit os o callback count 0 >>= settle) w ≡ done (res, u)
      → holds os l w ≡ Mutex.list_mutex o ∷ held
      → Left res held u
  settled-Left count res held w u tidy e start =
      let s = bind-Stepped (visit os o callback count 0) settle w (res, u) e in
      let same = holds-visit count 0 s.value w s.between tidy s.first in
      let unlocked =
        holds-ipm_mutex_unlock os l (Mutex.list_mutex o) held s.between (same ∙ start) in
      (λ n. ground (arith, s.rest, unlocked, n), λ q. ground (arith, s.rest, same, start, q))

  refused-Left :
      (res : IpmResult) (w u : World K)
      → w.errno ≢ Errno.eownerdead
      → is_success (ipm_mutex_lock os (Mutex.list_mutex o) w).0 ≡ false
      → ipm_mutex_lock os (Mutex.list_mutex o) w ≡ (res, u)
      → Left res (holds os l w) u
  refused-Left res w u fresh bad e =
      let now = holds-ipm_mutex_lock os l (Mutex.list_mutex o) w fresh in
      let other = lock-ne-interrupted os l (Mutex.list_mutex o) w fresh in
      (λ n. ground (arith, bad, now, e), λ q. absurd (other (ground (arith, q, e))))

  -- `claims_iterate` with a callback that gives back each mutex that it takes: where it returns
  -- anything but INTERRUPTED, the caller holds the mutexes that it held before; where it returns
  -- INTERRUPTED, because the callback stopped it, the caller holds the list's mutex besides.
  -- Before the call `errno` must not be EOWNERDEAD.
  pub holds-claims_iterate :
      (res : IpmResult) (w u : World K)
      → w.errno ≢ Errno.eownerdead
      → Tidy
      → claims_iterate os o callback w ≡ done (res, u)
      → (res ≢ IpmResult.interrupted → holds os l u ≡ holds os l w)
        × (res ≡ IpmResult.interrupted → holds os l u ≡ Mutex.list_mutex o ∷ holds os l w)
  unfolding claims_iterate
  holds-claims_iterate res w u fresh tidy e =
      let mtx = Mutex.list_mutex o in
      let out = ipm_mutex_lock os mtx w in
      let now = holds-ipm_mutex_lock os l mtx w fresh in
      let count = u32 (w.lists o).count in
      elim (Bool-cases (count == (w.lists o).count)) [
        | inr cut ↦ (λ n. ground (arith, cut, e), λ q. absurd (ground (arith, cut, q, e)))
        | inl whole ↦ elim (Bool-cases (count == (w.lists o).capacity)) [
          | inl full ↦
              (λ n. ground (arith, whole, full, e), λ q. absurd (ground (arith, whole, full, q, e)))
          | inr room ↦ elim (Bool-cases (is_success out.0)) [
            | inl good ↦
                settled-Left count res (holds os l w) out.1 u tidy
                  (ground (arith, whole, room, good, e)) (ground (arith, good, now))
            | inr bad ↦ refused-Left res w u fresh bad (ground (arith, whole, room, bad, e))
          ]
        ]
      ]
