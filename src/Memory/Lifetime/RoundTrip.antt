-- ===== src/Memory/Lifetime/RoundTrip.antt =====
-- A handle from its creation, or its opening, to its end (source/ipm_memory.c).
use mathlib.Core.List.Perm
use mathlib.Core.List.{Perm, perm_middle}
use ipm.Base.{ℕ, ◌+◌, ◌<◌, ◌≡◌, List, [], ◌∷◌, ◌++◌, some, false, refl, arith, subst}
use ipm.Error.{IpmResult}
use ipm.Layout.{AccessMode, Ptr, page_size}
use ipm.System.{Mutex, World, Posix, done}
use ipm.Platform.{ipm_mutex_lock}
use ipm.Common.Accounts.{Accounts, now}
use ipm.Claim.Valid.{IsValid}
use ipm.Memory.{IpmMemory}
use ipm.Memory.Region.Scanning.{IdsIdentify}
use ipm.Memory.Lifetime.{Abi, ipm_memory_create, ipm_memory_open, ipm_memory_close}
use ipm.Memory.Lifetime.Creating.{memory_create_held}
use ipm.Memory.Lifetime.Opening.{memory_open_held}
use ipm.System.Returns.{returns-done}
use ipm.Platform.Undisturbed.{Undisturbed}
use ipm.Common.Kept.{Kept}
use ipm.Common.Mappings.{Mappings, mapped}
use ipm.Memory.Region.Releasing.{release_all_clears}
use ipm.Memory.Lifetime.Mapped.{with_block_mapped, memory_create-HandleAdded}
use ipm.Memory.Lifetime.Unmapping.{SameSizes, memory_close-gives_back}
use ipm.Memory.Lifetime.Closing.{memory_close_held}
use ipm.Memory.Lifetime.Leaving.{close_returns_after, memory_close_ends}

-- What `ipm_memory_release_all` finds when the handle closes: a valid list that is not full, whose
-- claims are fewer than the fuel, and in which live claims with one id are of one handle.
pub record Closable {K : Type 0} (os : Posix K) (fuel o : ℕ) (w : World K) : Type 0 where
  pub locked : World K
  pub locks : ipm_mutex_lock os (Mutex.list_mutex o) w ≡ (IpmResult.success, locked)
  pub valid : IsValid (locked.lists o)
  pub room : (locked.lists o).count < (locked.lists o).capacity
  pub ids : IdsIdentify (locked.lists o)
  pub enough : (locked.lists o).count < fuel

-- The two entries behind the first two come to the front, from behind a list.
two_to_front :
    {A : Type 0} (xs : List A) (a b c d : A) (ys : List A)
    → Perm (xs ++ (a ∷ b ∷ c ∷ d ∷ ys)) (c ∷ d ∷ a ∷ b ∷ (xs ++ ys))
two_to_front xs a b c d ys =
    let zs = xs ++ ys in
    let front : Perm (xs ++ (a ∷ b ∷ c ∷ d ∷ ys)) (a ∷ b ∷ c ∷ d ∷ zs) =
      Perm.trans (perm_middle xs (b ∷ c ∷ d ∷ ys)) (
        Perm.cons a (
          Perm.trans (perm_middle xs (c ∷ d ∷ ys)) (
            Perm.cons b
              (Perm.trans (perm_middle xs (d ∷ ys)) (Perm.cons c (perm_middle xs ys)))))) in
    Perm.trans front
      (Perm.trans (perm_middle (a ∷ b ∷ []) (d ∷ zs)) (Perm.cons c (perm_middle (a ∷ b ∷ []) zs)))

module _ {K : Type 0} (os : Posix K) (memory : IpmMemory K) (a : Accounts os memory.ctx) (abi : Abi)
    (name : List ℕ) (access : AccessMode) (res : IpmResult) (p : Ptr) (w v : World K)
    (fuel : ℕ) where
  -- The close returns.
  close_ends :
      (u : World K)
      → memory.active_claims.memory ≡ some p
      → memory.active_claims.has_ownership ≡ false
      → memory.real_memory.has_ownership ≡ false
      → Closable os fuel p.object u
      → (last : World K) × (ipm_memory_close os fuel memory u ≡ done (tt, last))
  close_ends u at claims_free real_free c =
      let (_, released, _) =
        release_all_clears os memory fuel p u c.locked at c.locks c.valid c.room c.ids c.enough in
      let ((_, last), closes) = returns-done (ipm_memory_close os fuel memory u) (
        close_returns_after os memory a fuel p u at claims_free real_free
          (ground (arith, released))) in
      (last, closes)

  -- A handle that was created closes, at once or later, and gives back what it took. Let the process,
  -- at the close, hold the mappings that it held when the handle was made and others, in any order, and
  -- some number of descriptors more. If the lock of the list succeeds then, on a valid list that is
  -- not full, in which live claims with one id are of one handle, with more fuel than there are
  -- claims; if the headers of the two blocks have the sizes that the handle mapped, and its pointers
  -- are those of the creation; if no other process changes the shared memory during the close, and the
  -- user's callbacks neither map nor open; then the close returns, and the process holds the others
  -- and the mappings that it held before the creation, each with its length, and as many descriptors
  -- more than before the creation.
  pub close-create_balances :
      (calm : Undisturbed os) (t : Mappings os) (kept : Kept memory.ctx t.table) (size more : ℕ)
      (others : List (Ptr × ℕ)) (u : World K)
      → ipm_memory_create os abi memory.ctx size name access w ≡ done ((res, some memory), v)
      → memory.active_claims.memory ≡ some p
      → Closable os fuel p.object u
      → SameSizes os calm t memory kept u
      → Perm (mapped os t u) (others ++ mapped os t v)
      → (now os memory.ctx a u).fds ≡ more + (now os memory.ctx a v).fds
      → (last : World K) × (ipm_memory_close os fuel memory u ≡ done (tt, last))
        × Perm (mapped os t last) (others ++ mapped os t w)
        × ((now os memory.ctx a last).fds ≡ more + (now os memory.ctx a w).fds)
  close-create_balances calm t kept size more others u creates at c sizes holds counts =
      let h = now os memory.ctx a w in
      let (held_then, knows) =
        memory_create_held os memory.ctx a name res (some memory) v h abi size access w refl
          creates in
      let (last, closes) = close_ends u at (ground (arith, knows)) (ground (arith, knows)) c in
      let (real, claims, real_at, claims_at, added) =
        memory_create-HandleAdded os memory.ctx t name abi memory res v kept size access w
          creates in
      let both =
        with_block_mapped memory.real_memory real
          (with_block_mapped memory.active_claims claims (mapped os t w)) in
      let start =
        Perm.trans (subst (λ (l : List (Ptr × ℕ)). Perm (mapped os t u) (others ++ l)) added holds)
          (two_to_front others (memory.real_memory.header, page_size)
            (real, memory.real_memory.size) (memory.active_claims.header, page_size)
            (claims, memory.active_claims.size) (mapped os t w)) in
      let closed = memory_close_held os memory a u last fuel closes in
      (
        last,
        closes,
        memory_close-gives_back os calm t memory kept fuel real claims (others ++ mapped os t w) u
            last real_at claims_at sizes start closes,
        ground (arith, closed, counts, held_then, real_at, claims_at),
      )

  -- A handle that was opened closes at once, and as many descriptors and mappings are held as before
  -- the opening.
  close-open_balances :
      (rounds : ℕ)
      → ipm_memory_open os rounds abi memory.ctx name access w ≡ done ((res, some memory), v)
      → memory.active_claims.memory ≡ some p
      → Closable os fuel p.object v
      → (last : World K) × (ipm_memory_close os fuel memory v ≡ done (tt, last))
        × (now os memory.ctx a last ≡ now os memory.ctx a w)
  close-open_balances rounds opens at c =
      let h = now os memory.ctx a w in
      let (holds, knows) =
        memory_open_held os memory.ctx a name res (some memory) v h rounds abi access w refl
          opens in
      memory_close_ends os memory a fuel p h v c.locked at (ground (arith, knows))
        (ground (arith, knows)) (ground (arith, knows)) c.locks c.valid c.room c.ids c.enough holds
