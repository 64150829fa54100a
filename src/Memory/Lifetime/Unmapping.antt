-- ===== src/Memory/Lifetime/Unmapping.antt =====
-- The mappings that `ipm_memory_close` gives back (source/ipm_memory.c).
use mathlib.Core.List.{Perm}
use ipm.Base.{ℕ, ◌≡◌, ap, sym, subst, List, ◌∷◌, none, some, true, refl, arith}
use ipm.Error.{IpmResult}
use ipm.Layout.{Ptr, SharedMemoryHeader, page_size}
use ipm.System.{Call, World, Posix, done}
use ipm.System.Inversion.{bind-Stepped}
use ipm.Platform.Still.{synchronizes, mutex_lock_still, mutex_unlock_still}
use ipm.Platform.Undisturbed.{Undisturbed, headers_of}
use ipm.Common.Kept.{Kept, free_kept, report_kept}
use ipm.Common.Local.{report_local}
use ipm.Common.Mappings.{Mappings, mapped, mappings_still}
use ipm.SharedMemory.Close.{shared_memory_block_close}
use ipm.SharedMemory.Close.Unmapping.{Mapped, block_close-gives_back}
use ipm.Memory.{IpmMemory}
use ipm.Memory.Region.{ipm_memory_release_all}
use ipm.Memory.Region.Still.{release_all_still}
use ipm.Memory.Lifetime.{claim_list_dtor_wrapper, ipm_memory_close}
use ipm.Memory.Lifetime.Destroying.{claim_list_dtor_wrapper-Spares}
use ipm.Memory.Lifetime.Mapped.{with_block_mapped}

module _ {K : Type 0} (os : Posix K) (calm : Undisturbed os) (t : Mappings os)
    (memory : IpmMemory K) (kept : Kept memory.ctx t.table) where
  -- The headers have the sizes with which the handle's blocks were mapped.
  pub record SameSizes (w : World K) : Type 0 where
    pub real : (w.headers memory.real_memory.header.object).block_size ≡ memory.real_memory.size
    pub claims :
        (w.headers memory.active_claims.header.object).block_size ≡ memory.active_claims.size

  release_all_same :
      (fuel : ℕ) (res : IpmResult) (w u : World K)
      → ipm_memory_release_all os fuel memory w ≡ done (res, u)
      → (u.headers ≡ w.headers) × (mapped os t u ≡ mapped os t w)
  release_all_same fuel res w u e =
      let noticed = λ (c : Call) (v : World K) (s : synchronizes c ≡ true). calm.calls c v in
      let still = mappings_still os t in
      (
        release_all_still os headers_of memory (mutex_lock_still os headers_of noticed)
            (mutex_unlock_still os headers_of noticed) (λ o l v. refl)
            (λ msg args v. (report_local os memory.ctx msg args v).1) fuel res w u e,
        release_all_still os (mapped os t) memory (mutex_lock_still os (mapped os t) still)
            (mutex_unlock_still os (mapped os t) still) (λ o l v. refl)
            (report_kept os memory.ctx t.table kept) fuel res w u e,
      )

  -- The handle's four mappings are given back, if the headers have the sizes that were mapped.
  pub memory_close-gives_back :
      (fuel : ℕ) (real claims : Ptr) (rest : List (Ptr × ℕ)) (w last : World K)
      → memory.real_memory.memory ≡ some real
      → memory.active_claims.memory ≡ some claims
      → SameSizes w
      → Perm (mapped os t w) (
          with_block_mapped memory.active_claims claims
            (with_block_mapped memory.real_memory real rest))
      → ipm_memory_close os fuel memory w ≡ done (tt, last)
      → Perm (mapped os t last) rest
  unfolding ipm_memory_close
  memory_close-gives_back fuel real claims rest w last real_at claims_at sizes holds e =
      let r = bind-Stepped (ipm_memory_release_all os fuel memory) _ w (tt, last) e in
      let (headers, table) = release_all_same fuel r.value w r.between r.first in
      let c =
        bind-Stepped
          (shared_memory_block_close os memory.ctx memory.active_claims
            (some (claim_list_dtor_wrapper os memory)))
          _ r.between (tt, last) r.rest in
      let d =
        bind-Stepped (shared_memory_block_close os memory.ctx memory.real_memory none) _ c.between
          (tt, last) c.rest in
      let both = with_block_mapped memory.real_memory real rest in
      let before : Mapped os t memory.active_claims claims claims_at both r.between =
        subst
          (λ (n : ℕ).
            Perm (mapped os t r.between)
              ((memory.active_claims.header, page_size) ∷ (claims, n) ∷ both))
          (ground (arith, sizes.claims, headers))
          (subst
            (λ (l : List (Ptr × ℕ)). Perm l (with_block_mapped memory.active_claims claims both))
            (sym table) holds) in
      let (left, gone) =
        block_close-gives_back os memory.ctx t kept calm memory.active_claims claims claims_at both
          c.value c.between (some (claim_list_dtor_wrapper os memory)) r.between
          (claim_list_dtor_wrapper-Spares os calm memory t) before c.first in
      let size : memory.real_memory.size
          ≡ (c.between.headers memory.real_memory.header.object).block_size =
        ground (
          arith,
          sizes.real,
          ap (λ (hs : ℕ → SharedMemoryHeader). hs memory.real_memory.header.object) left,
          ap (λ (hs : ℕ → SharedMemoryHeader). hs memory.real_memory.header.object) headers,
        ) in
      let second : Mapped os t memory.real_memory real real_at rest c.between =
        subst
          (λ (n : ℕ).
            Perm (mapped os t c.between)
              ((memory.real_memory.header, page_size) ∷ (real, n) ∷ rest))
          size gone in
      let (_, all_gone) =
        block_close-gives_back os memory.ctx t kept calm memory.real_memory real real_at rest
          d.value d.between none c.between tt second d.first in
      let same : mapped os t last ≡ mapped os t d.between =
        ground
          (arith, d.rest, free_kept os memory.ctx t.table kept (some memory.address) d.between) in
      subst (λ (l : List (Ptr × ℕ)). Perm l rest) (sym same) all_gone
