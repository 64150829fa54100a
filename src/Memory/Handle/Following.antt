-- ===== src/Memory/Handle/Following.antt =====
-- One handle grows its block, and another on the same object is synchronised (source/ipm_memory.c).
use ipm.Base.{
  subst, ℕ, ◌≡◌, ◌⊎◌, inl, inr, none, arith, Option-cases, refl, Bool-cases, ltb, ◌==◌, ◌&&◌,
}
use ipm.Error.{IpmResult}
use ipm.Layout.{AccessMode, SharedMemoryBlock, page_size, read_only}
use ipm.System.{Call, World, Posix, done, world_after}
use ipm.Platform.{ignoring}
use ipm.Platform.Undisturbed.{Undisturbed}
use ipm.Common.{Context}
use ipm.Claim.{same_access}
use ipm.SharedMemory.Mapping.{
  is_mapped, shared_memory_block_update_mapping, shared_memory_block_resize,
}
use ipm.SharedMemory.Mapping.Resize.{resize_grows}
use ipm.Memory.{IpmMemory, round_size}
use ipm.Memory.Handle.{ipm_memory_sync, ipm_memory_resize_grow}

-- With the size in the header, or without a mapping.
abbrev pub Follows : IpmResult → SharedMemoryBlock → ℕ → Type 0
Follows res b size =
    ((res ≡ IpmResult.success) × (b.size ≡ size))
    ⊎ ((res ≡ IpmResult.err_os_out_of_memory) × (b.size ≡ 0) × (b.memory ≡ none))

module _ {K : Type 0} (os : Posix K) where
  update_mapping-Follows :
      (context : Context K) (block : SharedMemoryBlock) (mode : AccessMode) (w : World K)
      → (res : IpmResult) × (b : SharedMemoryBlock) × (last : World K)
        × (shared_memory_block_update_mapping os context block mode w ≡ done ((res, b), last))
        × Follows res b (w.headers block.header.object).block_size
  unfolding shared_memory_block_update_mapping
  update_mapping-Follows context block mode w =
      let size = (w.headers block.header.object).block_size in
      let w1 = ignoring os (Call.munmap block.memory block.size) w in
      let mapped = os.mmap block.memory size mode block.mem_fd page_size w1 in
      elim (Bool-cases
        ((block.size == size) && same_access mode block.access_mode && is_mapped block.memory)) [
          | inl current ↦ (
            IpmResult.success,
            block,
            w,
            ground (arith, current),
            inl (refl, ground (arith, current)),
          )
          | inr stale ↦ elim (Option-cases mapped.0) [
            | inl failed ↦ (
              IpmResult.err_os_out_of_memory,
              record block { size = 0; access_mode = read_only; memory = none },
              world_after (shared_memory_block_update_mapping os context block mode w) w,
              ground (arith, stale, failed),
              inr (refl, refl, refl),
            )
            | inr (p, at) ↦ (
              IpmResult.success,
              record block { access_mode = mode; size = size; memory = none },
              mapped.1,
              ground (arith, stale, at),
              inl (refl, refl),
            )
          ]
        ]

  grown_header :
      (grower grown : IpmMemory K) (calm : Undisturbed os) (requested : ℕ) (w v : World K)
      → ipm_memory_resize_grow os grower requested w ≡ done ((IpmResult.success, grown), v)
      → ((v.headers grower.real_memory.header.object).block_size ≡ round_size requested)
        × (grown.real_memory.size ≡ round_size requested)
  unfolding ipm_memory_resize_grow
  grown_header grower grown calm requested w v e =
      let size = round_size requested in
      elim (Bool-cases (ltb size grower.real_memory.size)) [
        | inl smaller ↦ absurd (ground (arith, smaller))
        | inr enough ↦
            let runs : shared_memory_block_resize os grower.ctx grower.real_memory size w
                ≡ done ((IpmResult.success, grown.real_memory), v) =
              ground (arith, enough) in
            let grows =
              resize_grows os grower.ctx grower.real_memory calm size grown.real_memory w v runs in
            (grows.in_header, grows.in_block)
      ]

  -- A handle follows another: after `ipm_memory_resize_grow` of one handle has succeeded, with no
  -- other process in the shared memory, `ipm_memory_sync` of another handle on the same object, next,
  -- returns. With success both handles have the requested size, rounded up to whole pages; else the
  -- result is ERR_OS_OUT_OF_MEMORY and the second handle has no mapping and the size 0.
  pub sync-resize_grow :
      (grower grown follower : IpmMemory K) (calm : Undisturbed os) (requested : ℕ) (w v : World K)
      → follower.real_memory.header.object ≡ grower.real_memory.header.object
      → ipm_memory_resize_grow os grower requested w ≡ done ((IpmResult.success, grown), v)
      → (res : IpmResult) × (synced : IpmMemory K) × (last : World K) × (ipm_memory_sync os follower
            v
          ≡ done ((res, synced), last))
        × (grown.real_memory.size ≡ round_size requested)
        × Follows res synced.real_memory (round_size requested)
  unfolding ipm_memory_sync
  sync-resize_grow grower grown follower calm requested w v same grows =
      let (in_header, in_block) = grown_header grower grown calm requested w v grows in
      let block = follower.real_memory in
      let (res, b, u, runs, follows) =
        update_mapping-Follows follower.ctx block block.access_mode v in
      let size : (v.headers block.header.object).block_size ≡ round_size requested =
        ground (arith, same, in_header) in
      (
        res,
        record follower { real_memory = b },
        world_after (ipm_memory_sync os follower v) v,
        ground (arith, runs),
        in_block,
        subst (Follows res b) size follows,
      )
