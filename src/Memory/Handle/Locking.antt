-- ===== src/Memory/Handle/Locking.antt =====
-- `ipm_memory_sync`, `ipm_memory_change_access` and `ipm_memory_resize_grow` give back the
-- segment's mutex.
use ipm.Base.{ℕ, ltb, if◌then◌else◌, ◌≡◌, ◌≢◌, Bool-cases, String, [], ◌∷◌, arith, inl, inr}
use ipm.Error.{IpmResult}
use ipm.Layout.{AccessMode, SharedMemoryBlock}
use ipm.System.{Errno, Arg, World, Posix, done, M, pure, ◌>>=◌, ◌>>◌}
use ipm.System.Inversion.{bind-Stepped}
use ipm.Platform.Locking.{Locks, holds}
use ipm.Common.{ipm_report_error}
use ipm.Common.Kept.{Kept, report_kept}
use ipm.Claim.{is_success}
use ipm.SharedMemory.Mapping.{
  is_mapped, shared_memory_block_update_mapping, shared_memory_block_resize,
}
use ipm.SharedMemory.Mapping.Locking.{holds-update_mapping, holds-resize}
use ipm.Memory.{IpmMemory, round_size, reason, report}
use ipm.Memory.Handle.{ipm_memory_sync, ipm_memory_change_access, ipm_memory_resize_grow}

module _ {K : Type 0} (os : Posix K) (l : Locks os) (memory : IpmMemory K)
    (kept : Kept memory.ctx l.owned) (res : IpmResult) (m : IpmMemory K) (w u : World K) where
  -- A call that works on the handle's first block, reports a failure, and keeps the new block.
  abbrev concluding :
      (IpmResult → SharedMemoryBlock → M K (Unit {0}))
      → IpmResult × SharedMemoryBlock
      → M K (IpmResult × IpmMemory K)
  concluding tell (got, block) = do
    tell got block
    pure (got, record memory { real_memory = block })

  holds-concluding :
      (step : M K (IpmResult × SharedMemoryBlock))
      (tell : IpmResult → SharedMemoryBlock → M K (Unit {0}))
      → ((got : IpmResult) (b : SharedMemoryBlock) (v : World K)
          → step w ≡ done ((got, b), v)
          → holds os l v ≡ holds os l w)
      → ((got : IpmResult) (b : SharedMemoryBlock) (v t : World K)
          → tell got b v ≡ done (tt, t)
          → holds os l t ≡ holds os l v)
      → (step >>= concluding tell) w ≡ done ((res, m), u)
      → holds os l u ≡ holds os l w
  holds-concluding step tell steps tells e =
      let s = bind-Stepped step (concluding tell) w ((res, m), u) e in
      let rest : Unit {0} → M K (IpmResult × IpmMemory K) =
        λ x. pure (s.value.0, record memory { real_memory = s.value.1 }) in
      let t =
        bind-Stepped (tell s.value.0 s.value.1) rest s.between ((res, m), u)
          (ground (arith, s.rest)) in
      ground (
        arith,
        t.rest,
        steps s.value.0 s.value.1 s.between (ground (arith, s.first)),
        tells s.value.0 s.value.1 s.between t.between (ground (arith, t.first)),
      )

  abbrev tell_failure : String → IpmResult → SharedMemoryBlock → M K (Unit {0})
  tell_failure msg got b =
      if is_success got
      then pure tt
      else report os memory.ctx msg (Arg.bytes memory.block_name ∷ reason got)

  holds-tell_failure :
      (msg : String) (got : IpmResult) (b : SharedMemoryBlock) (v t : World K)
      → tell_failure msg got b v ≡ done (tt, t)
      → holds os l t ≡ holds os l v
  holds-tell_failure msg got b v t e = ground (
    arith,
    e,
    report_kept os memory.ctx l.owned kept msg (Arg.bytes memory.block_name ∷ reason got) v,
  )

  pub holds-sync : ipm_memory_sync os memory w ≡ done ((res, m), u) → holds os l u ≡ holds os l w
  unfolding ipm_memory_sync
  holds-sync e =
      let msg : String = "Memory sync for block \"%s\" failed, reason: %s (%s)" in
      let block = memory.real_memory in
      holds-concluding (shared_memory_block_update_mapping os memory.ctx block block.access_mode)
        (tell_failure msg)
        (λ got b v. holds-update_mapping os l memory.ctx kept block got b v block.access_mode w)
        (holds-tell_failure msg) e

  pub holds-change_access :
      (mode : AccessMode)
      → ipm_memory_change_access os memory mode w ≡ done ((res, m), u)
      → holds os l u ≡ holds os l w
  unfolding ipm_memory_change_access
  holds-change_access mode e =
      let msg : String = "Memory access change for block \"%s\" failed, reason: %s (%s)" in
      let block = memory.real_memory in
      holds-concluding (shared_memory_block_update_mapping os memory.ctx block mode)
        (tell_failure msg)
        (λ got b v. holds-update_mapping os l memory.ctx kept block got b v mode w)
        (holds-tell_failure msg) e

  abbrev tell_resize : IpmResult → SharedMemoryBlock → M K (Unit {0})
  tell_resize got block = if is_success got then pure tt else (do
    report os memory.ctx "Memory resizing to %zu bytes for block \"%s\" failed, reason: %s (%s)"
        (Arg.number block.size ∷ Arg.bytes memory.block_name ∷ reason got)
    if is_mapped block.memory
        then pure tt
        else report os memory.ctx
            "Failure with resizing made it so that the block mapping is no longer valid" [])

  holds-tell_resize :
      (got : IpmResult) (b : SharedMemoryBlock) (v t : World K)
      → tell_resize got b v ≡ done (tt, t)
      → holds os l t ≡ holds os l v
  holds-tell_resize got b v t e =
      let msg : String = "Memory resizing to %zu bytes for block \"%s\" failed, reason: %s (%s)" in
      let args = Arg.number b.size ∷ Arg.bytes memory.block_name ∷ reason got in
      let v1 = ipm_report_error os memory.ctx msg args v in
      ground (
        arith,
        e,
        report_kept os memory.ctx l.owned kept msg args v,
        report_kept os memory.ctx l.owned kept
            "Failure with resizing made it so that the block mapping is no longer valid" [] v1,
      )

  pub holds-resize_grow :
      (requested : ℕ)
      → w.errno ≢ Errno.eownerdead
      → ipm_memory_resize_grow os memory requested w ≡ done ((res, m), u)
      → holds os l u ≡ holds os l w
  unfolding ipm_memory_resize_grow
  holds-resize_grow requested fresh e =
      let block = memory.real_memory in
      let size = round_size requested in
      let args = Arg.number block.size ∷ Arg.number size ∷ [] in
      let told =
        report_kept os memory.ctx l.owned kept
          "Can not decrease the size of the memory block from %zu to %zu" args w in
      elim (Bool-cases (ltb size block.size)) [
        | inl smaller ↦ ground (arith, smaller, told, e)
        | inr grows ↦
            holds-concluding (shared_memory_block_resize os memory.ctx block size) tell_resize
              (λ got b v. holds-resize os l memory.ctx kept block got b v size w fresh)
              holds-tell_resize (ground (arith, grows, e))
      ]
