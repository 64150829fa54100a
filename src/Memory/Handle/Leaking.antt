-- ===== src/Memory/Handle/Leaking.antt =====
-- The mapping that `ipm_memory_sync` loses (source/ipm_memory.c, source/shared_memory.c).
use ipm.Base.{some, ℕ, ◌+◌, ◌-◌, ◌≡◌, ◌≢◌, true, arith, Option-cases, inl, inr}
use ipm.Error.{IpmResult}
use ipm.Layout.{AccessMode, SharedMemoryBlock, page_size, Ptr}
use ipm.System.{Call, World, Posix, done}
use ipm.System.Inversion.{bind-Stepped}
use ipm.Platform.{ignoring}
use ipm.Common.Accounts.{Held, held, with_map, Accounts, now}
use ipm.SharedMemory.Mapping.{is_mapped, shared_memory_block_update_mapping}
use ipm.SharedMemory.Mapping.Laws.{remapped_pointer_null, update_mapping_syncs}
use ipm.Memory.{IpmMemory}
use ipm.Memory.Handle.{ipm_memory_sync}
use ipm.Memory.Lifetime.{ipm_memory_close}
use ipm.System.Returns.{returns-done}
use ipm.Memory.Region.Releasing.{release_all_clears}
use ipm.Memory.Lifetime.Balance.{with_handle, is_whole}
use ipm.Memory.Lifetime.Leaving.{close_returns_after}
use ipm.Memory.Lifetime.RoundTrip.{Closable}
use ipm.Memory.Lifetime.Closing.{memory_close_held}

module _ {K : Type 0} (os : Posix K) (memory : IpmMemory K) (a : Accounts os memory.ctx)
    (b : SharedMemoryBlock) (w v : World K) where
  update_mapping_held :
      (mode : AccessMode)
      → memory.real_memory.size ≢ (w.headers memory.real_memory.header.object).block_size
      → is_mapped memory.real_memory.memory ≡ true
      → shared_memory_block_update_mapping os memory.ctx memory.real_memory mode w
        ≡ done ((IpmResult.success, b), v)
      → now os memory.ctx a v
        ≡ held (now os memory.ctx a w).fds ((now os memory.ctx a w).maps - 1 + 1)
  unfolding shared_memory_block_update_mapping
  update_mapping_held mode stale known e =
      let block = memory.real_memory in
      let size = (w.headers block.header.object).block_size in
      let w1 = ignoring os (Call.munmap block.memory block.size) w in
      let mapped = os.mmap block.memory size mode block.mem_fd page_size w1 in
      let unmapped = a.calls (Call.munmap block.memory block.size) w in
      let counted = a.maps block.memory size mode block.mem_fd page_size w1 in
      elim (Option-cases mapped.0) [
        | inl failed ↦ absurd (ground (arith, failed, stale))
        | inr (p, at) ↦ ground (arith, at, stale, known, unmapped, counted)
      ]

  -- A mapping is lost: let a handle that knows where its memory and its claims are, and owns neither
  -- block, be synchronised with success after the block's size has changed. If at its close the lock
  -- of the list succeeds, on a valid list that is not full, in which live claims with one id are of
  -- one handle, then with more fuel than there are claims the close returns, and the process is left
  -- with a mapping that it did not have before the handle.
  pub synced_close_leaks :
      (fuel : ℕ) (p : Ptr) (h : Held)
      → is_whole memory ≡ true
      → now os memory.ctx a w ≡ with_handle h
      → memory.real_memory.size ≢ (w.headers memory.real_memory.header.object).block_size
      → ipm_memory_sync os memory w
        ≡ done ((IpmResult.success, record memory { real_memory = b }), v)
      → memory.active_claims.memory ≡ some p
      → Closable os fuel p.object v
      → (last : World K) × (ipm_memory_close os fuel (record memory { real_memory = b }) v
          ≡ done (tt, last))
        × (now os memory.ctx a last ≡ with_map h)
  unfolding ipm_memory_sync
  synced_close_leaks fuel p h whole start stale syncs at c =
      let mode = memory.real_memory.access_mode in
      let synced : IpmMemory K = record memory { real_memory = b } in
      let s =
        bind-Stepped (shared_memory_block_update_mapping os memory.ctx memory.real_memory mode) _ w
          ((IpmResult.success, synced), v) syncs in
      let updates : shared_memory_block_update_mapping os memory.ctx memory.real_memory mode w
          ≡ done ((IpmResult.success, b), v) =
        ground (arith, s.first, s.rest) in
      let mapped_again = update_mapping_held mode stale (ground (arith, whole)) updates in
      let lost =
        remapped_pointer_null os memory.ctx memory.real_memory mode IpmResult.success b w v
          (inl stale) updates in
      let (same, _, _) = update_mapping_syncs os memory.ctx memory.real_memory mode b w v updates in
      let (_, released, _) =
        release_all_clears os synced fuel p v c.locked at c.locks c.valid c.room c.ids c.enough in
      let ((_, last), closes) = returns-done (ipm_memory_close os fuel synced v) (
        close_returns_after os synced a fuel p v at (ground (arith, whole))
          (ground (arith, whole, same.has_ownership)) (ground (arith, released))) in
      let closed = memory_close_held os synced a v last fuel closes in
      (last, closes, ground (arith, start, whole, mapped_again, lost, closed, at))
