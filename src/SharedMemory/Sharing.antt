-- ===== src/SharedMemory/Sharing.antt =====
-- Handles that share a block: `shared_memory_block_open` with itself and with
-- `shared_memory_block_close` (source/shared_memory.c).
use ipm.Base.{ℕ, ◌+◌, ◌-◌, ◌^◌, ◌<◌, ◌≡◌, List, none, some, arith, ap}
use ipm.Error.{IpmResult}
use ipm.Layout.{AccessMode, SharedMemoryHeader, SharedMemoryBlock, u64, u32}
use ipm.System.{World, Posix, done}
use ipm.Platform.Undisturbed.{Undisturbed}
use ipm.Common.{Context}
use ipm.SharedMemory.Open.{shared_memory_block_open}
use ipm.SharedMemory.Open.Joined.{block_open-Joined}
use ipm.SharedMemory.Close.{shared_memory_block_close}
use ipm.SharedMemory.Close.Leaving.{close-Leaves}

module _ {K : Type 0} (os : Posix K) (calm : Undisturbed os) (context : Context K) (fuel : ℕ)
    (name : List ℕ) (id : ℕ) (access : AccessMode) where
  -- A handle that is opened and closed again leaves the block's header as it was, but for the id
  -- that was given away, if no other process changes the shared memory meanwhile and the count of
  -- handles was not about to overflow.
  pub close-open :
      (b : SharedMemoryBlock) (w v : World K)
      → shared_memory_block_open os context fuel name id access w
        ≡ done ((IpmResult.success, some b), v)
      → (w.headers b.header.object).refcount + 1 < 2 ^ 32
      → (res : IpmResult) × (last : World K) × (shared_memory_block_close os context b none v
          ≡ done (res, last))
        × (last.headers b.header.object ≡ record (w.headers b.header.object) {
          id_counter = u64 ((w.headers b.header.object).id_counter + 1);
        })
  close-open b w v opens small =
      let o = b.header.object in
      let j = block_open-Joined os calm context fuel name id access b v w opens in
      let c = close-Leaves os calm b context v j.free in
      let there : c.last.headers o
          ≡ record (v.headers o) { refcount = u32 ((v.headers o).refcount + 2 ^ 32 - 1) } =
        ground (arith, ap (λ (hs : ℕ → SharedMemoryHeader). hs o) c.same_headers) in
      (c.res, c.last, c.returns, ground (arith, there, j.header))
