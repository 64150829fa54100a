-- ===== src/SharedMemory/Close/Returning.antt =====
-- `shared_memory_block_close` and `shared_memory_block_clean` return for a block that this handle
-- does not own.
use ipm.Base.{Option, ◌+◌, ◌-◌, ◌≡◌, ◌^◌, true, false, none, some, arith, inl, inr}
use ipm.Layout.{SharedMemoryBlock, SharedMemoryHeader, u32, page_size}
use ipm.System.{Mutex, Call, World, Posix, M, set_header}
use ipm.System.Returns.{returns, returns-bind}
use ipm.Platform.Still.{ok-cases}
use ipm.Platform.{ipm_mutex_destroy, ignoring}
use ipm.Common.{Context}
use ipm.SharedMemory.{make_block_name_based_on_id}
use ipm.SharedMemory.Close.{
  unmap_block, close_last, shared_memory_block_close, shared_memory_block_clean,
}

module _ {K : Type 0} (os : Posix K) (block : SharedMemoryBlock) where
  pub clean_returns :
      (w : World K)
      → block.has_ownership ≡ false
      → returns (shared_memory_block_clean os block w) ≡ true
  unfolding shared_memory_block_clean unmap_block
  clean_returns w free = ground (arith, free)

  module _ (context : Context K) where
    last_returns : (w : World K) → returns (close_last os context block none w) ≡ true
    unfolding close_last unmap_block
    last_returns w =
        let o = block.header.object in
        let w1 = (ipm_mutex_destroy os (Mutex.segment_mutex o) w).1 in
        let name = make_block_name_based_on_id (w1.headers o).block_name (w1.headers o).block_id in
        let w2 = ignoring os (Call.munmap block.memory (w1.headers o).block_size) w1 in
        let w3 = ignoring os (Call.munmap (some block.header) page_size) w2 in
        elim (ok-cases (os.call (Call.shm_unlink name) w3).0) [
          | inl good ↦ ground (arith, good)
          | inr bad ↦ ground (arith, bad)
        ]

    last_returns_after :
        (f : M K (Unit {0})) (w : World K)
        → ((v : World K) → returns (f v) ≡ true)
        → returns (close_last os context block (some f) w) ≡ true
    unfolding close_last
    last_returns_after f w fine =
        let rest = close_last os context block none in
        returns-bind f (λ (_ : Unit {0}). rest) w (fine w) (λ _ v e. last_returns v)

    -- The last handle's callback, if there is one, always returns.
    abbrev pub CallbackReturns : Option (M K (Unit {0})) → Type 0
    CallbackReturns none = Unit
    CallbackReturns (some f) = (v : World K) → returns (f v) ≡ true

    pub close_returns :
        (callback : Option (M K (Unit {0}))) (w : World K)
        → CallbackReturns callback
        → block.has_ownership ≡ false
        → returns (shared_memory_block_close os context block callback w) ≡ true
    unfolding shared_memory_block_close unmap_block
    close_returns callback w fine free =
        let o = block.header.object in
        let w1 = ignoring os (Call.close block.mem_fd) w in
        let h = w1.headers o in
        let less : SharedMemoryHeader = record h { refcount = u32 (h.refcount + 2 ^ 32 - 1) } in
        ground (arith, free, either callback (set_header o less w1) fine)
      where
        either :
            (c : Option (M K (Unit {0}))) (v : World K)
            → CallbackReturns c
            → returns (close_last os context block c v) ≡ true
        either none v good = last_returns v
        either (some f) v good = last_returns_after f v good
