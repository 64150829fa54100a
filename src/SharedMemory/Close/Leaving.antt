-- ===== src/SharedMemory/Close/Leaving.antt =====
-- What `shared_memory_block_close` leaves, alone and after `shared_memory_block_open`.
use ipm.Base.{◌+◌, ◌-◌, ◌^◌, ◌≡◌, false, [], ◌∷◌, none, some, arith}
use ipm.Error.{IpmResult}
use ipm.Layout.{page_size, SharedMemoryBlock, u32}
use ipm.System.{Mutex, Call, Arg, World, Posix, Outcome, done, world_after, set_header}
use ipm.Platform.{ignoring, ipm_mutex_destroy}
use ipm.Platform.Undisturbed.{Undisturbed, mutex_destroy_same}
use ipm.Common.{Context}
use ipm.Common.Local.{report_local}
use ipm.SharedMemory.{make_block_name_based_on_id}
use ipm.SharedMemory.Close.{unmap_block, close_last, shared_memory_block_close}

-- What a computation returns, if it returns.
abbrev result_after : {K A : Type 0} → Outcome (A × World K) → A → A
result_after (done (a, w)) other = a
result_after _ other = other

-- A call returns, and leaves the headers as they are in `w`.
pub record Leaves {K A : Type 0} (w : World K) (out : Outcome (A × World K)) : Type 0 where
  pub res : A
  pub last : World K
  pub returns : out ≡ done (res, last)
  pub same_headers : last.headers ≡ w.headers

module _ {K : Type 0} (os : Posix K) (calm : Undisturbed os) (block : SharedMemoryBlock) where
  pub unmap-Leaves : (w : World K) → Leaves w (unmap_block os block w)
  unfolding unmap_block
  unmap-Leaves w =
      let size = (w.headers block.header.object).block_size in
      let w1 = ignoring os (Call.munmap block.memory size) w in
      record {
        res = tt;
        last = ignoring os (Call.munmap (some block.header) page_size) w1;
        returns = ground arith;
        same_headers = ground (
          arith,
          calm.calls (Call.munmap block.memory size) w,
          calm.calls (Call.munmap (some block.header) page_size) w1,
        );
      }

  module _ (context : Context K) where
    pub close_last-Leaves : (w : World K) → Leaves w (close_last os context block none w)
    unfolding close_last
    close_last-Leaves w =
        let mtx = Mutex.segment_mutex block.header.object in
        let w1 = (ipm_mutex_destroy os mtx w).1 in
        let h = w1.headers block.header.object in
        let name = make_block_name_based_on_id h.block_name h.block_id in
        let unmapped = unmap-Leaves w1 in
        let w2 = (os.call (Call.shm_unlink name) unmapped.last).1 in
        let args = Arg.bytes name ∷ Arg.number h.block_id ∷ Arg.text (os.strerror w2.errno) ∷ [] in
        let unlinked = calm.calls (Call.shm_unlink name) unmapped.last in
        let reported =
          report_local os context "Could not unlink memory block %s-%#016lX, reason: %s" args w2 in
        record {
          res = result_after (close_last os context block none w) IpmResult.success;
          last = world_after (close_last os context block none w) w;
          returns = ground (arith, unmapped.returns);
          same_headers = ground (
            arith,
            mutex_destroy_same os calm mtx w,
            unmapped.returns,
            unmapped.same_headers,
            unlinked,
            reported,
          );
        }

    -- The headers once the block's handle is not counted any more.
    abbrev pub uncounted : World K → World K
    uncounted w =
        set_header block.header.object
          (record (w.headers block.header.object) {
            refcount = u32 ((w.headers block.header.object).refcount + 2 ^ 32 - 1);
          })
          w

    pub close-Leaves :
        (w : World K)
        → block.has_ownership ≡ false
        → Leaves (uncounted w) (shared_memory_block_close os context block none w)
    unfolding shared_memory_block_close
    close-Leaves w free =
        let out = shared_memory_block_close os context block none w in
        let w1 = ignoring os (Call.close block.mem_fd) w in
        let w2 = uncounted w1 in
        let last_one = close_last-Leaves w2 in
        let one_of_many = unmap-Leaves w2 in
        let closed = calm.calls (Call.close block.mem_fd) w in
        record {
          res = result_after out IpmResult.success;
          last = world_after out w;
          returns = ground (arith, free, last_one.returns, one_of_many.returns);
          same_headers = ground (
            arith, free, closed, last_one.returns, last_one.same_headers, one_of_many.returns,
            one_of_many.same_headers,
          );
        }
