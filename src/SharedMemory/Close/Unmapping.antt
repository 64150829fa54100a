-- ===== src/SharedMemory/Close/Unmapping.antt =====
-- The mappings that `shared_memory_block_close` gives back, by the length that the header has.
use mathlib.Core.List.Perm
use mathlib.Core.List.{Perm}
use ipm.Base.{
  inl, inr, Bool-cases, ℕ, ◌≡◌, sym, subst, ap, ◌==◌, List, [], ◌∷◌, Option, none, some, arith,
}
use ipm.Error.{IpmResult}
use ipm.Layout.{page_size, Ptr, SharedMemoryHeader, SharedMemoryBlock}
use ipm.System.{Mutex, Call, Arg, World, Posix, done, M, world_after}
use ipm.Platform.{ignoring, ipm_mutex_destroy}
use ipm.Platform.Still.{mutex_destroy_still}
use ipm.Platform.Undisturbed.{Undisturbed, mutex_destroy_same}
use ipm.Common.{Context}
use ipm.Common.Kept.{Kept, report_kept}
use ipm.Common.Mappings.{Mappings, mapped, mappings_still, Spares}
use ipm.SharedMemory.{make_block_name_based_on_id}
use ipm.SharedMemory.Close.{unmap_block, close_last, shared_memory_block_close}
use ipm.SharedMemory.Close.Leaving.{uncounted, close_last-Leaves, unmap-Leaves}

module _ {K : Type 0} (os : Posix K) (t : Mappings os) (b : SharedMemoryBlock) (memory : Ptr)
    (at : b.memory ≡ some memory) (rest : List (Ptr × ℕ)) where
  -- The process holds the block's two mappings, that of the memory with the length that the header
  -- has, and these.
  abbrev pub Mapped : World K → Type 0
  Mapped w =
      Perm (mapped os t w)
        ((b.header, page_size) ∷ (memory, (w.headers b.header.object).block_size) ∷ rest)

  unmap_block-gives_back :
      (w v : World K) → Mapped w → unmap_block os b w ≡ done (tt, v) → Perm (mapped os t v) rest
  unfolding unmap_block
  unmap_block-gives_back w v holds e =
      let size = (w.headers b.header.object).block_size in
      let w1 = ignoring os (Call.munmap (some memory) size) w in
      let first : Perm (mapped os t w1) ((b.header, page_size) ∷ rest) =
        t.unmaps memory size ((b.header, page_size) ∷ rest) w
          (Perm.trans holds (Perm.swap (memory, size) (b.header, page_size) rest)) in
      let ends : v ≡ ignoring os (Call.munmap (some b.header) page_size) w1 =
        ground (arith, e, at) in
      subst (λ (x : World K). Perm (mapped os t x) rest) (sym ends)
        (t.unmaps b.header page_size rest w1 first)

  -- In another world with as much mapped, and the same header.
  Mapped-same :
      (w v : World K)
      → Mapped w
      → v.headers b.header.object ≡ w.headers b.header.object
      → mapped os t v ≡ mapped os t w
      → Mapped v
  Mapped-same w v holds header same =
      subst
        (λ (l : List (Ptr × ℕ)).
          Perm l ((b.header, page_size) ∷ (memory, (v.headers b.header.object).block_size) ∷ rest))
        (sym same)
        (subst (λ (n : ℕ). Perm (mapped os t w) ((b.header, page_size) ∷ (memory, n) ∷ rest))
          (sym (ground (arith, header))) holds)

module _ {K : Type 0} (os : Posix K) (context : Context K) (t : Mappings os)
    (kept : Kept context t.table) (calm : Undisturbed os) (b : SharedMemoryBlock) (memory : Ptr)
    (at : b.memory ≡ some memory) (rest : List (Ptr × ℕ)) (res : IpmResult) (last : World K) where
  abbrev Holds : World K → Type 0
  Holds = Mapped os t b memory at rest

  close_rest-gives_back :
      (w : World K)
      → Holds w
      → close_last os context b none w ≡ done (res, last)
      → Perm (mapped os t last) rest
  unfolding close_last
  close_rest-gives_back w holds e =
      let mtx = Mutex.segment_mutex b.header.object in
      let w1 = (ipm_mutex_destroy os mtx w).1 in
      let h = w1.headers b.header.object in
      let shm = make_block_name_based_on_id h.block_name h.block_id in
      let v = world_after (unmap_block os b w1) w1 in
      let w2 = ignoring os (Call.shm_unlink shm) v in
      let args = Arg.bytes shm ∷ Arg.number h.block_id ∷ Arg.text (os.strerror w2.errno) ∷ [] in
      let before : Holds w1 =
        Mapped-same os t b memory at rest w w1 holds
          (ap (λ (hs : ℕ → SharedMemoryHeader). hs b.header.object)
            (mutex_destroy_same os calm mtx w))
          (mutex_destroy_still os (mapped os t) (mappings_still os t) mtx w) in
      let gone : Perm (mapped os t v) rest =
        unmap_block-gives_back os t b memory at rest w1 v before (ground (arith, e)) in
      let same : mapped os t last ≡ mapped os t v = ground (
        arith,
        e,
        t.others (Call.shm_unlink shm) v,
        report_kept os context t.table kept "Could not unlink memory block %s-%#016lX, reason: %s"
            args w2,
      ) in
      subst (λ (l : List (Ptr × ℕ)). Perm l rest) (sym same) gone

  close_last-gives_back :
      (callback : Option (M K (Unit {0}))) (w : World K)
      → Spares os t callback
      → Holds w
      → close_last os context b callback w ≡ done (res, last)
      → (last.headers ≡ w.headers) × Perm (mapped os t last) rest
  unfolding close_last
  close_last-gives_back none w spares holds e =
      let c = close_last-Leaves os calm b context w in
      (ground (arith, e, c.returns, c.same_headers), close_rest-gives_back w holds e)
  close_last-gives_back (some f) w spares holds e =
      let v = world_after (f w) w in
      let c = close_last-Leaves os calm b context v in
      let (headers, same) = spares w v (ground (arith, e)) in
      let before : Holds v =
        Mapped-same os t b memory at rest w v holds
          (ap (λ (hs : ℕ → SharedMemoryHeader). hs b.header.object) headers) same in
      (
        ground (arith, e, headers, c.returns, c.same_headers),
        close_rest-gives_back v before (ground (arith, e)),
      )

  -- Closing a handle takes it out of the header's count, leaves the headers else, and gives its two
  -- mappings back, if that of the memory has the length that the header has now.
  pub block_close-gives_back :
      (callback : Option (M K (Unit {0}))) (w : World K)
      → Spares os t callback
      → Holds w
      → shared_memory_block_close os context b callback w ≡ done (res, last)
      → (last.headers ≡ (uncounted os calm b context w).headers) × Perm (mapped os t last) rest
  unfolding shared_memory_block_close
  block_close-gives_back callback w spares holds e =
      let w1 = ignoring os (Call.close b.mem_fd) w in
      let w2 = uncounted os calm b context w1 in
      let same = calm.calls (Call.close b.mem_fd) w in
      let before : Mapped os t b memory at rest w1 =
        Mapped-same os t b memory at rest w w1 holds
          (ap (λ (hs : ℕ → SharedMemoryHeader). hs b.header.object) same)
          (t.others (Call.close b.mem_fd) w (ground arith)) in
      let fewer : Holds w2 =
        subst (λ (n : ℕ). Perm (mapped os t w1) ((b.header, page_size) ∷ (memory, n) ∷ rest))
          (ground arith) before in
      elim (Bool-cases ((w.headers b.header.object).refcount == 1)) [
        | inl only ↦
            let (headers, gone) =
              close_last-gives_back callback w2 spares fewer (ground (arith, e, only, same)) in
            (ground (arith, headers, same), gone)
        | inr others ↦
            let gone = unmap_block-gives_back os t b memory at rest w2 last fewer in
            (
              ground (arith, e, others, same, unmap-Leaves os calm b w2),
              gone (ground (arith, e, others, same)),
            )
      ]
