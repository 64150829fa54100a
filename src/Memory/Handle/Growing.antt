-- ===== src/Memory/Handle/Growing.antt =====
-- Requests that `ipm_memory_resize_grow` refuses.
use ipm.Base.{ℕ, ◌<◌, ◌≡◌, [], ◌∷◌, arith}
use ipm.Error.{IpmResult}
use ipm.System.{World, Posix, Arg, done, world_after}
use ipm.Common.Local.{report_local}
use ipm.Memory.{IpmMemory, round_size}
use ipm.Memory.Handle.{ipm_memory_resize_grow}

-- A request that rounds to less than the handle's size is refused with ERR_BAD_VALUE; the handle
-- and the shared memory are left as they were.
resize_grow_refuses :
    {K : Type 0} (os : Posix K) (memory : IpmMemory K) (requested : ℕ) (w : World K)
    → round_size requested < memory.real_memory.size
    → (last : World K) × (ipm_memory_resize_grow os memory requested w
        ≡ done ((IpmResult.err_bad_value, memory), last))
      × (last.lists ≡ w.lists)
      × (last.headers ≡ w.headers)
unfolding ipm_memory_resize_grow
resize_grow_refuses os memory requested w small =
    let local =
      report_local os memory.ctx "Can not decrease the size of the memory block from %zu to %zu"
        (Arg.number memory.real_memory.size ∷ Arg.number (round_size requested) ∷ []) w in
    (
      world_after (ipm_memory_resize_grow os memory requested w) w,
      ground arith,
      ground (arith, local),
      ground (arith, local),
    )
