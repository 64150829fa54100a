-- ===== src/Memory/Sizes.antt =====
-- Sizes that a caller asks for (`round_size` and `ipm_memory_resize_grow`).
use ipm.Base.{ℕ, ◌+◌, ◌%◌, ◌^◌, ◌≤◌, ◌<◌, ◌≡◌, arith}
use ipm.Layout.{page_size}
use ipm.Memory.{round_size}

-- `round_size` gives the least multiple of the page size that is not below the size, if the last
-- page of the address space is not needed for it.
pub round_size_least :
    (size : ℕ)
    → size + page_size ≤ 2 ^ 64
    → (size ≤ round_size size)
      × (round_size size < size + page_size)
      × (round_size size % page_size ≡ 0)
unfolding round_size
round_size_least size h = ground arith

-- In the last page, but for its start, it wraps round to 0.
round_size_wraps : (size : ℕ) → 2 ^ 64 < size + page_size → size < 2 ^ 64 → round_size size ≡ 0
unfolding round_size
round_size_wraps size h lt = ground arith
