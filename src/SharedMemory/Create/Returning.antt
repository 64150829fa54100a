-- ===== src/SharedMemory/Create/Returning.antt =====
-- `shared_memory_block_create` returns, whichever of its calls fails but one: the mapping of the
-- header, whose failure the code does not see.
use ipm.Base.{
  ℕ, ◌+◌, ◌%◌, ◌≤◌, ◌<◌, ◌≡◌, true, List, none, some, arith, inl, inr, Option-cases, length,
}
use ipm.Layout.{AccessMode, read_write, max_name_len, page_size, Ptr, u64}
use ipm.System.{Errno, Call, World, Posix}
use ipm.System.Returns.{returns}
use ipm.Platform.Still.{ok-cases}
use ipm.Common.{Context}
use ipm.SharedMemory.{make_block_name_based_on_id}
use ipm.SharedMemory.Create.{
  create_mapped, create_header, create_pages, create_refused, shared_memory_block_create,
}

-- A header's page can be mapped.
abbrev pub MapsHeaders : {K : Type 0} → Posix K → Type 0
MapsHeaders {K} os =
    (fd : ℕ) (w : World K) → (p : Ptr) × ((os.mmap none page_size read_write fd 0 w).0 ≡ some p)

module _ {K : Type 0} (os : Posix K) (context : Context K) (maps : MapsHeaders os) (name : List ℕ)
    (id size : ℕ) (access : AccessMode) where
  mapped_returns :
      (fd : ℕ) (memory header : Ptr) (w : World K)
      → returns (create_mapped os context name id size access fd memory header w) ≡ true
  unfolding create_mapped
  mapped_returns fd memory header w = ground arith

  header_returns :
      (fd : ℕ) (memory : Ptr) (w : World K)
      → returns (create_header os context name id size access fd memory w) ≡ true
  unfolding create_header
  header_returns fd memory w =
      let (header, at) = maps fd w in
      let mapped = os.mmap none page_size read_write fd 0 w in
      ground (arith, at, mapped_returns fd memory header mapped.1)

  pages_returns :
      (fd : ℕ) (w : World K) → returns (create_pages os context name id size access fd w) ≡ true
  unfolding create_pages
  pages_returns fd w =
      let truncated = os.call (Call.ftruncate fd (u64 (size + page_size))) w in
      let mapped = os.mmap none size access fd page_size truncated.1 in
      elim (ok-cases truncated.0) [
        | inr bad ↦ ground (arith, bad)
        | inl good ↦ elim (Option-cases mapped.0) [
          | inl failed ↦ ground (arith, good, failed)
          | inr (memory, at) ↦ ground (arith, good, at, header_returns fd memory mapped.1)
        ]
      ]

  refused_returns : (e : Errno) (w : World K) → returns (create_refused os context id e w) ≡ true
  unfolding create_refused
  refused_returns e w = ground arith

  pub create_returns :
      (w : World K)
      → size % page_size ≡ 0
      → 0 < size
      → length name ≤ max_name_len
      → returns (shared_memory_block_create os context name id size access w) ≡ true
  unfolding shared_memory_block_create
  create_returns w whole positive short =
      let opened = os.shm_open (make_block_name_based_on_id name id) true w in
      elim (Option-cases opened.0) [
        | inl failed ↦ ground (arith, failed, refused_returns opened.1.errno opened.1)
        | inr (fd, at) ↦ ground (arith, at, pages_returns fd opened.1)
      ]
