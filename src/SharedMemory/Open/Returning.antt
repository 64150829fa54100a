-- ===== src/SharedMemory/Open/Returning.antt =====
-- `shared_memory_block_open` returns, whichever of its calls fails but the mapping of the header, if
-- no creator keeps it waiting.
use ipm.Base.{ℕ, ◌<◌, ◌≤◌, ◌≡◌, true, false, List, none, arith, inl, inr, Option-cases, length}
use ipm.Layout.{AccessMode, read_write, max_name_len, page_size, Ptr}
use ipm.System.{Errno, World, Posix}
use ipm.System.Returns.{returns}
use ipm.Common.{Context}
use ipm.SharedMemory.{make_block_name_based_on_id}
use ipm.SharedMemory.Create.Returning.{MapsHeaders}
use ipm.SharedMemory.Open.{
  open_mapped, open_pages, open_header, open_refused, shared_memory_block_open,
}
use ipm.SharedMemory.Open.Ready.{ReadyAfter, await_creator_returns}

-- From any world, the creator of any object has counted itself after fewer yields than the fuel.
abbrev pub Prompt : {K : Type 0} → Posix K → ℕ → Type 0
Prompt {K} os fuel =
    (o : ℕ) (w : World K) → (n : ℕ) × (u : World K) × ReadyAfter os o n w u × (n < fuel)

module _ {K : Type 0} (os : Posix K) (context : Context K) (maps : MapsHeaders os) (fuel : ℕ)
    (prompt : Prompt os fuel) (name : List ℕ) (id : ℕ) (access : AccessMode) where
  mapped_returns :
      (fd size : ℕ) (header memory : Ptr) (w : World K)
      → returns (open_mapped os context fuel name id access fd size header memory w) ≡ true
  unfolding open_mapped
  mapped_returns fd size header memory w =
      let (n, u, done_by, lt) = prompt header.object w in
      ground (arith, await_creator_returns os header.object fuel n done_by lt)

  pages_returns :
      (fd : ℕ) (header : Ptr) (w : World K)
      → returns (open_pages os context fuel name id access fd header w) ≡ true
  unfolding open_pages
  pages_returns fd header w =
      let size = (w.headers header.object).block_size in
      let mapped = os.mmap none size access fd page_size w in
      elim (Option-cases mapped.0) [
        | inl failed ↦ ground (arith, failed)
        | inr (memory, at) ↦ ground (arith, at, mapped_returns fd size header memory mapped.1)
      ]

  header_returns :
      (fd : ℕ) (w : World K) → returns (open_header os context fuel name id access fd w) ≡ true
  unfolding open_header
  header_returns fd w =
      let (header, at) = maps fd w in
      let mapped = os.mmap none page_size read_write fd 0 w in
      ground (arith, at, pages_returns fd header mapped.1)

  refused_returns : (e : Errno) (w : World K) → returns (open_refused os context fuel id e w) ≡ true
  unfolding open_refused
  refused_returns e w = ground arith

  pub open_returns :
      (w : World K)
      → length name ≤ max_name_len
      → returns (shared_memory_block_open os context fuel name id access w) ≡ true
  unfolding shared_memory_block_open
  open_returns w short =
      let opened = os.shm_open (make_block_name_based_on_id name id) false w in
      elim (Option-cases opened.0) [
        | inl failed ↦ ground (arith, failed, refused_returns opened.1.errno opened.1)
        | inr (fd, at) ↦ ground (arith, at, header_returns fd opened.1)
      ]
