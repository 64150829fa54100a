-- ===== src/SharedMemory/Census/Counting.antt =====
-- The handles on a shared object in the course of its life (source/shared_memory.c).
use ipm.Base.{ℕ, ◌+◌, ◌<◌, ◌^◌, ◌≡◌, ◌==◌, if◌then◌else◌, List, ◌∷◌, some, arith, length, get_elem?}
use ipm.Layout.{SharedMemoryBlock}
use ipm.System.{World, Posix}
use ipm.Platform.Undisturbed.{Undisturbed}
use ipm.Common.Unlinks.{Unlinks, unlinked}
use ipm.SharedMemory.{make_block_name_based_on_id}
use ipm.SharedMemory.Census.{Census, creates, opens, closes, cleans, remaps, resizes, elsewhere}
use ipm.SharedMemory.Census.Handles.{Falling-distinct}
use ipm.SharedMemory.Census.Tally.{
  Tally, created-Tally, opened-Tally, closed-Tally, cleaned-Tally, remapped-Tally,
}
use ipm.SharedMemory.Mapping.Unchanged.{update_mapping-Unchanged, resize-Unchanged}

module _ {K : Type 0} (os : Posix K) (calm : Undisturbed os) (u : Unlinks os) (name : List ℕ)
    (id o : ℕ) (start : World K) where
  Census-Tally :
      {n k : ℕ} {handles : List SharedMemoryBlock} {w : World K}
      → Census os u name id o start n k handles w
      → n + 1 < 2 ^ 32
      → Tally os calm u name id o start n k handles w
  Census-Tally {w} (creates {b = b} context size access made on) small =
      created-Tally os calm u name id o start context size access b w made on
  Census-Tally {w}
        (opens {n = n} {k = k} {b = b} {handles = handles} context fuel asked wanted access v c made
          on)
        small =
      opened-Tally os calm u name id o start context n k fuel asked wanted access b handles v w
        (Census-Tally c (omega arith)) made on (omega arith)
  Census-Tally {n} {k} {w = w} (closes handles i b callback context res v kept quiet c at left)
        small =
      closed-Tally os calm u name id o start callback context n k i b handles res v w kept quiet
        (Census-Tally c small) at left small
  Census-Tally {n} {w = w} (cleans {k = k} handles i b res v c at left) small =
      cleaned-Tally os calm u name id o start n k i b handles res v w (Census-Tally c small) at left
  Census-Tally {n} {k} {w = w} (remaps {c = new} handles i b context access res v kept c at made)
        small =
      remapped-Tally os calm u name id o start context kept n k i b new handles res v w
        (Census-Tally c small) at
        (update_mapping-Unchanged os calm context u kept b res new w access v made)
  Census-Tally {n} {k} {w = w} (resizes {c = new} handles i b context size res v kept c at made)
        small =
      remapped-Tally os calm u name id o start context kept n k i b new handles res v w
        (Census-Tally c small) at (resize-Unchanged os calm context u kept b res new w size v made)
  Census-Tally {n} {k} {handles} {w} (elsewhere v c same unlinks) small =
      let t = Census-Tally c small in
      record {
        refcount = ground (arith, same, t.refcount);
        next_id = ground (arith, same, t.next_id);
        same_id = ground (arith, same, t.same_id);
        same_name = ground (arith, same, t.same_name);
        few = t.few;
        falling = t.falling;
        names = ground (arith, unlinks, t.names);
      }

  -- As long as no other process changes the shared memory during the calls, and fewer than
  -- 2^32 - 1 handles have been opened since the block was created: in whatever order handles were
  -- opened, mapped anew, resized, closed and cleaned, by processes whose own callbacks call no
  -- `shm_unlink`, and with callbacks of the close that leave the headers and call none, the header counts just those that are open and
  -- those that were cleaned, and no two that are open have the same id.
  pub open_handles_counted :
      {n k : ℕ} {handles : List SharedMemoryBlock} {w : World K}
      → Census os u name id o start n k handles w
      → n + 1 < 2 ^ 32
      → ((w.headers o).refcount ≡ length handles + k)
        × ((i j : ℕ) (b c : SharedMemoryBlock)
            → get_elem? handles i ≡ some b
            → get_elem? handles j ≡ some c
            → b.access_id ≡ c.access_id
            → i ≡ j)
  open_handles_counted {n} {handles = handles} c small =
      let t = Census-Tally c small in
      (
        t.refcount,
        λ i j b d ei ej same. Falling-distinct i j o (n + 2) handles b d t.falling ei ej same,
      )

  -- As long as no other process changes the shared memory during the calls, and fewer than
  -- 2^32 - 1 handles have been opened since the block was created: in whatever order handles were
  -- opened, mapped anew, resized, closed and cleaned, by processes whose own callbacks call no
  -- `shm_unlink`, and with callbacks of the close that leave the headers and call none, as that of
  -- `ipm_memory_close` does, `shm_unlink` has been called once, with the block's own name, if no handle is open and none
  -- was cleaned, and not at all otherwise.
  pub unlinked_with_last :
      {n k : ℕ} {handles : List SharedMemoryBlock} {w : World K}
      → Census os u name id o start n k handles w
      → n + 1 < 2 ^ 32
      → unlinked os u w ≡ (
          if length handles + k == 0
          then make_block_name_based_on_id name id ∷ unlinked os u start
          else unlinked os u start)
  unlinked_with_last c small = (Census-Tally c small).names
