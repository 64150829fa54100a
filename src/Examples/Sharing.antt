-- ===== src/Examples/Sharing.antt =====
-- The theorems on handles that share a block (source/shared_memory.c), at a system on which all
-- succeeds.
use ipm.Base.{ℕ, ◌≡◌, refl, false, List, [], ◌∷◌, none, some, arith}
use ipm.Error.{IpmResult}
use ipm.Layout.{AccessMode, read_only, SharedMemoryBlock}
use ipm.System.{World, done, world_after}
use ipm.SharedMemory.{make_block_name_based_on_id}
use ipm.SharedMemory.Open.{shared_memory_block_open}
use ipm.SharedMemory.Open.Joined.{Joined, block_open-Joined}
use ipm.SharedMemory.Close.{shared_memory_block_close}
use ipm.SharedMemory.Sharing.{close-open}
use ipm.Examples.{quiet, quiet-Undisturbed, silent, two_claims, world_of}

-- The block 1 of this name.
abbrev name : List ℕ
name = b'm' ∷ []

-- All objects hold a block of two pages that one handle is on, whose id was 1.
abbrev before : World (Unit {0})
before = record (world_of two_claims) {
  headers = λ o. record {
    refcount = 1;
    block_size = 8192;
    id_counter = 2;
    block_id = o;
    block_name = name;
  };
}

-- The handle of an id on the block.
abbrev opened : ℕ → AccessMode → SharedMemoryBlock
opened access_id mode = record {
  access_id = access_id;
  size = 8192;
  header = record { address = 81920; object = 1 };
  memory = some (record { address = 86016; object = 1 });
  has_ownership = false;
  access_mode = mode;
  mem_fd = 1;
}

-- After an opening.
abbrev once : World (Unit {0})
once = world_after (shared_memory_block_open quiet silent 1 name 1 read_only before) before

block_open-Joined_example : Joined name 1 read_only (before.headers 1) (opened 2 read_only) once
unfolding shared_memory_block_open make_block_name_based_on_id
block_open-Joined_example =
    block_open-Joined quiet quiet-Undisturbed silent 1 name 1 read_only (opened 2 read_only) once
      before refl

close-open_example :
    (res : IpmResult) × (last : World (Unit {0})) × (shared_memory_block_close quiet silent
        (opened 2 read_only)
        none
        once
      ≡ done (res, last))
    × (last.headers 1 ≡ record (before.headers 1) { id_counter = 3 })
unfolding shared_memory_block_open make_block_name_based_on_id
close-open_example =
    close-open quiet quiet-Undisturbed silent 1 name 1 read_only (opened 2 read_only) before once
      refl (omega arith)
