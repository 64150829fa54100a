-- ===== src/SharedMemory/Census/Tally.antt =====
-- What the header of a shared object counts after each operation on it (source/shared_memory.c).
use ipm.Base.{
  ℕ, suc, ◌+◌, ◌-◌, ◌<◌, ◌≤◌, ◌^◌, ◌≡◌, ◌==◌, if◌then◌else◌, List, [], ◌∷◌, Option, some, arith, ap,
  length, get_elem?, set, length-set,
}
use ipm.Error.{IpmResult}
use ipm.Layout.{AccessMode, SharedMemoryHeader, SharedMemoryBlock, u32}
use ipm.System.{World, Posix, done, M}
use ipm.Platform.Undisturbed.{Undisturbed}
use ipm.Common.{Context}
use ipm.Common.Kept.{Kept}
use ipm.Common.Unlinks.{Unlinks, unlinked, Quiet}
use ipm.SharedMemory.{make_block_name_based_on_id}
use ipm.SharedMemory.Create.Started.{block_create-Started}
use ipm.SharedMemory.Create.{shared_memory_block_create}
use ipm.SharedMemory.Open.{shared_memory_block_open}
use ipm.SharedMemory.Close.{shared_memory_block_close, shared_memory_block_clean}
use ipm.SharedMemory.Create.Unlinking.{unlinked-block_create}
use ipm.SharedMemory.Open.Joined.{block_open-Joined}
use ipm.SharedMemory.Open.Unlinking.{unlinked-block_open}
use ipm.SharedMemory.Close.Unlinking.{unlinked-block_close, unlinked-block_clean}
use ipm.SharedMemory.Mapping.Unchanged.{Unchanged}
use ipm.SharedMemory.Census.Handles.{
  erase, length-erase, get_elem?-length, Falling, Falling-mono, erase-Falling, Falling-get,
  set-Falling,
}

module _ {K : Type 0} (os : Posix K) (calm : Undisturbed os) (u : Unlinks os) (name : List ℕ)
    (id o : ℕ) (start : World K) where
  -- The names unlinked before the block was created, and its own once no handle is left or was
  -- cleaned.
  abbrev pub expected : ℕ → List SharedMemoryBlock → List (List ℕ)
  expected k handles =
      if length handles + k == 0
      then make_block_name_based_on_id name id ∷ unlinked os u start
      else unlinked os u start

  pub record Tally (n k : ℕ) (handles : List SharedMemoryBlock) (w : World K) : Type 0 where
    pub refcount : (w.headers o).refcount ≡ length handles + k
    pub next_id : (w.headers o).id_counter ≡ n + 2
    pub same_id : (w.headers o).block_id ≡ id
    pub same_name : (w.headers o).block_name ≡ name
    pub few : length handles + k ≤ n + 1
    pub falling : Falling o (n + 2) handles
    pub names : unlinked os u w ≡ expected k handles

  pub created-Tally :
      (context : Context K) (size : ℕ) (access : AccessMode) (b : SharedMemoryBlock) (v : World K)
      → shared_memory_block_create os context name id size access start
        ≡ done ((IpmResult.success, some b), v)
      → b.header.object ≡ o
      → Tally 0 0 (b ∷ []) v
  created-Tally context size access b v made on =
      let s = block_create-Started os context calm name id size access b v start made in
      let there : v.headers b.header.object ≡ v.headers o = ap v.headers on in
      record {
        refcount = ground (arith, s.header, there);
        next_id = ground (arith, s.header, there);
        same_id = ground (arith, s.header, there);
        same_name = ground (arith, s.header, there);
        few = omega arith;
        falling = (ground (arith, s.access_id), on, s.free, tt);
        names = unlinked-block_create os context u name id access b v size start made;
      }

  pub opened-Tally :
      (context : Context K) (n k fuel asked : ℕ) (wanted : List ℕ) (access : AccessMode)
      (b : SharedMemoryBlock) (handles : List SharedMemoryBlock) (w v : World K)
      → Tally n k handles w
      → shared_memory_block_open os context fuel wanted asked access w
        ≡ done ((IpmResult.success, some b), v)
      → b.header.object ≡ o
      → n + 2 < 2 ^ 32
      → Tally (suc n) k (b ∷ handles) v
  opened-Tally context n k fuel asked wanted access b handles w v t entered on small =
      let j = block_open-Joined os calm context fuel wanted asked access b v w entered in
      let now : v.headers b.header.object ≡ v.headers o = ap v.headers on in
      let before : w.headers b.header.object ≡ w.headers o = ap w.headers on in
      let next : b.access_id ≡ n + 2 = ground (arith, j.access_id, before, t.next_id) in
      record {
        refcount = ground (arith, j.header, now, before, t.refcount, t.few);
        next_id = ground (arith, j.header, now, before, t.next_id);
        same_id = ground (arith, j.header, now, before, t.same_id);
        same_name = ground (arith, j.header, now, before, t.same_name);
        few = omega (arith, t.few);
        falling = (
          omega (arith, next),
          on,
          j.free,
          Falling-mono o handles (omega (arith, next)) t.falling,
        );
        names = ground (
          arith,
          unlinked-block_open os context u wanted asked access b v fuel w entered,
          t.names,
          j.ready,
          before,
          t.refcount,
        );
      }

  pub closed-Tally :
      (callback : Option (M K (Unit {0}))) (context : Context K) (n k i : ℕ) (b : SharedMemoryBlock)
      (handles : List SharedMemoryBlock) (res : IpmResult) (w v : World K)
      → Kept context u.log
      → Quiet os u callback
      → Tally n k handles w
      → get_elem? handles i ≡ some b
      → shared_memory_block_close os context b callback w ≡ done (res, v)
      → n + 1 < 2 ^ 32
      → Tally n k (erase i handles) v
  closed-Tally callback context n k i b handles res w v kept quiet t at left small =
      let (below, on, free) = Falling-get i o (n + 2) handles b t.falling at in
      let (headers, names) =
        unlinked-block_close os context u kept calm b res v callback w quiet left in
      let fewer = length-erase i handles b at in
      let some_left = get_elem?-length handles i b at in
      let before : w.headers b.header.object ≡ w.headers o = ap w.headers on in
      let now : v.headers o
          ≡ record (w.headers o) { refcount = u32 ((w.headers o).refcount + 2 ^ 32 - 1) } =
        ground (arith, before, on, ap (λ (hs : ℕ → SharedMemoryHeader). hs o) headers) in
      record {
        refcount = ground (arith, now, fewer, some_left, t.refcount, t.few);
        next_id = ground (arith, now, t.next_id);
        same_id = ground (arith, now, t.same_id);
        same_name = ground (arith, now, t.same_name);
        few = omega (arith, fewer, t.few);
        falling = erase-Falling i o (n + 2) handles t.falling;
        names =
            ground
              (arith, names, t.names, before, t.refcount, t.same_id, t.same_name, fewer, some_left);
      }

  pub cleaned-Tally :
      (n k i : ℕ) (b : SharedMemoryBlock) (handles : List SharedMemoryBlock) (res : IpmResult)
      (w v : World K)
      → Tally n k handles w
      → get_elem? handles i ≡ some b
      → shared_memory_block_clean os b w ≡ done (res, v)
      → Tally n (suc k) (erase i handles) v
  cleaned-Tally n k i b handles res w v t at left =
      let (same, kept) = unlinked-block_clean os u b calm res v w left in
      let there = ap (λ (hs : ℕ → SharedMemoryHeader). hs o) same in
      let fewer = length-erase i handles b at in
      let some_left = get_elem?-length handles i b at in
      record {
        refcount = ground (arith, there, t.refcount, fewer, some_left);
        next_id = ground (arith, there, t.next_id);
        same_id = ground (arith, there, t.same_id);
        same_name = ground (arith, there, t.same_name);
        few = omega (arith, fewer, some_left, t.few);
        falling = erase-Falling i o (n + 2) handles t.falling;
        names = ground (arith, kept, t.names, fewer, some_left);
      }

  -- A handle that is mapped anew.
  pub remapped-Tally :
      (context : Context K) (kept : Kept context u.log) (n k i : ℕ) (b c : SharedMemoryBlock)
      (handles : List SharedMemoryBlock) (res : IpmResult) (w v : World K)
      → Tally n k handles w
      → get_elem? handles i ≡ some b
      → Unchanged os calm context u kept b res c v w
      → Tally n k (set handles i c) v
  remapped-Tally context kept n k i b c handles res w v t at r =
      let (below, on, free) = Falling-get i o (n + 2) handles b t.falling at in
      let now : v.headers b.header.object ≡ v.headers o = ap v.headers on in
      let before : w.headers b.header.object ≡ w.headers o = ap w.headers on in
      let same = length-set handles i c in
      record {
        refcount = ground (arith, r.header, now, before, t.refcount, same);
        next_id = ground (arith, r.header, now, before, t.next_id);
        same_id = ground (arith, r.header, now, before, t.same_id);
        same_name = ground (arith, r.header, now, before, t.same_name);
        few = omega (arith, same, t.few);
        falling = set-Falling i o (n + 2) handles b c t.falling at r.identity;
        names = ground (arith, r.names, t.names, same);
      }
