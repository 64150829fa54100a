-- ===== src/Claim.antt =====
-- source/memory_claim.c: the claims on regions of a block, in an array that all processes share.
pub mod Conflict
pub mod Array
pub mod Valid
pub mod Add
pub mod Remove
pub mod Iterate
pub mod RoundTrip
pub mod Filled
pub mod Spec
pub mod Refines
use mathlib.Core.Option
use ipm.Base.{
  ℕ, zero, suc, ◌+◌, ◌-◌, ◌^◌, Bool, true, false, not, ◌&&◌, ◌||◌, List, [], ◌∷◌, ◌++◌, Option,
  none, some, ltb, leb, ◌==◌, if◌then◌else◌, length, take, drop, set, get_elem?,
}
use ipm.Error.{IpmResult}
use ipm.Layout.{AccessMode, read_only, read_write, MemoryClaim, ClaimList, u32, u64}
use ipm.System.{
  Mutex, World, Posix, M, pure, ◌>>=◌, ◌>>◌, run, read, modify, checked, assert, set_list,
}
use ipm.Platform.{
  ipm_mutex_init, ipm_mutex_lock, ipm_mutex_unlock, ipm_mutex_destroy, ipm_condition_init,
  ipm_condition_destroy,
}

abbrev pub is_read_only : AccessMode → Bool
is_read_only read_only = true
is_read_only read_write = false

abbrev pub same_access : AccessMode → AccessMode → Bool
same_access read_only read_only = true
same_access read_write read_write = true
same_access _ _ = false

abbrev pub is_success : IpmResult → Bool
is_success IpmResult.success = true
is_success _ = false

-- The end of a region, as the code computes it.
abbrev pub end_of : MemoryClaim → ℕ
end_of c = u64 (c.offset + c.size)

unfoldable pub claims_conflict : MemoryClaim → MemoryClaim → Bool
claims_conflict claim_1 claim_2 =
    if claim_1.proc_id == claim_2.proc_id
    then false
    else if is_read_only claim_1.access && is_read_only claim_2.access
    then false
    else if ltb claim_2.offset claim_1.offset
    then ltb claim_2.offset (end_of claim_1)
    else if ltb claim_1.offset claim_2.offset
    then ltb claim_1.offset (end_of claim_2)
    else true

unfoldable pub claim_encompasses_other : MemoryClaim → MemoryClaim → Bool
claim_encompasses_other claim_1 claim_2 =
    if not (claim_1.proc_id == claim_2.proc_id) || not (same_access claim_1.access claim_2.access)
    then false
    else leb claim_2.offset claim_1.offset && leb (end_of claim_2) (end_of claim_1)

-- `for (pos = 0; pos < n; ++pos) if (test(claims[pos])) break;`: the first hit below `n`, or `n`.
-- `none` is a read past the end of the array.
unfoldable pub scan : (MemoryClaim → Bool) → List MemoryClaim → ℕ → Option ℕ
scan test xs zero = some 0
scan test [] (suc n) = none
scan test (x ∷ xs) (suc n) =
    let rest = Option.map suc (scan test xs n) in if test x then some 0 else rest

-- `memmove` of `n` entries inside one array, from index `src` to index `dst`. `none` is a move that
-- leaves the array.
pub memmove : ℕ → ℕ → ℕ → List MemoryClaim → Option (List MemoryClaim)
memmove dst src n xs =
    if leb (dst + n) (length xs) && leb (src + n) (length xs)
    then some (take dst xs ++ (take n (drop src xs) ++ drop (dst + n) xs))
    else none

-- A write to one entry.
pub write : ℕ → MemoryClaim → List MemoryClaim → Option (List MemoryClaim)
write i c xs = if ltb i (length xs) then some (set xs i c) else none

-- "Shift other elements" of `claim_add_to_list`.
pub shift_up : ℕ → ℕ → List MemoryClaim → Option (List MemoryClaim)
unfolding memmove
shift_up pos count xs =
    if pos == count then some xs else memmove (pos + 1) pos (u64 (count + 2 ^ 64 - pos - 1)) xs

-- The array after the insertion of `claim_add_to_list`.
pub inserted : MemoryClaim → ℕ → List MemoryClaim → Option (List MemoryClaim)
unfolding scan shift_up write
inserted claim count xs = elim (scan (λ c. ltb claim.offset c.offset) xs count) [
  | none ↦ none
  | some pos ↦ elim (shift_up pos count xs) [ none ↦ none | some ys ↦ write pos claim ys ]
]

-- The result and the array of `claim_remove_from_list`, from its search on.
pub removed : ℕ → ℕ → List MemoryClaim → Option (IpmResult × List MemoryClaim)
unfolding scan memmove
removed claim_id count xs = elim (scan (λ c. claim_id == c.claim_id) xs count) [
  | none ↦ none
  | some pos ↦
      if ltb count pos
      then some (IpmResult.err_invalid_claim, xs)
      else if u32 (pos + 1) == count
      then some (IpmResult.success, xs)
      else Option.map (λ ys. (IpmResult.success, ys))
          (memmove pos (pos + 1) (u32 (count + 2 ^ 32 - pos - 2)) xs)
]

module _ {K : Type 0} (os : Posix K) where
  -- The caller holds the list's mutex, and this unlocks it where the list is full.
  unfoldable pub claim_add_to_list : MemoryClaim → ℕ → M K IpmResult
  unfolding inserted
  claim_add_to_list claim o = do
    list ← read (λ w. w.lists o)
    assert os (ltb list.count list.capacity)
    if leb list.capacity list.count
        then (do
          run (ipm_mutex_unlock os (Mutex.list_mutex o))
          pure IpmResult.err_list_size_mismatch)
        else (do
          claims ← checked (inserted claim list.count list.claims)
          modify (set_list o (record list { claims = claims; count = u64 (list.count + 1) }))
          assert os (ltb list.count list.capacity)
          pure IpmResult.success)

  unfoldable pub claim_remove_from_list : ℕ → ℕ → M K IpmResult
  unfolding removed
  claim_remove_from_list claim_id o = do
    list ← read (λ w. w.lists o)
    let less = record list { count = u64 (list.count + 2 ^ 64 - 1) }
    modify (set_list o less)
    let count = u32 list.count
    assert os (ltb count list.capacity && ltb 0 count)
    if count == 0 then pure IpmResult.err_invalid_claim else (do
      (res, claims) ← checked (removed claim_id count list.claims)
      modify (set_list o (record less { claims = claims }))
      pure res)

  -- The loop of `claims_iterate`: `n` rounds from index `i` on, and whether the callback stopped it.
  unfoldable pub visit : ℕ → (MemoryClaim → World K → Bool × World K) → ℕ → ℕ → M K Bool
  visit o callback zero i = pure false
  visit o callback (suc n) i = do
    list ← read (λ w. w.lists o)
    claim ← checked (get_elem? list.claims i)
    stop ← run (callback claim)
    let rest = visit o callback n (i + 1)
    if stop then pure true else rest

  unfoldable pub claims_iterate : ℕ → (MemoryClaim → World K → Bool × World K) → M K IpmResult
  claims_iterate o callback = do
    list ← read (λ w. w.lists o)
    let count = u32 list.count
    assert os (leb count list.capacity)
    if not (count == list.count)
        then pure IpmResult.err_list_size_mismatch
        else if count == list.capacity
        then pure IpmResult.success
        else (do
          wait_res ← run (ipm_mutex_lock os (Mutex.list_mutex o))
          if not (is_success wait_res) then pure wait_res else (do
            stopped ← visit o callback count 0
            if stopped
                then pure IpmResult.interrupted
                else (do run (ipm_mutex_unlock os (Mutex.list_mutex o)); pure IpmResult.success)))

  unfoldable pub claim_list_init : ℕ → ℕ → M K IpmResult
  claim_list_init o capacity = do
    res ← run (ipm_mutex_init os (Mutex.list_mutex o))
    if not (is_success res) then pure res else (do
      res' ← run (ipm_condition_init os o)
      if not (is_success res') then pure res' else (do
        list ← read (λ w. w.lists o)
        modify (set_list o (record list { capacity = capacity; count = 0; claim_counter = 0 }))
        pure res'))

  unfoldable pub claim_list_uninit : ℕ → M K (Unit {0})
  claim_list_uninit o = do
    run (ipm_mutex_destroy os (Mutex.list_mutex o))
    run (ipm_condition_destroy os o)
    pure tt
