-- ===== src/Examples/Exclusive.antt =====
-- Two handles read the same bytes of a block whose claim list was just made (source/ipm_memory.c).
use ipm.Base.{ℕ, zero, suc, ◌≤◌, ◌≡◌, ◌⊎◌, refl, true, arith}
use ipm.Layout.{MemoryClaim, read_only}
use ipm.System.{World, world_after}
use ipm.Platform.{ipm_mutex_init, ipm_condition_init, ipm_mutex_lock, ipm_mutex_unlock}
use ipm.Claim.{claim_list_init, claim_add_to_list, claims_conflict}
use ipm.Memory.{IpmMemory}
use ipm.Memory.Region.{ipm_memory_claim_region}
use ipm.Memory.Region.Calls.{ApiCalls, start, call, claims}
use ipm.Memory.Region.Order.{InLive}
use ipm.Memory.Region.Exclusive.{writers_alone}
use ipm.Examples.{quiet, claim, two_claims, world_of, handle, block_at}

abbrev other_handle : IpmMemory (Unit {0})
other_handle = record handle { real_memory = record (block_at 1) { access_id = 11 } }

-- The list is made, the first handle claims the first bytes, and then so does the second.
abbrev made_list : World (Unit {0})
made_list = world_after (claim_list_init quiet 2 4 (world_of two_claims)) (world_of two_claims)

abbrev one_reader : World (Unit {0})
one_reader = world_after (ipm_memory_claim_region quiet 3 handle read_only 0 8 made_list) made_list

abbrev two_readers : World (Unit {0})
two_readers =
    world_after (ipm_memory_claim_region quiet 3 other_handle read_only 0 8 one_reader) one_reader

none_low : (c : MemoryClaim) → InLive (made_list.lists 2) c → c.offset ≤ 0
unfolding claim_list_init ipm_mutex_init ipm_condition_init
none_low c (i, e) = absurd (ground arith)

one_low : (c : MemoryClaim) → InLive (one_reader.lists 2) c → c.offset ≤ 0
unfolding claim_list_init ipm_mutex_init ipm_condition_init ipm_memory_claim_region ipm_mutex_lock
    ipm_mutex_unlock claim_add_to_list claims_conflict
one_low c (zero, e) = ground arith
one_low c (suc i, e) = absurd (ground arith)

both_read : ApiCalls quiet (λ c w s. refl) 2 made_list two_readers
unfolding claim_list_init ipm_mutex_init ipm_condition_init ipm_memory_claim_region ipm_mutex_lock
    ipm_mutex_unlock claim_add_to_list claims_conflict
both_read =
    call (call start (claims handle read_only 0 8 3 0 (69632, refl) (omega arith) none_low refl))
      (claims other_handle read_only 0 8 3 1 (69632, refl) (omega arith) one_low refl)

writers_alone_example : (◌≡◌ {A = ℕ} 10 11) ⊎ (true ≡ true)
unfolding claim_list_init ipm_mutex_init ipm_condition_init ipm_memory_claim_region ipm_mutex_lock
    ipm_mutex_unlock claim_add_to_list claims_conflict
writers_alone_example =
    writers_alone quiet (λ c w s. refl) 2 4 3 (world_of two_claims) made_list two_readers
      (claim 0 10 0 8) (claim 1 11 0 8) refl (omega arith) refl both_read (0, refl) (1, refl)
      (omega arith) (omega arith) (omega arith, omega arith) (omega arith, omega arith)
