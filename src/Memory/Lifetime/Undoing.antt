-- ===== src/Memory/Lifetime/Undoing.antt =====
-- What `ipm_memory_create` and `ipm_memory_open` undo when a step fails, and that this returns
-- (source/ipm_memory.c).
use ipm.Base.{ℕ, String, ◌≡◌, inl, inr, true, false, List, ◌∷◌, none, arith, Option-cases, refl}
use ipm.Error.{IpmResult}
use ipm.Layout.{SharedMemoryBlock}
use ipm.System.{Mutex, Arg, World, Posix, M, pure}
use ipm.System.Returns.{returns, returns-bind}
use ipm.Platform.{ipm_mutex_destroy, ipm_condition_destroy}
use ipm.Common.{Context, ipm_report_error}
use ipm.Claim.{claim_list_uninit}
use ipm.SharedMemory.Mapping.{is_mapped}
use ipm.SharedMemory.Close.{shared_memory_block_close}
use ipm.SharedMemory.Close.Returning.{close_returns}
use ipm.Memory.{reason}
use ipm.Memory.Lifetime.{give_up, undo_block, undo_list}

module _ {K : Type 0} (os : Posix K) (context : Context K) where
  pub undo_block_returns :
      (block : SharedMemoryBlock) (w : World K)
      → block.has_ownership ≡ false
      → returns (undo_block os context block w) ≡ true
  undo_block_returns block w free =
      returns-bind (shared_memory_block_close os context block none) (λ _. pure tt) w
        (close_returns os block context none w tt free) (λ r v e. refl)

  pub undo_list_returns :
      (claims : SharedMemoryBlock) (w : World K)
      → is_mapped claims.memory ≡ true
      → claims.has_ownership ≡ false
      → returns (undo_list os context claims w) ≡ true
  unfolding claim_list_uninit
  undo_list_returns claims w known free = elim (Option-cases claims.memory) [
    | inl missing ↦ absurd (ground (arith, known, missing))
    | inr (p, at) ↦
        let v = (ipm_mutex_destroy os (Mutex.list_mutex p.object) w).1 in
        let u = (ipm_condition_destroy os p.object v).1 in
        ground (arith, at, undo_block_returns claims u free)
  ]

  pub give_up_returns :
      (this : ℕ) (name : List ℕ) (msg : String) (undo : M K (Unit {0})) (failure : IpmResult)
      (w : World K)
      → ((v : World K) → returns (undo v) ≡ true)
      → returns (give_up os context this name msg undo failure w) ≡ true
  unfolding give_up
  give_up_returns this name msg undo failure w undoes =
      let reported = ipm_report_error os context msg (Arg.bytes name ∷ reason failure) w in
      returns-bind undo _ reported (undoes reported) (λ r v e. refl)
