-- ===== src/Memory/Lifetime/Balance.antt =====
-- What the error paths of `ipm_memory_create` and `ipm_memory_open` hold and give back.
use ipm.Base.{ℕ, Bool, String, ◌+◌, ◌≡◌, ◌&&◌, not, true, List, ◌∷◌, Option, none, some, arith}
use ipm.Error.{IpmResult}
use ipm.Layout.{SharedMemoryBlock}
use ipm.System.{Mutex, Arg, World, Posix, done, M, ◌>>=◌, pure}
use ipm.System.Inversion.{bind-Stepped}
use ipm.Platform.{ipm_mutex_init, ipm_mutex_destroy}
use ipm.Platform.Still.{
  mutex_init_still, condition_init_still, mutex_destroy_still, condition_destroy_still,
}
use ipm.Common.{Context, ipm_report_error}
use ipm.Common.Accounts.{Held, held, if_some, Accounts, now, calls_still, report_held, free_held}
use ipm.Claim.{is_success, claim_list_init, claim_list_uninit}
use ipm.SharedMemory.Mapping.{is_mapped}
use ipm.SharedMemory.Create.Balance.{with_block}
use ipm.SharedMemory.Close.{shared_memory_block_close}
use ipm.SharedMemory.Close.Balance.{block_close_held}
use ipm.Memory.{IpmMemory, reason, pointed}
use ipm.Memory.Lifetime.{free_handle, give_up, undo_block, undo_list}

-- A handle holds two blocks.
abbrev pub with_handle : Held → Held
with_handle h = held (h.fds + 2) (h.maps + 4)

-- The handle knows where its memory and its claims are, and has taken neither block for itself.
abbrev pub is_whole : {K : Type 0} → IpmMemory K → Bool
is_whole m =
    (is_mapped m.real_memory.memory && is_mapped m.active_claims.memory)
    && (not m.real_memory.has_ownership && not m.active_claims.has_ownership)

-- A handle comes with success only, and is whole.
abbrev pub knows_both : {K : Type 0} → IpmResult → Option (IpmMemory K) → Bool
knows_both res none = true
knows_both res (some m) = is_success res && is_whole m

module _ {K : Type 0} (os : Posix K) (context : Context K) (a : Accounts os context) where
  pub list_init_held :
      (o capacity : ℕ) (res : IpmResult) (w u : World K)
      → claim_list_init os o capacity w ≡ done (res, u)
      → now os context a u ≡ now os context a w
  unfolding claim_list_init
  list_init_held o capacity res w u e =
      let v = (ipm_mutex_init os (Mutex.list_mutex o) w).1 in
      ground (
        arith,
        mutex_init_still os (now os context a) (calls_still os context a) (Mutex.list_mutex o) w,
        condition_init_still os (now os context a) (calls_still os context a) o v,
      )

  pub list_uninit_held :
      (o : ℕ) (w u : World K)
      → claim_list_uninit os o w ≡ done (tt, u)
      → now os context a u ≡ now os context a w
  unfolding claim_list_uninit
  list_uninit_held o w u e =
      let v = (ipm_mutex_destroy os (Mutex.list_mutex o) w).1 in
      ground (
        arith,
        mutex_destroy_still os (now os context a) (calls_still os context a) (Mutex.list_mutex o) w,
        condition_destroy_still os (now os context a) (calls_still os context a) o v,
      )

  pub undo_block_held :
      (block : SharedMemoryBlock) (h : Held) (w u : World K)
      → is_mapped block.memory ≡ true
      → now os context a w ≡ with_block h
      → undo_block os context block w ≡ done (tt, u)
      → now os context a u ≡ h
  undo_block_held block h w u known start e =
      let s = bind-Stepped (shared_memory_block_close os context block none) _ w (tt, u) e in
      ground (
        arith,
        start,
        known,
        s.rest,
        block_close_held os context a block none s.value w s.between tt s.first,
      )

  pub undo_list_held :
      (claims : SharedMemoryBlock) (h : Held) (w u : World K)
      → is_mapped claims.memory ≡ true
      → now os context a w ≡ with_block h
      → undo_list os context claims w ≡ done (tt, u)
      → now os context a u ≡ h
  undo_list_held claims h w u known start e =
      let p = bind-Stepped (pointed claims.memory) _ w (tt, u) e in
      let s = bind-Stepped (claim_list_uninit os p.value) _ p.between (tt, u) p.rest in
      let same = list_uninit_held p.value p.between s.between (ground (arith, s.first)) in
      undo_block_held claims h s.between u known (ground (arith, start, p.first, same)) s.rest

  module _ (this : ℕ) (name : List ℕ) (res : IpmResult) (made : Option (IpmMemory K))
      (last : World K) (h : Held) where
    abbrev pub Balanced : Type 0
    Balanced = (now os context a last ≡ if_some made with_handle h) × (knows_both res made ≡ true)

    pub give_up-Balanced :
        (msg : String) (undo : M K (Unit {0})) (failure : IpmResult) (g : Held) (w : World K)
        → ((v u : World K)
            → now os context a v ≡ g
            → undo v ≡ done (tt, u)
            → now os context a u ≡ h)
        → now os context a w ≡ g
        → give_up os context this name msg undo failure w ≡ done ((res, made), last)
        → Balanced
    unfolding give_up
    give_up-Balanced msg undo failure g w undoes start e =
        let args = Arg.bytes name ∷ reason failure in
        let reported = ipm_report_error os context msg args w in
        let s =
          bind-Stepped undo
            (λ (_ : Unit {0}).
              free_handle os context this >>= λ (_ : Unit {0}). pure (failure, none))
            reported ((res, made), last) e in
        let told = report_held os context a msg args w in
        let undone =
          undoes reported s.between (ground (arith, told, start)) (ground (arith, s.first)) in
        (
          ground (arith, s.rest, undone, free_held os context a (some this) s.between),
          ground (arith, s.rest),
        )
