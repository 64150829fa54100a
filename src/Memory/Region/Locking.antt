-- ===== src/Memory/Region/Locking.antt =====
-- What mutexes the calls of Guarded.antt hold when they return (source/ipm_memory.c).
pub mod Claiming
pub mod Releasing
use ipm.Base.{◌≡◌, ◌≢◌, ◌∙◌, ap, String, List, ◌∷◌, arith, ℕ}
use ipm.Error.{IpmResult}
use ipm.System.{Errno, Mutex, World, Posix, done, M}
use ipm.Platform.{ipm_mutex_lock}
use ipm.Platform.Locking.{Locks, holds, holds-ipm_mutex_lock}
use ipm.Common.Kept.{Kept, report_kept}
use ipm.Memory.{IpmMemory, reason}
use ipm.Memory.Region.Guarded.{guarded, guarded-Course, entered, refused}

module _ {K : Type 0} (os : Posix K) (l : Locks os) (memory : IpmMemory K)
    (kept : Kept memory.ctx l.owned) where
  pub holds-guarded :
      {A : Type 0} (msg : String) (fail : IpmResult → A) (body : ℕ → IpmResult → M K A) (r : A)
      (w u : World K)
      → w.errno ≢ Errno.eownerdead
      → guarded os memory msg fail body w ≡ done (r, u)
      → ((o : ℕ) (res : IpmResult) (v : World K)
          → holds os l v ≡ Mutex.list_mutex o ∷ holds os l w
          → body o res v ≡ done (r, u)
          → holds os l u ≡ holds os l w)
      → holds os l u ≡ holds os l w
  holds-guarded msg fail body r w u fresh e granted =
      elim (guarded-Course os memory msg fail body r w u e) [
        | refused p mapped bad same at ↦
            let out = ipm_mutex_lock os (Mutex.list_mutex p.object) w in
            let now = holds-ipm_mutex_lock os l (Mutex.list_mutex p.object) w fresh in
            ap (holds os l) at
            ∙ report_kept os memory.ctx l.owned kept msg (reason out.0) out.1
            ∙ ground (arith, bad, now)
        | entered p mapped good rest ↦
            let out = ipm_mutex_lock os (Mutex.list_mutex p.object) w in
            let now = holds-ipm_mutex_lock os l (Mutex.list_mutex p.object) w fresh in
            granted p.object out.0 out.1 (ground (arith, good, now)) rest
      ]
