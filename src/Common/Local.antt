-- ===== src/Common/Local.antt =====
-- A report leaves the shared memory alone (source/ipm_common.c).
use ipm.Base.{◌≡◌, String, List, arith}
use ipm.System.{World, Arg, Posix}
use ipm.Common.{Context, ipm_report_error, report_formatted}

module _ {K : Type 0} (os : Posix K) (context : Context K) where
  formatted_local :
      (msg : String) (w : World K)
      → ((report_formatted os context msg w).lists ≡ w.lists)
        × ((report_formatted os context msg w).headers ≡ w.headers)
  unfolding report_formatted
  formatted_local msg w = (ground arith, ground arith)

  pub report_local :
      (msg : String) (args : List Arg) (w : World K)
      → ((ipm_report_error os context msg args w).lists ≡ w.lists)
        × ((ipm_report_error os context msg args w).headers ≡ w.headers)
  unfolding ipm_report_error
  report_local msg args w = ground arith
