-- ===== src/Common/Kept.antt =====
-- What the callbacks keep, an allocation and an error report keep (source/ipm_common.c).
use Prim.Native.String.{len}
use ipm.Base.{
  [], ◌∷◌, inl, inr, Option-cases, ℕ, ◌+◌, ◌≡◌, String, List, Option, none, some, arith, refl,
}
use ipm.System.{Errno, Arg, World, Posix}
use ipm.Common.{Context, report_text, ipm_alloc_real, ipm_free, report_formatted, ipm_report_error}

-- The callbacks keep a value of the kernel's state.
pub record Kept {K B : Type 0} (context : Context K) (f : K → B) : Type 0 where
  pub reports :
      (report : String → K → Errno → K × Errno) (msg : String) (k : K) (e : Errno)
      → context.report_callback ≡ some report
      → f (report msg k e).0 ≡ f k
  pub allocates : (size : ℕ) (k : K) (e : Errno) → f (context.alloc_callback size k e).1 ≡ f k
  pub frees : (p : ℕ) (k : K) (e : Errno) → f (context.free_callback p k e).0 ≡ f k

module _ {K B : Type 0} (os : Posix K) (context : Context K) (f : K → B)
    (kept : Kept context f) where
  text_kept : (msg : String) (w : World K) → f (report_text os context msg w).kernel ≡ f w.kernel
  unfolding report_text
  text_kept msg w = split context.report_callback refl
    where
      split :
          (r : Option (String → K → Errno → K × Errno))
          → context.report_callback ≡ r
          → f (report_text os context msg w).kernel ≡ f w.kernel
      split none e = ground (arith, e)
      split (some report) e = ground (arith, e, kept.reports report msg w.kernel w.errno e)

  pub alloc_kept :
      (size : ℕ) (w : World K) → f (ipm_alloc_real os context size w).1.kernel ≡ f w.kernel
  unfolding ipm_alloc_real
  alloc_kept size w =
      let (ptr, k, e) = context.alloc_callback size w.kernel w.errno in
      let w1 : World K = record w { kernel = k; errno = e } in
      let same = kept.allocates size w.kernel w.errno in
      elim (Option-cases (os.vsnprintf "Could not allocate %zu bytes" (Arg.number size ∷ []))) [
        | inl failed ↦ ground (arith, same, failed, text_kept "" w1)
        | inr (buffer, printed) ↦ ground (arith, same, printed, text_kept buffer w1)
      ]

  pub free_kept : (p : Option ℕ) (w : World K) → f (ipm_free os context p w).kernel ≡ f w.kernel
  unfolding ipm_free
  free_kept none w = refl
  free_kept (some p) w = ground (arith, kept.frees p w.kernel w.errno)

  formatted_kept :
      (msg : String) (w : World K) → f (report_formatted os context msg w).kernel ≡ f w.kernel
  unfolding report_formatted
  formatted_kept msg w =
      let w1 = (ipm_alloc_real os context (len msg + 1) w).1 in
      let w2 = report_text os context msg w1 in
      ground (
        arith,
        alloc_kept (len msg + 1) w,
        text_kept msg w1,
        free_kept (ipm_alloc_real os context (len msg + 1) w).0 w2,
      )

  pub report_kept :
      (msg : String) (args : List Arg) (w : World K)
      → f (ipm_report_error os context msg args w).kernel ≡ f w.kernel
  unfolding ipm_report_error
  report_kept msg args w = elim (Option-cases (os.vsnprintf msg args)) [
    | inl failed ↦ ground (arith, failed)
    | inr (formatted, printed) ↦ ground (arith, printed, formatted_kept formatted w)
  ]
