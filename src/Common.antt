-- ===== src/Common.antt =====
-- source/ipm_common.c: allocation and error reports through the user's callbacks. A callback knows
-- its parameter and may change `errno`, but not the library's shared memory. The place of a report
-- in the source (file, line, function) is left out.
pub mod Local
pub mod Kept
pub mod Unlinks
pub mod Mappings
pub mod Accounts
use Prim.Native.String.{len}
use ipm.Base.{ℕ, ◌+◌, String, List, [], ◌∷◌, Option, none, some, ◌==◌, if◌then◌else◌}
use ipm.System.{Errno, World, Arg, Posix}

-- `ipm_context`
pub record Context (K : Type 0) : Type 0 where
  pub report_callback : Option (String → K → Errno → K × Errno)
  pub alloc_callback : ℕ → K → Errno → Option ℕ × K × Errno
  pub free_callback : ℕ → K → Errno → K × Errno

module _ {K : Type 0} (os : Posix K) (context : Context K) where
  report_text : String → World K → World K
  report_text buffer w = elim context.report_callback [
    | none ↦ w
    | some report ↦
        let (k, e) = report buffer w.kernel w.errno in record w { kernel = k; errno = e }
  ]

  unfoldable pub ipm_alloc_real : ℕ → World K → Option ℕ × World K
  unfolding report_text
  ipm_alloc_real size w =
      let (ptr, k, e) = context.alloc_callback size w.kernel w.errno in
      let w1 = record w { kernel = k; errno = e } in
      elim ptr [
        | none ↦ (
          none,
          elim (os.vsnprintf "Could not allocate %zu bytes" (Arg.number size ∷ [])) [
            | none ↦ report_text "" w1
            | some buffer ↦ report_text buffer w1
          ],
        )
        | some p ↦ (some p, w1)
      ]

  unfoldable pub ipm_free : Option ℕ → World K → World K
  ipm_free none w = w
  ipm_free (some ptr) w =
      let (k, e) = context.free_callback ptr w.kernel w.errno in record w { kernel = k; errno = e }

  -- The formatted text goes into a buffer of its own, which is freed after the report.
  report_formatted : String → World K → World K
  unfolding report_text ipm_alloc_real ipm_free
  report_formatted msg w =
      let (buffer, w1) = ipm_alloc_real (len msg + 1) w in
      elim buffer [ none ↦ w1 | some ptr ↦ ipm_free (some ptr) (report_text msg w1) ]

  unfoldable pub ipm_report_error : String → List Arg → World K → World K
  unfolding report_formatted
  ipm_report_error msg args w = elim context.report_callback [
    | none ↦ w
    | some _ ↦ elim (os.vsnprintf msg args) [
      | none ↦ w
      | some formatted ↦ if len formatted == 0 then w else report_formatted formatted w
    ]
  ]
