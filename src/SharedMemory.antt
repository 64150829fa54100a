-- ===== src/SharedMemory.antt =====
-- source/shared_memory.c: blocks of shared memory, each a header page and the pages behind it.
pub mod Create
pub mod Open
pub mod Mapping
pub mod Close
pub mod Names
pub mod Sharing
pub mod Census
use ipm.Base.{
  ℕ, zero, suc, ◌+◌, ◌-◌, ◌/◌, ◌%◌, List, [], ◌∷◌, ◌++◌, ltb, ◌==◌, if◌then◌else◌, length, take,
  replicate, String, Option, none,
}
use ipm.Error.{IpmResult}
use ipm.Layout.{max_name_len, SharedMemoryBlock}
use ipm.System.{Errno, Call, Arg, World, Posix, M, done}
use ipm.Platform.{ignoring}
use ipm.Common.{Context, ipm_report_error}

-- The digits of `%X`, the highest first; sixteen are enough for 64 bits.
hex_digit : ℕ → ℕ
hex_digit d = if ltb d 10 then b'0' + d else b'A' + (d - 10)

pub hex_digits : ℕ → ℕ → List ℕ → List ℕ
unfolding hex_digit
hex_digits zero n rest = rest
hex_digits (suc fuel) n rest =
    let more = hex_digits fuel (n / 16) (hex_digit (n % 16) ∷ rest) in if n == 0 then rest else more

-- `%#016lX`: sixteen places, "0X" among them, but no prefix to a zero.
pub format_id : ℕ → List ℕ
unfolding hex_digits
format_id id =
    let digits = hex_digits 16 id [] in
    if id == 0
    then replicate 16 b'0'
    else b'0' ∷ b'X' ∷ (replicate (14 - length digits) b'0' ++ digits)

-- "/%.*s-%#016lX". The buffer has room for the longest name.
unfoldable pub make_block_name_based_on_id : List ℕ → ℕ → List ℕ
unfolding format_id
make_block_name_based_on_id block_name id =
    b'/' ∷ (take max_name_len block_name ++ (b'-' ∷ format_id id))

-- The switches on `errno`.
pub create_failure : Errno → IpmResult
create_failure Errno.eacces = IpmResult.err_access
create_failure Errno.einval = IpmResult.err_bad_value
create_failure Errno.emfile = IpmResult.err_max_fds
create_failure Errno.enfile = IpmResult.err_max_fds_sys
create_failure Errno.enametoolong = IpmResult.err_name_too_long
create_failure _ = IpmResult.err_os_unexpected

pub open_failure : Errno → IpmResult
open_failure Errno.eacces = IpmResult.err_access
open_failure Errno.einval = IpmResult.err_bad_value
open_failure Errno.emfile = IpmResult.err_max_fds
open_failure Errno.enfile = IpmResult.err_max_fds_sys
open_failure Errno.enametoolong = IpmResult.err_name_too_long
open_failure Errno.enoent = IpmResult.err_does_not_exist
open_failure _ = IpmResult.err_os_unexpected

pub create_truncate_failure : Errno → IpmResult
create_truncate_failure Errno.eacces = IpmResult.err_access
create_truncate_failure Errno.ebadf = IpmResult.err_invalid_fd
create_truncate_failure Errno.einval = IpmResult.err_invalid_fd
create_truncate_failure Errno.eperm = IpmResult.err_bad_fs
create_truncate_failure Errno.erofs = IpmResult.err_bad_fs
create_truncate_failure _ = IpmResult.err_os_unexpected

pub mmap_failure : Errno → IpmResult
mmap_failure Errno.eacces = IpmResult.err_access
mmap_failure Errno.eagain = IpmResult.err_os_out_of_memory
mmap_failure Errno.enomem = IpmResult.err_os_out_of_memory
mmap_failure Errno.einval = IpmResult.err_bad_value
mmap_failure Errno.enfile = IpmResult.err_max_fds_sys
mmap_failure _ = IpmResult.err_os_unexpected

pub unlink_failure : Errno → IpmResult
unlink_failure Errno.eacces = IpmResult.err_access
unlink_failure _ = IpmResult.err_os_unexpected

pub resize_truncate_failure : Errno → IpmResult
resize_truncate_failure Errno.eacces = IpmResult.err_access
resize_truncate_failure Errno.efbig = IpmResult.err_os_out_of_memory
resize_truncate_failure Errno.einval = IpmResult.err_os_out_of_memory
resize_truncate_failure Errno.eperm = IpmResult.err_bad_fs
resize_truncate_failure Errno.erofs = IpmResult.err_bad_fs
resize_truncate_failure Errno.ebadf = IpmResult.err_bad_value
resize_truncate_failure _ = IpmResult.err_os_unexpected

module _ {K : Type 0} (os : Posix K) where
  -- A report whose last argument is the reason, by `errno`.
  abbrev pub report_errno : Context K → String → List Arg → M K (Unit {0})
  report_errno context msg args w =
      done (tt, ipm_report_error os context msg (args ++ (Arg.text (os.strerror w.errno) ∷ [])) w)

  abbrev pub do_call : Call → M K (Unit {0})
  do_call c w = done (tt, ignoring os c w)

-- The result by a switch on `errno`, with no block.
abbrev pub fail_by : {K : Type 0} → (Errno → IpmResult) → M K (IpmResult × Option SharedMemoryBlock)
fail_by failure w = done ((failure w.errno, none), w)
