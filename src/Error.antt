-- ===== src/Error.antt =====
-- include/ipm/ipm_error.h and source/ipm_error.c: the result codes, and their two texts.
pub mod Texts
use ipm.Base.{ℕ, String, List, [], ◌∷◌, none, some, leb, if◌then◌else◌, get_elem?}

-- `ipm_result`. A constructor drops the prefix `IPM_RESULT_`.
pub data IpmResult : Type 0 where
  success err_access err_exists err_bad_value err_max_fds err_name_too_long err_max_fds_sys :
      IpmResult
  err_invalid_fd err_bad_fs err_os_out_of_memory err_os_unexpected err_bad_id err_bad_size :
      IpmResult
  err_no_sem err_no_sem_wait err_already_locked err_not_locked err_list_size_mismatch : IpmResult
  err_invalid_claim err_bad_init err_deadlock interrupted err_bad_access err_does_not_exist :
      IpmResult

-- The value that the enumeration gives a constant, and `IPM_RESULT_COUNT`.
abbrev pub code : IpmResult → ℕ
code success = 0
code err_access = 1
code err_exists = 2
code err_bad_value = 3
code err_max_fds = 4
code err_name_too_long = 5
code err_max_fds_sys = 6
code err_invalid_fd = 7
code err_bad_fs = 8
code err_os_out_of_memory = 9
code err_os_unexpected = 10
code err_bad_id = 11
code err_bad_size = 12
code err_no_sem = 13
code err_no_sem_wait = 14
code err_already_locked = 15
code err_not_locked = 16
code err_list_size_mismatch = 17
code err_invalid_claim = 18
code err_bad_init = 19
code err_deadlock = 20
code interrupted = 21
code err_bad_access = 22
code err_does_not_exist = 23

abbrev pub result_count : ℕ
result_count = 24

-- One entry of `RESULT_INFO`.
pub record ResultInfo : Type 0 where
  pub str : String
  pub msg : String

pub result_info : IpmResult → ResultInfo
result_info success = record { str = "IPM_RESULT_SUCCESS"; msg = "Success" }
result_info err_access = record {
  str = "IPM_RESULT_ERR_ACCESS";
  msg = "Don't have sufficient permissions";
}
result_info err_exists = record {
  str = "IPM_RESULT_ERR_EXISTS";
  msg = "Memory object already exists";
}
result_info err_bad_value = record {
  str = "IPM_RESULT_ERR_BAD_VALUE";
  msg = "Parameter had an invalid value";
}
result_info err_max_fds = record {
  str = "IPM_RESULT_ERR_MAX_FDS";
  msg = "Process has maximum number of FDs";
}
result_info err_name_too_long = record {
  str = "IPM_RESULT_ERR_NAME_TOO_LONG";
  msg = "Name of memory object was greater than PATH_MAX";
}
result_info err_max_fds_sys = record {
  str = "IPM_RESULT_ERR_MAX_FDS_SYS";
  msg = "System has maximum number of FDs";
}
result_info err_invalid_fd = record {
  str = "IPM_RESULT_ERR_INVALID_FD";
  msg = "Invalid FD was passed to a function";
}
result_info err_bad_fs = record {
  str = "IPM_RESULT_ERR_BAD_FS";
  msg = "Operation not allowed by the filesystem";
}
result_info err_os_out_of_memory = record {
  str = "IPM_RESULT_ERR_OS_OUT_OF_MEMORY";
  msg = "Operating system ran out of memory";
}
result_info err_os_unexpected = record {
  str = "IPM_RESULT_ERR_OS_UNEXPECTED";
  msg = "OS error occurred, but type was not expected";
}
result_info err_bad_id = record {
  str = "IPM_RESULT_ERR_BAD_ID";
  msg = "ID did not match real block ID";
}
result_info err_bad_size = record {
  str = "IPM_RESULT_ERR_BAD_SIZE";
  msg = "Size did not match real block size";
}
result_info err_no_sem = record {
  str = "IPM_RESULT_ERR_NO_SEM";
  msg = "Could not create synchronization semaphore";
}
result_info err_no_sem_wait = record {
  str = "IPM_RESULT_ERR_NO_SEM_WAIT";
  msg = "Waiting on semaphore failed";
}
result_info err_already_locked = record {
  str = "IPM_RESULT_ERR_ALREADY_LOCKED";
  msg = "Lock was already acquired";
}
result_info err_not_locked = record {
  str = "IPM_RESULT_ERR_NOT_LOCKED";
  msg = "Lock was not acquired";
}
result_info err_list_size_mismatch = record {
  str = "IPM_RESULT_ERR_LIST_SIZE_MISMATCH";
  msg = "Length of the list does not match between semaphores and internal data";
}
result_info err_invalid_claim = record {
  str = "IPM_RESULT_ERR_INVALID_CLAIM";
  msg = "Claim does not exist";
}
result_info err_bad_init = record {
  str = "IPM_RESULT_ERR_BAD_INIT";
  msg = "Initialization was done in an incorrect way";
}
result_info err_deadlock = record {
  str = "IPM_RESULT_ERR_DEADLOCK";
  msg = "Locking would cause a deadlock";
}
result_info interrupted = record {
  str = "IPM_RESULT_INTERRUPTED";
  msg = "Function was interrupted by user";
}
result_info err_bad_access = record {
  str = "IPM_RESULT_ERR_BAD_ACCESS";
  msg = "Desire access is incompatible with the memory block";
}
result_info err_does_not_exist = record {
  str = "IPM_RESULT_ERR_DOES_NOT_EXIST";
  msg = "Memory block does not exist";
}

-- The constants in the order of their values, to index the table by a number.
abbrev constants : List IpmResult
constants =
    success ∷ err_access ∷ err_exists ∷ err_bad_value ∷ err_max_fds ∷ err_name_too_long
    ∷ err_max_fds_sys ∷ err_invalid_fd ∷ err_bad_fs ∷ err_os_out_of_memory ∷ err_os_unexpected
    ∷ err_bad_id ∷ err_bad_size ∷ err_no_sem ∷ err_no_sem_wait ∷ err_already_locked ∷ err_not_locked
    ∷ err_list_size_mismatch ∷ err_invalid_claim ∷ err_bad_init ∷ err_deadlock ∷ interrupted
    ∷ err_bad_access ∷ err_does_not_exist ∷ []

-- The type `ipm_result` holds unsigned values, so the test `res < IPM_RESULT_SUCCESS` never passes.
pub ipm_result_to_str : ℕ → String
unfolding result_info
ipm_result_to_str res =
    if leb result_count res
    then "Unknown"
    else elim (get_elem? constants res) [ none ↦ "Unknown" | some r ↦ (result_info r).str ]

pub ipm_result_to_msg : ℕ → String
unfolding result_info
ipm_result_to_msg res =
    if leb result_count res
    then "Unknown"
    else elim (get_elem? constants res) [ none ↦ "Unknown" | some r ↦ (result_info r).msg ]
