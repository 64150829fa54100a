-- ===== src/Lib.antt =====
-- A model of ipm, a C library of named shared memory blocks that several processes open, with
-- claims by which they agree who reads and writes which region.
--
-- The program's parts, from the bottom up, and the files that model them:
--
-- - include/ipm/ipm_error.h, source/ipm_error.c: Error.antt. `IpmResult` is the enumeration, and
--   `ipm_result_to_str` and `ipm_result_to_msg` take any number, as the C functions do.
-- - include/ipm/ipm_common.h, source/memory_claim.h, source/shared_memory.h: Layout.antt, the
--   structures that lie in shared memory or in a process. Sizes and ids are numbers; what the code
--   computes in 64 or 32 bits is reduced by `u64` and `u32`.
-- - source/ipm_platform.c: Platform.antt, the wrappers of semaphores, mutexes and condition
--   variables, on the C library's calls of System.antt.
-- - source/ipm_common.c: Common.antt, allocation and error reports through the user's callbacks.
-- - source/memory_claim.c: Claim.antt and its children. `claim_add_to_list` and
--   `claim_remove_from_list` work on the array of claims, kept in order of the offset; `inserted`
--   and `removed` are what they do to the array, memmove by memmove.
-- - source/shared_memory.c: SharedMemory.antt with Create, Open, Close and Mapping. A block is one
--   shared object: a page with a header, then the user's pages. Census.antt is the life of one
--   object, as a relation of steps: it is created, and then opened, resized, closed and so on.
-- - source/ipm_memory.c: Memory.antt with Lifetime, Handle and Region. A handle joins two blocks:
--   the user's memory, and the one that holds the claim list.
--
-- The state. `World` has the state behind the operating system and the callbacks, `errno`, and the
-- contents of each shared object: its header, and the claim list of one that holds claims. Two
-- handles on one object see the same header and list, because a `Ptr` names the object that it
-- points into. The calls of the C library are the fields of `Posix`, a parameter: each takes the
-- world and returns it changed, so that other processes may run, and change the shared memory,
-- inside any of them. A function of the code is a function of the same name that takes the world
-- and ends in an `Outcome`: it returns, an assert stops it, it leaves an array or dereferences
-- NULL, or it still waits. An output parameter is part of the result.
--
-- What is said of the claim list as a plain list is in Claim/Spec.antt. What a process holds is read
-- off the calls that it makes. Common/Accounts.antt counts its descriptors and its mappings, under
-- what the documentation says that each call takes or gives back; the files called Balance, and those
-- under Memory/Lifetime, follow every path of the code. No error of `close` or `munmap` is in that
-- count, nor the length of a mapping: Common/Mappings.antt has the mappings with their lengths, under
-- which `munmap` says nothing of any other length, and SharedMemory/Close/Unmapping.antt,
-- Memory/Lifetime/Mapped.antt and Memory/Lifetime/Unmapping.antt follow a creation and a close.
-- Common/Unlinks.antt is a record of the names that `shm_unlink` is called with, and
-- Platform/Locking.antt of the mutexes that a thread holds, which the files called Locking follow;
-- Platform/Waking.antt is a record of the signals of condition variables.
--
-- Fuel. Four loops of the code may not end: the wait of `ipm_memory_claim_region` for its turn, the
-- wait of `shared_memory_block_open` for a creator, and the loops of `ipm_memory_release_all` and
-- `ipm_memory_remove_all_active_claims`, which go on as long as a removal fails. Each has fuel, a
-- unit to a round, and is `blocked` without it. More fuel than waits, or than claims, is enough.
--
-- Not modelled: the place of an error report in the source; the final 0 of names; the process that
-- another process kills; reads of an array's slots that other processes change between two
-- instructions; the bytes of the user's memory, which the library never touches; the tests.
pub mod Base
pub mod Error
pub mod Layout
pub mod System
pub mod Platform
pub mod Claim
pub mod Common
pub mod SharedMemory
pub mod Memory
mod Examples
