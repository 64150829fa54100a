-- ===== src/Memory/Lifetime/Entering.antt =====
-- `ipm_memory_open` returns, and what it holds then (source/ipm_memory.c).
use ipm.Common.Accounts.{Accounts}
