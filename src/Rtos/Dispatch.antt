-- ===== src/Rtos/Dispatch.antt =====
-- The switch of `syscall` for the call number 222: which handler a command runs, on which words of
-- its parameter block, and what it answers. A long is 32 bits wide, as in the processes that the
-- library is loaded into. HWS_STUB is off; numbers other than 222 go to the host's kernel.
pub mod Outcome
pub mod Handlers
pub mod Switch
pub mod Deleted
pub mod Pipeline
