-- ===== src/Interrupts.antt =====
-- mi_so_completo/src/interrupts.c: the context switch of the timer, the system calls and the entry
-- into user mode.
pub mod Types
pub mod Gates
pub mod User
pub mod Context
pub mod Switch
pub mod Histories
pub mod Exhaustion
pub mod Syscall
pub mod Int80
