-- ===== src/Interrupts/Syscall/Memory.antt =====
-- user_ptr_ok of interrupts.c and the memory of the process that makes a system call.
use sistema_operativo.Prelude.{ℕ, ◌+◌, ◌≤◌, ◌<◌, ◌≡◌, ◌↔◌, true, arith, uint_mod}
use sistema_operativo.Process.Types.{Process, Procs}
use sistema_operativo.Interrupts.Syscall.{user_ptr_ok, current}

-- The `len` bytes from `addr` on, and the first one in any case, lie in the memory of `p`.
abbrev pub LiesIn : ℕ → ℕ → Process → Type 0
LiesIn addr len p =
    (p.memory_start ≤ addr)
    × (addr < p.memory_start + p.memory_size)
    × (addr + len ≤ p.memory_start + p.memory_size)

-- Where the memory of the current process ends below 2 ^ 32, user_ptr_ok accepts exactly the ranges
-- that lie in it, also those whose end would wrap round.
pub user_ptr_ok_iff :
    (addr len : ℕ) (s : Procs)
    → addr < uint_mod
    → len < uint_mod
    → (current s).memory_start + (current s).memory_size < uint_mod
    → (user_ptr_ok addr len s ≡ true) ↔ LiesIn addr len (current s)
unfolding user_ptr_ok
user_ptr_ok_iff addr len s a b c = ground arith
