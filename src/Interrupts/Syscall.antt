-- ===== src/Interrupts/Syscall.antt =====
-- syscall_handler and syscall_from_regs of mi_so_completo/src/interrupts.c. `codes` are the scancodes of
-- the keyboard interrupts that may come while a system call runs; Int80 is about which do. `none` is a
-- call that does not return.
pub mod Memory
pub mod Wait
pub mod Safety
pub mod Read
use sistema_operativo.Prelude.{
  ℕ, zero, suc, ◌+◌, ◌-◌, ◌%◌, Bool, true, false, not, ◌&&◌, ◌||◌, Option, none, some, List, [],
  ◌∷◌, ◌++◌, ltb, leb, ◌==◌, if◌then◌else◌, or_else, ℤ, pos, negsuc, uint_mod, to_int, to_uint,
}
use sistema_operativo.Console.{Output, glyph}
use sistema_operativo.Process.Types.{
  ready, sleeping, zombie, empty, Process, Procs, max_processes, slot, put_slot, is_empty,
  is_zombie,
}
use sistema_operativo.Process.Table.{index, create_process, kill_process, sleep_process}
use sistema_operativo.Keyboard.{get_key}
use sistema_operativo.Interrupts.Types.{Regs, Machine, process_tick}
use sistema_operativo.Interrupts.Context.{is_user}

-- (uint32_t)-1
abbrev pub failure : ℕ
failure = uint_mod - 1

-- The value in eax, the new state and the output.
abbrev pub Return : Type 0
Return = Option (ℕ × Machine × List Output)

abbrev pub current : Procs → Process
current s = slot s s.current_pid

unfoldable pub user_ptr_ok : ℕ → ℕ → Procs → Bool
user_ptr_ok addr len s =
    let start = (current s).memory_start in
    let end = (start + (current s).memory_size) % uint_mod in
    if ltb addr start
    then false
    else if leb end addr
    then false
    else if len == 0
    then true
    else if ltb ((addr + len) % uint_mod) addr
    then false
    else if ltb end ((addr + len) % uint_mod)
    then false
    else true

-- The loop of SYS_WRITE, `n` rounds from address `p` on.
unfoldable pub write_chars : ℕ → ℕ → (ℕ → ℕ) → List Output
write_chars zero p memory = []
write_chars (suc n) p memory =
    let rest = write_chars n (p + 1) memory in
    if memory p == 0 then [] else glyph (memory p) 0x0F ∷ rest

abbrev pub max_write : ℕ → ℕ
max_write arg2 = if ltb 200 arg2 then 200 else arg2

unfoldable pub sys_write : ℕ → ℕ → Machine → Return
sys_write arg1 arg2 m =
    if user_ptr_ok arg1 (max_write arg2) m.procs
    then some (0, m, write_chars (max_write arg2) arg1 m.memory)
    else some (failure, m, [])

-- buf[0] = c
abbrev pub store : (ℕ → ℕ) → ℕ → ℕ → ℕ → ℕ
store memory p c q = if q == p then c else memory q

-- The scancodes that get_key leaves are no part of the result.
unfoldable pub sys_read : List ℕ → ℕ → ℕ → Machine → Return
sys_read codes arg1 arg2 m =
    if user_ptr_ok arg1 arg2 m.procs
    then or_else (get_key codes m.keyboard) none (λ r.
      some (1, record m { keyboard = r.1; memory = store m.memory arg1 r.0 }, glyph r.0 0x0F ∷ []))
    else some (failure, m, [])

abbrev pub set_priority : ℕ → ℕ → Procs → Procs
set_priority pid prio s = put_slot s pid (record (slot s pid) { priority = prio })

unfoldable pub sys_setprio : ℕ → ℕ → Machine → Return
sys_setprio arg1 arg2 m =
    if ltb arg1 max_processes && (not (is_empty (slot m.procs arg1).state) && leb arg2 9)
    then some (0, record m { procs = set_priority arg1 arg2 m.procs }, [])
    else some (failure, m, [])

unfoldable pub sys_getprio : ℕ → Machine → Return
sys_getprio arg1 m =
    if ltb arg1 max_processes && not (is_empty (slot m.procs arg1).state)
    then some ((slot m.procs arg1).priority, m, [])
    else some (failure, m, [])

-- The child takes over the parent's saved context.
abbrev pub adopt : ℕ → Procs → Procs
adopt child s =
    put_slot s child
      (record (slot s child) { parent_pid = pos s.current_pid; context = (current s).context })

-- `entry` is the address of user_program.
unfoldable pub sys_fork : ℕ → Machine → Return
sys_fork entry m =
    let (child, procs, out) = create_process entry (current m.procs).name 0x2000 m.procs in
    if leb max_processes m.procs.next_pid
    then some (failure, m, [])
    else some (index child, record m { procs = adopt (index child) procs }, out)

abbrev pub is_over : Process → Bool
is_over p = is_zombie p.state || is_empty p.state

-- The loop of SYS_WAIT, with fuel: the state in which the child is over.
unfoldable pub wait_child : ℕ → ℕ → Procs → Option (Procs × List Output)
wait_child zero child s = none
wait_child (suc fuel) child s =
    let (s', out) = sleep_process (pos s.current_pid) (pos 1) s in
    let rest = wait_child fuel child s' in
    if is_over (slot s child) then some (s, []) else or_else rest none (λ r. some (r.0, out ++ r.1))

abbrev pub is_pid : ℤ → ℕ → Bool
is_pid (pos a) b = a == b
is_pid (negsuc a) b = false

-- The negation of: child_pid < 1 || child_pid >= MAX_PROCESSES || parent_pid != current_pid
abbrev pub is_child : ℤ → Procs → Bool
is_child (pos zero) s = false
is_child (pos (suc n)) s =
    ltb (suc n) max_processes && is_pid (slot s (suc n)).parent_pid s.current_pid
is_child (negsuc n) s = false

abbrev pub release : ℕ → Procs → Procs
release child s = put_slot s child (record (slot s child) { state = empty })

unfoldable pub sys_wait : ℕ → ℕ → Machine → Return
sys_wait fuel arg1 m =
    let child = index (to_int arg1) in
    if is_child (to_int arg1) m.procs
    then or_else (wait_child fuel child m.procs) none (λ r.
      some (to_uint (slot r.0 child).exit_code, record m { procs = release child r.0 }, r.1))
    else some (failure, m, [])

unfoldable pub sys_yield : Machine → Return
sys_yield m =
    let s = m.procs in
    let (m', out) =
      process_tick
        (record m { procs = put_slot s s.current_pid (record (current s) { state = ready }) }) in
    some (0, m', out)

-- The calls that only ask, and those that hand over to process.c.
unfoldable pub sys_exit : Machine → Return
sys_exit m =
    let (procs, out) = kill_process (pos m.procs.current_pid) m.procs in
    some (0, record m { procs = procs }, out)

unfoldable pub sys_sleep : ℕ → Machine → Return
sys_sleep arg1 m =
    let (procs, out) = sleep_process (pos m.procs.current_pid) (to_int arg1) m.procs in
    some (0, record m { procs = procs }, out)

-- The numbers SYS_EXIT to SYS_GETPPID of common.h.
unfoldable pub syscall_handler : ℕ → ℕ → List ℕ → ℕ → ℕ → ℕ → Machine → Return
syscall_handler entry fuel codes num arg1 arg2 m =
    if num == 1
    then sys_exit m
    else if num == 2
    then some (m.procs.current_pid, m, [])
    else if num == 3
    then some ((current m.procs).memory_size, m, [])
    else if num == 4
    then sys_sleep arg1 m
    else if num == 5
    then sys_setprio arg1 arg2 m
    else if num == 6
    then sys_getprio arg1 m
    else if num == 7
    then sys_write arg1 arg2 m
    else if num == 8
    then sys_read codes arg1 arg2 m
    else if num == 9
    then sys_fork entry m
    else if num == 10
    then sys_wait fuel arg1 m
    else if num == 11
    then sys_yield m
    else if num == 12
    then some (to_uint (current m.procs).parent_pid, m, [])
    else some (failure, m, [])

-- The registers that INT 0x80 returns with, the new state and the output.
unfoldable pub syscall_from_regs :
    ℕ → ℕ → List ℕ → Regs → Machine → Option (Regs × Machine × List Output)
syscall_from_regs entry fuel codes r m =
    if is_user (current m.procs).mode
    then or_else (syscall_handler entry fuel codes r.eax r.ebx r.ecx m) none
        (λ x. some (record r { eax = x.0 }, x.1, x.2))
    else some (record r { eax = failure }, m, [])
