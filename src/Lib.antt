-- ===== src/Lib.antt =====
-- A verification of Mi SO, a 32-bit teaching kernel in C with a text console, a scheduler, system calls
-- and a simulated server manager. The modules follow the source files:
--
--   Utils       mi_so_completo/src/utils.c: copy_string, starts_with, skip_spaces, read_token,
--               parse_number, int_to_str, strcmp, strlen.
--   Console     The calls of print_string, print_char, clear_screen and serial_print, as values. The
--               operations of the other parts return the list of the calls that they make.
--   Vga         mi_so_completo/src/vga.c: the screen as 4000 bytes and a cursor. `show` carries out a
--               list of calls on it.
--   Process     mi_so_completo/src/process.c: the process table (Types, Table), and get_best_process and
--               the loops of process_tick (Tick). Slots says when a table is well formed, Invariant and
--               Scheduler are about who keeps it so, Best is about the choice of the next process, Contexts
--               about the saved registers, Sleep about how long a process sleeps, Turns and Fairness about
--               how long one waits.
--   Servers     mi_so_completo/src/servers.c: the table of servers (Lifecycle), their file systems (Setup,
--               Files, Apache), the session (Session), the audit log (Audit), the simulated load (Tick).
--               Command is the type of the commands that need a role, Steps the relation that says what
--               one may change; Kept, Access, Recovery, Search and Contents draw on them; Log
--               and Loads are about the audit log and server_tick, Fits, Bounds and Room about the
--               arrays, Distinct and Names about names.
--   Keyboard    mi_so_completo/src/interrupts.c: the buffer between the keyboard interrupt and get_key.
--   Interrupts  mi_so_completo/src/interrupts.c: the timer interrupt and the entry into user mode (Context,
--               Switch), the system calls (Syscall, and behind their gate Int80), the interrupt table
--               and the exceptions (Gates), the program of every user process (User), and histories of the process table (Histories,
--               Exhaustion).
--               Types has process_tick, which ticks the servers and the processes.
--   Shell       mi_so_completo/src/shell.c: the line editor shell_read_line, over get_key; execute_command
--               (Execute), with the commands on processes (Processes), the listings (Listings, Help), the
--               commands on apache and on files (Apache, Files), `read` (Read) and how arguments are
--               taken (Args). Effects says what a line does to the servers by what the commands do; Safety,
--               Access and Bounds are about what a line can do, Arguments about numbers, Reading about
--               `read`.
--   Serial      mi_so_completo/src/serial.c, over the statuses that the port gives.
--   Kernel      mi_so_completo/src/kernel.c: the set-up and a round of the loop; Rounds and Inputs are
--               about what the loop does with lines and interrupts.
--   Prelude     Boolean tests, C arrays as lists, 32-bit integers.
--   Checks      Runs on concrete inputs.
--
-- The timer interrupt calls process_tick, which calls server_tick; a system call reads and changes the
-- process table, the keyboard buffer and the memory; process and server commands come from the shell.
-- The globals of the kernel are the record Machine of Interrupts.Types; an operation takes the part of it
-- that it uses and returns the new one with its output.
--
-- Representation. A C string is the list of the bytes before its terminator; copy_string is modelled on
-- byte arrays too, and `copied` is what it does to strings. A table is a list of all its slots; the table
-- of servers and the audit log are the lists of their used entries. An `int` is an integer in 32 bits
-- (`to_int` and `to_uint` wrap round); a `uint32_t` is a number below 2 ^ 32. `timer_ticks`, `cpu_time`,
-- `restarts` and `wait_ticks` only count, and the model holds below 2 ^ 31. Loops over arrays are
-- recursions on the list. `put_digits` has ten rounds, since 10 ^ 10 is above 2 ^ 31. The loop of
-- SYS_WAIT runs on fuel, and `none` is a call that has not returned; shell_read_line runs on fuel, and
-- more fuel than keys up to Enter is enough. get_key takes the scancodes that the
-- interrupts will bring. So does a system call; int80_stub passes on those that its gate lets through, none
-- through an interrupt gate.
--
-- `set` is a write inside an array; outside it changes nothing. `write_at`, for the table of servers, the
-- file systems and their directories and files, makes the list longer where C writes beyond the array, so
-- that such a write shows in the length.
--
-- The addresses that the linker chooses are arguments: `entry` is that of user_program, `address` gives
-- those of the interrupt stubs and `base` is that of the interrupt table.
--
-- A command of the shell is one step, and interrupts come between commands, or while get_key waits for a
-- key. A Setting has what surrounds a command: with `fuel` above the number of keys up to Enter the
-- command `read` has enough, and `stack` is what its buffer holds before it is written. A system call
-- from user mode is taken to reach its handler.
--
-- Not modelled: the stubs in assembly but irq0_stub and int80_stub, enter_user_mode (iret), the boot
-- sector, the link script, and mi_so_completo/kernel.c, which has the text of
-- mi_so_completo/src/kernel.c.
pub mod Prelude
pub mod Utils
pub mod Console
pub mod Vga
pub mod Process
pub mod Serial
pub mod Servers
pub mod Keyboard
pub mod Interrupts
pub mod Shell
pub mod Kernel
pub mod Checks
