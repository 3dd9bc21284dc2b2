-- ===== src/Shell/Safety.antt =====
-- The lines of the shell, but `read`, and the process table.
use sistema_operativo.Prelude.{
  ℕ, ◌<◌, ◌≡◌, ◌≢◌, false, true, none, some, Option, List, [], not, ◌&&◌, arith, if_ind, if_both, ℤ,
  pos, negsuc, drop,
}
use sistema_operativo.Utils.{CStr, str, streq, starts_with}
use sistema_operativo.Console.{Output}
use sistema_operativo.Process.Types.{Procs, slot, empty, max_processes, is_zombie, put_slot}
use sistema_operativo.Process.Table.{index, no_such_process}
use sistema_operativo.Process.Slots.{Inv, put_slot-Inv}
use sistema_operativo.Process.Invariant.{create_process-Inv, kill_process-Inv, sleep_process-Inv}
use sistema_operativo.Interrupts.Syscall.{current}
use sistema_operativo.Interrupts.Histories.{run_user_process-Inv}
use sistema_operativo.Shell.Args.{first_number, second_number}
use sistema_operativo.Shell.Processes.{
  command_exec, command_fork, command_sleep, command_priority, command_wait, command_yield,
  is_priority, is_waitable,
}
use sistema_operativo.Shell.Execute.{
  Reaction, Setting, execute_command, process_command, server_command, other_command,
}

abbrev InvOf : Procs × List Output → Type 0
InvOf r = Inv r.0

command_exec-Inv : (entry : ℕ) (name : CStr) (s : Procs) → Inv s → Inv (command_exec entry name s).0
unfolding command_exec
command_exec-Inv entry name s v = create_process-Inv entry name 4096 s v

command_fork-Inv : (entry : ℕ) (s : Procs) → Inv s → Inv (command_fork entry s).0
unfolding command_fork
command_fork-Inv entry s v = create_process-Inv entry (str "hijo") 0x2000 s v

command_sleep-Inv : (args : CStr) (s : Procs) → Inv s → Inv (command_sleep args s).0
unfolding command_sleep
command_sleep-Inv args s v = sleep_process-Inv (first_number args) (second_number args) s v

set_priority-Inv :
    (pid prio : ℤ) (s : Procs)
    → Inv s
    → (not (no_such_process pid s) && is_priority prio) ≡ true
    → Inv (put_slot s (index pid) (record (slot s (index pid)) { priority = index prio }))
set_priority-Inv (pos n) (pos p) s v e =
    let h : n < max_processes = ground arith in
    put_slot-Inv s n _ v h (let ok = v.slots n h in ground (arith, ok))
set_priority-Inv (pos n) (negsuc p) s v e = ground arith
set_priority-Inv (negsuc n) prio s v e = ground arith

command_priority-Inv : (args : CStr) (s : Procs) → Inv s → Inv (command_priority args s).0
unfolding command_priority
command_priority-Inv args s v =
    if_ind InvOf (not (no_such_process (first_number args) s) && is_priority (second_number args))
      (set_priority-Inv (first_number args) (second_number args) s v) λ _. v

free-Inv :
    (pid : ℤ) (s : Procs)
    → Inv s
    → is_waitable pid ≡ true
    → Inv (put_slot s (index pid) (record (slot s (index pid)) { state = empty }))
free-Inv (pos n) s v e =
    let h : n < max_processes = ground arith in
    put_slot-Inv s n _ v h (let ok = v.slots n h in ground (arith, ok))
free-Inv (negsuc n) s v e = ground arith

command_wait-Inv : (pid : ℤ) (s : Procs) → Inv s → Inv (command_wait pid s).0
unfolding command_wait
command_wait-Inv pid s v =
    if_ind InvOf (is_waitable pid)
      (λ w. if_ind InvOf (is_zombie (slot s (index pid)).state) (λ _. free-Inv pid s v w) λ _. v)
      λ _. v

command_yield-Inv : (s : Procs) → Inv s → (current s).state ≢ empty → Inv (command_yield s).0
unfolding command_yield
command_yield-Inv s v alive =
    put_slot-Inv s s.current_pid _ v v.current_in
      (let ok = v.slots s.current_pid v.current_in in ground (arith, ok))

-- The command returns, and the process table is well formed after it.
abbrev pub ReactsInv : Option Reaction → Type 0
ReactsInv none = ⊥
ReactsInv (some r) = Inv r.machine.procs

module _ (command : CStr) (e : Setting) (v : Inv e.machine.procs)
    (alive : streq command (str "yield") ≡ true → (current e.machine.procs).state ≢ empty)
    (no_read : streq command (str "read") ≡ false) where
  other_command-ReactsInv : ReactsInv (other_command command e)
  unfolding other_command
  other_command-ReactsInv = if_both ReactsInv (starts_with command (str "getppid ")) v (
      if_both ReactsInv (streq command (str "fork")) (command_fork-Inv e.entry _ v) (
        if_both ReactsInv (starts_with command (str "wait "))
          (command_wait-Inv (first_number (drop 5 command)) _ v)
          (if_ind ReactsInv (streq command (str "yield")) (λ h. command_yield-Inv _ v (alive h))
            (λ _.
              if_ind ReactsInv (streq command (str "read")) (λ h. absurd (cc (h, no_read)))
                λ _. if_both ReactsInv (streq command (str "stats")) v (v)))))

  server_command-ReactsInv : ReactsInv (server_command command e)
  unfolding server_command
  server_command-ReactsInv = if_both ReactsInv (streq command (str "server list")) v (
      if_both ReactsInv (starts_with command (str "server status ")) v (
        if_both ReactsInv (starts_with command (str "server start ")) v (
          if_both ReactsInv (starts_with command (str "server stop ")) v (
            if_both ReactsInv (starts_with command (str "server restart ")) v (
              if_both ReactsInv (starts_with command (str "server backup ")) v (
                if_both ReactsInv (starts_with command (str "server restore ")) v (
                  if_both ReactsInv (streq command (str "server audit")) v (
                    if_both ReactsInv (starts_with command (str "apache ")) v (
                      if_both ReactsInv (starts_with command (str "server fs ")) v
                        (other_command-ReactsInv))))))))))

  process_command-ReactsInv : ReactsInv (process_command command e)
  unfolding process_command
  process_command-ReactsInv = if_both ReactsInv (streq command (str "ps")) v (
      if_both ReactsInv (streq command (str "top")) v (
        if_both ReactsInv (starts_with command (str "exec "))
          (command_exec-Inv e.entry (drop 5 command) _ v)
          (if_both ReactsInv (starts_with command (str "runu "))
            (run_user_process-Inv (first_number (drop 5 command)) _ v)
            (if_both ReactsInv (starts_with command (str "kill "))
              (kill_process-Inv (first_number (drop 5 command)) _ v)
              (if_both ReactsInv (starts_with command (str "sleep "))
                (command_sleep-Inv (drop 6 command) _ v)
                (if_both ReactsInv (starts_with command (str "priority "))
                  (command_priority-Inv (drop 9 command) _ v)
                  (if_both ReactsInv (streq command (str "memory")) v (
                    if_both ReactsInv (streq command (str "uptime")) v (
                      if_both ReactsInv (starts_with command (str "add ")) v (
                        if_both ReactsInv (starts_with command (str "echo ")) v (
                          if_both ReactsInv (streq command (str "about")) v
                            (server_command-ReactsInv))))))))))))

-- From a well-formed table every line but `read` is carried out, whatever it says, and leaves the
-- process table well formed; for `yield` the current process has to be in use.
pub execute_command-ReactsInv :
    (command : CStr) (e : Setting)
    → Inv e.machine.procs
    → (streq command (str "yield") ≡ true → (current e.machine.procs).state ≢ empty)
    → streq command (str "read") ≡ false
    → ReactsInv (execute_command command e)
unfolding execute_command
execute_command-ReactsInv command e v alive no_read = if_both ReactsInv (streq command []) v (
    if_both ReactsInv (streq command (str "help")) v (
      if_both ReactsInv (streq command (str "help syscalls")) v (
        if_both ReactsInv (streq command (str "cmd")) v (
          if_both ReactsInv (streq command (str "principales")) v (
            if_both ReactsInv (streq command (str "whoami")) v (
              if_both ReactsInv (starts_with command (str "login ")) v (
                if_both ReactsInv (streq command (str "logout")) v (
                  if_both ReactsInv (streq command (str "clear")) v
                    (process_command-ReactsInv command e v alive no_read)))))))))
