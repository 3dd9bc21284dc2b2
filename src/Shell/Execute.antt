-- ===== src/Shell/Execute.antt =====
-- execute_command of mi_so_completo/src/shell.c.
use sistema_operativo.Prelude.{ℕ, Option, none, some, List, [], ◌∷◌, drop, if◌then◌else◌}
use sistema_operativo.Utils.{CStr, str, streq, starts_with, skip_spaces}
use sistema_operativo.Console.{Output, text, clear}
use sistema_operativo.Process.Types.{Procs}
use sistema_operativo.Process.Table.{kill_process}
use sistema_operativo.Servers.Types.{Servers, Reply}
use sistema_operativo.Servers.Session.{role_name, command_login, command_logout}
use sistema_operativo.Servers.Lifecycle.{
  command_server_list, command_server_status, command_server_start, command_server_stop,
  command_server_restart, command_server_backup, command_server_restore,
}
use sistema_operativo.Servers.Audit.{command_server_audit}
use sistema_operativo.Servers.Notices.{command_principales}
use sistema_operativo.Keyboard.{Keyboard}
use sistema_operativo.Interrupts.Types.{Machine}
use sistema_operativo.Interrupts.Context.{run_user_process}
use sistema_operativo.Shell.Args.{first_number, with_token}
use sistema_operativo.Shell.Help.{command_help, command_help_syscalls, command_about}
use sistema_operativo.Shell.Listings.{
  command_ps, command_top, command_memory, command_uptime, command_getppid, command_stats,
}
use sistema_operativo.Shell.Processes.{
  command_exec, command_fork, command_sleep, command_priority, command_wait, command_yield,
  command_add,
}
use sistema_operativo.Shell.Apache.{apache_command}
use sistema_operativo.Shell.Files.{fs_command}
use sistema_operativo.Shell.Read.{command_read}

-- What a command leaves: the machine, the scancodes that are still to come, the output, and, if it
-- enters user mode, the entry point and the stack: then it does not come back to the shell.
pub record Reaction : Type 0 where
  pub machine : Machine
  pub codes : List ℕ
  pub out : List Output
  pub entered : Option (ℕ × ℕ)

-- What surrounds a command: the address of user_program, the bound on the keys that `read` may take,
-- the stack that it finds, the scancodes to come and the machine.
pub record Setting : Type 0 where
  pub entry : ℕ
  pub fuel : ℕ
  pub stack : List ℕ
  pub codes : List ℕ
  pub machine : Machine

abbrev pub printed : Setting → List Output → Option Reaction
printed e out = some (record { machine = e.machine; codes = e.codes; out = out; entered = none })

abbrev pub with_procs : Setting → Procs × List Output → Option Reaction
with_procs e r = some (record {
  machine = record (e.machine) { procs = r.0 };
  codes = e.codes;
  out = r.1;
  entered = none;
})

abbrev pub with_servers : Setting → Reply → Option Reaction
with_servers e r = some (record {
  machine = record (e.machine) { servers = r.0 };
  codes = e.codes;
  out = r.1;
  entered = none;
})

abbrev pub entering : Setting → Procs × List Output × Option (ℕ × ℕ) → Option Reaction
entering e r = some (record {
  machine = record (e.machine) { procs = r.0 };
  codes = e.codes;
  out = r.1;
  entered = r.2;
})

abbrev pub reading : Setting → Option (Keyboard × List ℕ × List Output) → Option Reaction
reading e none = none
reading e (some r) = some (record {
  machine = record (e.machine) { keyboard = r.0 };
  codes = r.1;
  out = r.2;
  entered = none;
})

-- The line of `cmd` and `whoami` on the session.
abbrev pub session_line : ℕ → Servers → List Output
session_line color s =
    text (str "Rol: ") color
    ∷ text (role_name s.current_role) color
    ∷ text (str " | Sesion: ") color
    ∷ text (if s.session_authenticated then str "activa\n" else str "cerrada\n") color
    ∷ []

unfoldable pub login_command : CStr → Servers → Reply
login_command args s =
    with_token 16 (str "Uso: login <admin|operator|viewer> <clave>\n") s args λ role cursor.
      with_token 24 (str "Uso: login <admin|operator|viewer> <clave>\n") s cursor
        λ pass rest. command_login role pass s

-- execute_command is one chain of tests. Its four parts, the last first:
-- from `getppid` to the end,
unfoldable pub other_command : CStr → Setting → Option Reaction
other_command command e =
    let m = e.machine in
    if starts_with command (str "getppid ")
    then printed e (command_getppid (first_number (drop 8 command)) m.procs)
    else if streq command (str "fork")
    then with_procs e (command_fork e.entry m.procs)
    else if starts_with command (str "wait ")
    then with_procs e (command_wait (first_number (drop 5 command)) m.procs)
    else if streq command (str "yield")
    then with_procs e (command_yield m.procs)
    else if streq command (str "read")
    then reading e (command_read e.fuel e.stack e.codes m.keyboard)
    else if streq command (str "stats")
    then printed e (command_stats m.procs)
    else printed e (text (str "Comando no encontrado. Escribe 'help'\n") 0x0C ∷ [])

-- from `server list` to `server fs`,
unfoldable pub server_command : CStr → Setting → Option Reaction
server_command command e =
    let s = e.machine.servers in
    if streq command (str "server list")
    then printed e (command_server_list s)
    else if starts_with command (str "server status ")
    then printed e (command_server_status (skip_spaces (drop 14 command)) s)
    else if starts_with command (str "server start ")
    then with_servers e (command_server_start (skip_spaces (drop 13 command)) s)
    else if starts_with command (str "server stop ")
    then with_servers e (command_server_stop (skip_spaces (drop 12 command)) s)
    else if starts_with command (str "server restart ")
    then with_servers e (command_server_restart (skip_spaces (drop 15 command)) s)
    else if starts_with command (str "server backup ")
    then with_servers e (command_server_backup (skip_spaces (drop 14 command)) s)
    else if starts_with command (str "server restore ")
    then with_servers e (command_server_restore (skip_spaces (drop 15 command)) s)
    else if streq command (str "server audit")
    then printed e (command_server_audit s)
    else if starts_with command (str "apache ")
    then with_servers e (apache_command (drop 7 command) s)
    else if starts_with command (str "server fs ")
    then with_servers e (fs_command (drop 10 command) s)
    else other_command command e

-- from `ps` to `about`,
unfoldable pub process_command : CStr → Setting → Option Reaction
process_command command e =
    let s = e.machine.procs in
    if streq command (str "ps")
    then printed e (command_ps s)
    else if streq command (str "top")
    then printed e (command_top s)
    else if starts_with command (str "exec ")
    then with_procs e (command_exec e.entry (drop 5 command) s)
    else if starts_with command (str "runu ")
    then entering e (run_user_process (first_number (drop 5 command)) s)
    else if starts_with command (str "kill ")
    then with_procs e (kill_process (first_number (drop 5 command)) s)
    else if starts_with command (str "sleep ")
    then with_procs e (command_sleep (drop 6 command) s)
    else if starts_with command (str "priority ")
    then with_procs e (command_priority (drop 9 command) s)
    else if streq command (str "memory")
    then printed e (command_memory s)
    else if streq command (str "uptime")
    then printed e (command_uptime s)
    else if starts_with command (str "add ")
    then printed e (command_add (drop 4 command))
    else if starts_with command (str "echo ")
    then printed e (text (skip_spaces (drop 5 command)) 0x0F ∷ text (str "\n") 0x0F ∷ [])
    else if streq command (str "about")
    then printed e command_about
    else server_command command e

-- and the beginning.
unfoldable pub execute_command : CStr → Setting → Option Reaction
execute_command command e =
    let s = e.machine.servers in
    if streq command []
    then printed e []
    else if streq command (str "help")
    then printed e command_help
    else if streq command (str "help syscalls")
    then printed e command_help_syscalls
    else if streq command (str "cmd")
    then printed e (text (str "CMD Integrado - Gestion Linux\n") 0x0B ∷ session_line 0x0B s)
    else if streq command (str "principales")
    then printed e command_principales
    else if streq command (str "whoami")
    then printed e (session_line 0x0E s)
    else if starts_with command (str "login ")
    then with_servers e (login_command (drop 6 command) s)
    else if streq command (str "logout")
    then with_servers e (command_logout s)
    else if streq command (str "clear")
    then printed e (clear ∷ [])
    else process_command command e
