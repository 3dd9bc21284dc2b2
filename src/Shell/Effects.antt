-- ===== src/Shell/Effects.antt =====
-- What a line of the shell does to the servers, by what the commands do to them.
use sistema_operativo.Prelude.{
  ℕ, ◌≡◌, none, some, Option, List, [], if_ind, if_both, or_else_ind, drop,
}
use sistema_operativo.Console.{Output}
use sistema_operativo.Keyboard.{Keyboard}
use sistema_operativo.Utils.{CStr, str, streq, starts_with, skip_spaces, read_token}
use sistema_operativo.Servers.Types.{Servers, Reply}
use sistema_operativo.Servers.Session.{command_logout, command_login}
use sistema_operativo.Servers.Apache.{command_apache_simulate}
use sistema_operativo.Servers.Command.{Command, run}
use sistema_operativo.Shell.Args.{with_token, is_end}
use sistema_operativo.Shell.Apache.{
  apache_command, apache_operation, apache_cat, apache_tail, apache_add, apache_rm, apache_simulate,
  requests,
}
use sistema_operativo.Shell.Files.{fs_command, fs_operation, with_dir, with_file}
use sistema_operativo.Prelude.{ℤ, true}
use sistema_operativo.Shell.Execute.{
  login_command, Reaction, Setting, reading, execute_command, process_command, server_command,
  other_command,
}

-- What holds of the servers after the line, if it returns.
abbrev pub Holds : (Servers → Type 0) → Option Reaction → Type 0
Holds P none = Unit
Holds P (some r) = P r.machine.servers

-- `P` holds of the servers, and after each of the commands that change them.
module _ (P : Servers → Type 0) (e : Setting) (same : P e.machine.servers)
    (kept_run : (c : Command) → P (run c e.machine.servers).0)
    (kept_simulate : (n : ℤ) → P (command_apache_simulate n e.machine.servers).0)
    (kept_logout : P (command_logout e.machine.servers).0) where
  abbrev s : Servers
  s = e.machine.servers

  abbrev Replied : Reply → Type 0
  Replied r = P r.0

  with_token_kept :
      (size : ℕ) (usage cursor : CStr) (rest : CStr → CStr → Reply)
      → ((a b : CStr) → Replied (rest a b))
      → Replied (with_token size usage s cursor rest)
  with_token_kept size usage cursor rest h =
      or_else_ind Replied (read_token cursor size) (λ _. same) (λ t _. h t.0 t.1)

  with_dir_kept :
      (usage cursor : CStr) (rest : CStr → CStr → CStr → Reply)
      → ((a b c : CStr) → Replied (rest a b c))
      → Replied (with_dir usage s cursor rest)
  with_dir_kept usage cursor rest h =
      with_token_kept 16 usage cursor _ λ a b. with_token_kept 16 usage b _ λ c d. h a c d

  with_file_kept :
      (usage cursor : CStr) (rest : CStr → CStr → CStr → CStr → Reply)
      → ((a b c d : CStr) → Replied (rest a b c d))
      → Replied (with_file usage s cursor rest)
  with_file_kept usage cursor rest h =
      with_dir_kept usage cursor _ λ a b c. with_token_kept 16 usage c _ λ d f. h a b d f

  apache_add_kept : (cursor : CStr) → Replied (apache_add cursor s)
  unfolding apache_add run
  apache_add_kept cursor = with_token_kept 32 _ cursor _ λ name rest.
      if_both Replied (is_end (skip_spaces (skip_spaces rest))) same
        (kept_run (Command.apache_add name (skip_spaces (skip_spaces rest))))

  apache_simulate_kept : (cursor : CStr) → Replied (apache_simulate cursor s)
  unfolding apache_simulate
  apache_simulate_kept cursor = kept_simulate (requests cursor)

  apache_operation_kept : (op cursor : CStr) → Replied (apache_operation op cursor s)
  unfolding run apache_operation apache_cat apache_tail apache_rm apache_simulate
  apache_operation_kept op cursor =
      if_both Replied (streq op (str "start")) (kept_run (Command.start (str "apache"))) (
        if_both Replied (streq op (str "stop")) (kept_run (Command.stop (str "apache"))) (
          if_both Replied (streq op (str "status")) same (
            if_both Replied (streq op (str "logs")) same (
              if_both Replied (streq op (str "ls")) same (
                if_both Replied (streq op (str "cat"))
                  (if_both Replied (is_end (skip_spaces cursor)) same same)
                  (if_both Replied (streq op (str "tail")) same (
                    if_both Replied (streq op (str "add")) (apache_add_kept cursor) (
                      if_both Replied (streq op (str "rm"))
                        (with_token_kept 32 _ cursor _
                          λ name rest. kept_run (Command.apache_rm name))
                        (if_both Replied (streq op (str "vhosts")) same (
                          if_both Replied (streq op (str "simulate")) (apache_simulate_kept cursor)
                            same))))))))))

  fs_operation_kept : (op cursor : CStr) → Replied (fs_operation op cursor s)
  unfolding fs_operation run
  fs_operation_kept op cursor =
      if_both Replied (streq op (str "dirs")) (with_token_kept 16 _ cursor _ λ a b. same) (
        if_both Replied (streq op (str "mkdir"))
          (with_dir_kept _ cursor _ λ srv dir r. kept_run (Command.mkdir srv dir))
          (if_both Replied (streq op (str "touch"))
            (with_file_kept _ cursor _ λ srv dir file r. kept_run (Command.touch srv dir file))
            (if_both Replied (streq op (str "ls")) (with_dir_kept _ cursor _ λ srv dir r. same) (
              if_both Replied (streq op (str "cat"))
                (with_file_kept _ cursor _ λ srv dir file r. same)
                (if_both Replied (streq op (str "write"))
                  (with_file_kept _ cursor _
                    λ srv dir file r. kept_run (Command.write srv dir file (skip_spaces r)))
                  (if_both Replied (streq op (str "rm"))
                    (with_file_kept _ cursor _ λ srv dir file r. kept_run (Command.rm srv dir file))
                    (if_both Replied (streq op (str "rmdir"))
                      (with_dir_kept _ cursor _ λ srv dir r. kept_run (Command.rmdir srv dir))
                      (if_both Replied (streq op (str "chmod"))
                        (with_file_kept _ cursor _ λ srv dir file r.
                          with_token_kept 8 _ r _
                            λ mode r2. kept_run (Command.chmod srv dir file mode))
                        same))))))))

  reading-Holds : (r : Option (Keyboard × List ℕ × List Output)) → Holds P (reading e r)
  reading-Holds none = tt
  reading-Holds (some r) = same

  other_command-Holds : (command : CStr) → Holds P (other_command command e)
  unfolding other_command
  other_command-Holds command = if_both (Holds P) (starts_with command (str "getppid ")) same (
      if_both (Holds P) (streq command (str "fork")) same (
        if_both (Holds P) (starts_with command (str "wait ")) same (
          if_both (Holds P) (streq command (str "yield")) same (
            if_both (Holds P) (streq command (str "read")) (reading-Holds _)
              (if_both (Holds P) (streq command (str "stats")) same same)))))

  server_command-Holds : (command : CStr) → Holds P (server_command command e)
  unfolding run server_command apache_command fs_command
  server_command-Holds command = if_both (Holds P) (streq command (str "server list")) same (
      if_both (Holds P) (starts_with command (str "server status ")) same (
        if_both (Holds P) (starts_with command (str "server start "))
          (kept_run (Command.start (skip_spaces (drop 13 command))))
          (if_both (Holds P) (starts_with command (str "server stop "))
            (kept_run (Command.stop (skip_spaces (drop 12 command))))
            (if_both (Holds P) (starts_with command (str "server restart "))
              (kept_run (Command.restart (skip_spaces (drop 15 command))))
              (if_both (Holds P) (starts_with command (str "server backup "))
                (kept_run (Command.backup (skip_spaces (drop 14 command))))
                (if_both (Holds P) (starts_with command (str "server restore "))
                  (kept_run (Command.restore (skip_spaces (drop 15 command))))
                  (if_both (Holds P) (streq command (str "server audit")) same (
                    if_both (Holds P) (starts_with command (str "apache "))
                      (with_token_kept 16 _ (drop 7 command) _
                        λ op cursor. apache_operation_kept op cursor)
                      (if_both (Holds P) (starts_with command (str "server fs "))
                        (with_token_kept 16 _ (drop 10 command) _
                          λ op cursor. fs_operation_kept op cursor)
                        (other_command-Holds command))))))))))

  process_command-Holds : (command : CStr) → Holds P (process_command command e)
  unfolding process_command
  process_command-Holds command = if_both (Holds P) (streq command (str "ps")) same (
      if_both (Holds P) (streq command (str "top")) same (
        if_both (Holds P) (starts_with command (str "exec ")) same (
          if_both (Holds P) (starts_with command (str "runu ")) same (
            if_both (Holds P) (starts_with command (str "kill ")) same (
              if_both (Holds P) (starts_with command (str "sleep ")) same (
                if_both (Holds P) (starts_with command (str "priority ")) same (
                  if_both (Holds P) (streq command (str "memory")) same (
                    if_both (Holds P) (streq command (str "uptime")) same (
                      if_both (Holds P) (starts_with command (str "add ")) same (
                        if_both (Holds P) (starts_with command (str "echo ")) same (
                          if_both (Holds P) (streq command (str "about")) same
                            (server_command-Holds command))))))))))))

  pub execute_command-Holds :
      (command : CStr)
      → (starts_with command (str "login ") ≡ true
          → (role pass : CStr) → P (command_login role pass s).0)
      → Holds P (execute_command command e)
  unfolding execute_command login_command
  execute_command-Holds command kept_login = if_both (Holds P) (streq command []) same (
      if_both (Holds P) (streq command (str "help")) same (
        if_both (Holds P) (streq command (str "help syscalls")) same (
          if_both (Holds P) (streq command (str "cmd")) same (
            if_both (Holds P) (streq command (str "principales")) same (
              if_both (Holds P) (streq command (str "whoami")) same (
                if_ind (Holds P) (starts_with command (str "login "))
                  (λ h. with_token_kept 16 _ (drop 6 command) _ λ role cursor.
                    with_token_kept 24 _ cursor _ λ pass rest. kept_login h role pass)
                  λ _. if_both (Holds P) (streq command (str "logout")) kept_logout (
                    if_both (Holds P) (streq command (str "clear")) same
                      (process_command-Holds command))))))))
