-- ===== src/Shell/Apache.antt =====
-- The commands `apache ...` of execute_command in mi_so_completo/src/shell.c.
use sistema_operativo.Prelude.{List, if◌then◌else◌, ℤ, pos}
use sistema_operativo.Utils.{CStr, str, streq, skip_spaces, parse_number}
use sistema_operativo.Console.{Output}
use sistema_operativo.Servers.Types.{Servers, Reply, refuse}
use sistema_operativo.Servers.Lifecycle.{
  command_server_start, command_server_stop, command_server_status,
}
use sistema_operativo.Servers.Apache.{
  command_apache_logs, command_apache_ls, command_apache_cat, command_apache_tail,
  command_apache_add, command_apache_rm, command_apache_simulate,
}
use sistema_operativo.Servers.Notices.{command_apache_vhosts}
use sistema_operativo.Process.Table.{not_positive}
use sistema_operativo.Shell.Args.{is_end, with_token}

-- A command that only prints.
abbrev pub prints : Servers → List Output → Reply
prints s out = (s, out)

unfoldable pub apache_cat : CStr → Servers → Reply
apache_cat cursor s =
    if is_end (skip_spaces cursor)
    then refuse s (str "Uso: apache cat <path>\n")
    else prints s (command_apache_cat (skip_spaces (skip_spaces cursor)) s)

unfoldable pub apache_tail : CStr → Servers → Reply
apache_tail cursor s =
    let n = if is_end (skip_spaces cursor) then pos 5 else parse_number (skip_spaces cursor) in
    prints s (command_apache_tail n s)

unfoldable pub apache_add : CStr → Servers → Reply
apache_add cursor s =
    with_token 32 (str "Uso: apache add <name> <content>\n") s cursor λ name cursor'.
      let content = skip_spaces (skip_spaces cursor') in
      if is_end content
      then refuse s (str "Uso: apache add <name> <content>\n")
      else command_apache_add name content s

unfoldable pub apache_rm : CStr → Servers → Reply
apache_rm cursor s =
    with_token 32 (str "Uso: apache rm <name>\n") s cursor λ name cursor'. command_apache_rm name s

-- How many requests: the number, 1 without one, and at least 1.
unfoldable pub requests : CStr → ℤ
requests cursor =
    let n = if is_end (skip_spaces cursor) then pos 1 else parse_number (skip_spaces cursor) in
    if not_positive n then pos 1 else n

unfoldable pub apache_simulate : CStr → Servers → Reply
apache_simulate cursor s = command_apache_simulate (requests cursor) s

-- The operation `op`; the cursor stands behind it.
unfoldable pub apache_operation : CStr → CStr → Servers → Reply
apache_operation op cursor s =
    if streq op (str "start")
    then command_server_start (str "apache") s
    else if streq op (str "stop")
    then command_server_stop (str "apache") s
    else if streq op (str "status")
    then prints s (command_server_status (str "apache") s)
    else if streq op (str "logs")
    then prints s (command_apache_logs s)
    else if streq op (str "ls")
    then prints s (command_apache_ls s)
    else if streq op (str "cat")
    then apache_cat cursor s
    else if streq op (str "tail")
    then apache_tail cursor s
    else if streq op (str "add")
    then apache_add cursor s
    else if streq op (str "rm")
    then apache_rm cursor s
    else if streq op (str "vhosts")
    then prints s command_apache_vhosts
    else if streq op (str "simulate")
    then apache_simulate cursor s
    else refuse s (str "Operacion apache no valida\n")

unfoldable pub apache_command : CStr → Servers → Reply
apache_command args s =
    with_token 16 (str "Uso: apache <start|stop|status|logs|simulate N>\n") s args
      λ op cursor. apache_operation op cursor s
