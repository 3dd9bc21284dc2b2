-- ===== src/Servers/Command.antt =====
-- The commands of mi_so_completo/src/servers.c that begin with require_role, as one type, as the
-- shell calls them.
use sistema_operativo.Prelude.{Bool, true, false, List, [], ◌∷◌}
use sistema_operativo.Utils.{CStr}
use sistema_operativo.Servers.Types.{Servers, Role, operator, admin, Reply}
use sistema_operativo.Servers.Lifecycle.{
  command_server_start, command_server_stop, command_server_restart, command_server_backup,
  command_server_restore,
}
use sistema_operativo.Servers.Files.{
  command_server_fs_mkdir, command_server_fs_touch, command_server_fs_write, command_server_fs_rm,
  command_server_fs_rmdir, command_server_fs_chmod,
}
use sistema_operativo.Servers.Apache.{command_apache_add, command_apache_rm}

pub data Command : Type 0 where
  start stop restart backup restore : CStr → Command
  mkdir rmdir : CStr → CStr → Command
  touch rm : CStr → CStr → CStr → Command
  write chmod : CStr → CStr → CStr → CStr → Command
  apache_add : CStr → CStr → Command
  apache_rm : CStr → Command

unfoldable pub run : Command → Servers → Reply
run (start srv) = command_server_start srv
run (stop srv) = command_server_stop srv
run (restart srv) = command_server_restart srv
run (backup srv) = command_server_backup srv
run (restore srv) = command_server_restore srv
run (mkdir srv dir) = command_server_fs_mkdir srv dir
run (rmdir srv dir) = command_server_fs_rmdir srv dir
run (touch srv dir file) = command_server_fs_touch srv dir file
run (rm srv dir file) = command_server_fs_rm srv dir file
run (write srv dir file content) = command_server_fs_write srv dir file content
run (chmod srv dir file mode) = command_server_fs_chmod srv dir file mode
run (apache_add name content) = command_apache_add name content
run (apache_rm name) = command_apache_rm name

-- The role that the first line of the command asks for.
abbrev pub needs : Command → Role
needs (restore srv) = admin
needs (rmdir srv dir) = admin
needs (rm srv dir file) = admin
needs (chmod srv dir file mode) = admin
needs _ = operator

unfoldable pub run_all : List Command → Servers → Servers
run_all [] s = s
run_all (c ∷ cs) s = run_all cs (run c s).0

abbrev pub is_backup : Command → Bool
is_backup (backup srv) = true
is_backup _ = false
