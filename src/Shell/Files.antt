-- ===== src/Shell/Files.antt =====
-- The commands `server fs ...` of execute_command in mi_so_completo/src/shell.c.
use sistema_operativo.Prelude.{if◌then◌else◌}
use sistema_operativo.Utils.{CStr, str, streq, skip_spaces}
use sistema_operativo.Servers.Types.{Servers, Reply, refuse}
use sistema_operativo.Servers.Files.{
  command_server_fs_dirs, command_server_fs_mkdir, command_server_fs_touch, command_server_fs_ls,
  command_server_fs_write, command_server_fs_cat, command_server_fs_rm, command_server_fs_rmdir,
  command_server_fs_chmod,
}
use sistema_operativo.Shell.Args.{with_token}
use sistema_operativo.Shell.Apache.{prints}

-- read_token(&cursor, srv, 16) && read_token(&cursor, dir, 16)
abbrev pub with_dir : CStr → Servers → CStr → (CStr → CStr → CStr → Reply) → Reply
with_dir usage s cursor rest =
    with_token 16 usage s cursor
      λ srv cursor'. with_token 16 usage s cursor' λ dir cursor''. rest srv dir cursor''

-- ... && read_token(&cursor, file, 16)
abbrev pub with_file : CStr → Servers → CStr → (CStr → CStr → CStr → CStr → Reply) → Reply
with_file usage s cursor rest =
    with_dir usage s cursor
      λ srv dir cursor'. with_token 16 usage s cursor' λ file cursor''. rest srv dir file cursor''

-- The operation `op`; the cursor stands behind it.
unfoldable pub fs_operation : CStr → CStr → Servers → Reply
fs_operation op cursor s =
    if streq op (str "dirs")
    then with_token 16 (str "Uso: server fs dirs <srv>\n") s cursor
        (λ srv rest. prints s (command_server_fs_dirs srv s))
    else if streq op (str "mkdir")
    then with_dir (str "Uso: server fs mkdir <srv> <dir>\n") s cursor
        (λ srv dir rest. command_server_fs_mkdir srv dir s)
    else if streq op (str "touch")
    then with_file (str "Uso: server fs touch <srv> <dir> <file>\n") s cursor
        (λ srv dir file rest. command_server_fs_touch srv dir file s)
    else if streq op (str "ls")
    then with_dir (str "Uso: server fs ls <srv> <dir>\n") s cursor
        (λ srv dir rest. prints s (command_server_fs_ls srv dir s))
    else if streq op (str "cat")
    then with_file (str "Uso: server fs cat <srv> <dir> <file>\n") s cursor
        (λ srv dir file rest. prints s (command_server_fs_cat srv dir file s))
    else if streq op (str "write")
    then with_file (str "Uso: server fs write <srv> <dir> <file> <txt>\n") s cursor
        (λ srv dir file rest. command_server_fs_write srv dir file (skip_spaces rest) s)
    else if streq op (str "rm")
    then with_file (str "Uso: server fs rm <srv> <dir> <file>\n") s cursor
        (λ srv dir file rest. command_server_fs_rm srv dir file s)
    else if streq op (str "rmdir")
    then with_dir (str "Uso: server fs rmdir <srv> <dir>\n") s cursor
        (λ srv dir rest. command_server_fs_rmdir srv dir s)
    else if streq op (str "chmod")
    then with_file (str "Uso: server fs chmod <srv> <dir> <file> <r|w|rw>\n") s cursor
        (λ srv dir file rest.
          with_token 8 (str "Uso: server fs chmod <srv> <dir> <file> <r|w|rw>\n") s rest
            (λ mode rest'. command_server_fs_chmod srv dir file mode s))
    else refuse s (str "Operacion fs no valida\n")

unfoldable pub fs_command : CStr → Servers → Reply
fs_command args s =
    with_token 16 (str "Uso: server fs <op>\n") s args (λ op cursor. fs_operation op cursor s)
