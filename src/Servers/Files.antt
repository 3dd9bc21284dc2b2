-- ===== src/Servers/Files.antt =====
-- The file system commands of mi_so_completo/src/servers.c.
use sistema_operativo.Prelude.{
  ℕ, Bool, true, false, List, [], ◌∷◌, get_or, write_at, if◌then◌else◌, or_else,
}
use sistema_operativo.Utils.{CStr, str, streq, copied}
use sistema_operativo.Console.{Output, text}
use sistema_operativo.Servers.Types.{
  ServerDirectory, ServerFile, Volume, Servers, operator, admin, Reply, max_file_content,
  no_directory, no_file, service, volume, put_volume, refuse,
}
use sistema_operativo.Servers.Session.{with_role}
use sistema_operativo.Servers.Lookup.{
  find_server, lies_in, found, find_dir, fs_dir_exists, fs_find_file, free_dir, free_file,
  find_from,
}
use sistema_operativo.Servers.Lifecycle.{at_server, done}

abbrev pub file_at : Volume → ℕ → ServerFile
file_at v i = get_or v.files i no_file

abbrev pub put_file : ℕ → ServerFile → Volume → Volume
put_file i f v = record v { files = write_at v.files i f no_file }

abbrev pub put_dir : ℕ → ServerDirectory → Volume → Volume
put_dir i d v = record v { dirs = write_at v.dirs i d no_directory }

-- The rest of a command at a server that exists and is running.
abbrev pub at_active : CStr → Servers → CStr → (ℕ → Reply) → Reply
at_active srv s message rest =
    or_else (find_server srv s.table) (refuse s message)
      (λ i. if (service s i).active then rest i else refuse s message)

dir_rows : List ServerDirectory → List Output
dir_rows [] = []
dir_rows (d ∷ ds) =
    let rest = dir_rows ds in
    if d.used then text (str " - ") 0x0F ∷ text d.name 0x0F ∷ text (str "\n") 0x0F ∷ rest else rest

unfoldable pub command_server_fs_dirs : CStr → Servers → List Output
unfolding dir_rows
command_server_fs_dirs srv s =
    or_else (find_server srv s.table) (text (str "Error: servidor no existe\n") 0x0C ∷ [])
      (λ i. text (str "Directorios:\n") 0x0E ∷ dir_rows (volume s i).dirs)

-- A new directory in the first free slot.
abbrev pub make_dir : CStr → Volume → ℕ → Volume
make_dir dir v i = put_dir i (record { used = true; name = copied dir 16 }) v

unfoldable pub command_server_fs_mkdir : CStr → CStr → Servers → Reply
command_server_fs_mkdir srv dir s = with_role operator s (
    at_active srv s (str "Error: servidor invalido o detenido\n") λ x.
      let v = volume s x in
      if fs_dir_exists dir v.dirs
      then (s, text (str "Directorio ya existe\n") 0x0E ∷ [])
      else or_else (free_dir v.dirs) (refuse s (str "Error: sin espacio para mas directorios\n"))
          (λ i. done (put_volume x (make_dir dir v i) s) (str "mkdir") (str "Directorio creado\n")))

-- A new file in the first free slot; the slot keeps its content.
abbrev pub make_file : CStr → CStr → Volume → ℕ → Volume
make_file dir file v i =
    put_file i
      (record (file_at v i) {
        used = true;
        dir = copied dir 16;
        name = copied file 16;
        perm_read = true;
        perm_write = true;
      })
      v

unfoldable pub command_server_fs_touch : CStr → CStr → CStr → Servers → Reply
command_server_fs_touch srv dir file s = with_role operator s (
    at_active srv s (str "Error: servidor/directorio invalido\n") λ x.
      let v = volume s x in
      if fs_dir_exists dir v.dirs
      then if found (fs_find_file dir file v.files)
        then (s, text (str "Archivo ya existe\n") 0x0E ∷ [])
        else or_else (free_file v.files) (refuse s (str "Error: sin espacio para mas archivos\n"))
            (λ i.
              done (put_volume x (make_file dir file v i) s) (str "touch") (str "Archivo creado\n"))
      else refuse s (str "Error: servidor/directorio invalido\n"))

file_rows : CStr → List ServerFile → List Output
file_rows dir [] = []
file_rows dir (f ∷ fs) =
    let rest = file_rows dir fs in
    if lies_in dir f
    then text (str " - ") 0x0F ∷ text f.name 0x0F ∷ text (str "\n") 0x0F ∷ rest
    else rest

unfoldable pub list_files : CStr → List ServerFile → List Output
unfolding file_rows
list_files dir fs = file_rows dir fs

unfoldable pub command_server_fs_ls : CStr → CStr → Servers → List Output
command_server_fs_ls srv dir s =
    or_else (find_server srv s.table) (text (str "Error: servidor/directorio invalido\n") 0x0C ∷ [])
      (λ x.
        if fs_dir_exists dir (volume s x).dirs
        then list_files dir (volume s x).files
        else text (str "Error: servidor/directorio invalido\n") 0x0C ∷ [])

abbrev pub write_file : CStr → Volume → ℕ → Volume
write_file content v i =
    put_file i (record (file_at v i) { content = copied content max_file_content }) v

unfoldable pub command_server_fs_write : CStr → CStr → CStr → CStr → Servers → Reply
command_server_fs_write srv dir file content s = with_role operator s (
    at_active srv s (str "Error: servidor invalido o detenido\n") λ x.
      let v = volume s x in
      or_else (fs_find_file dir file v.files)
        (refuse s (str "Error: archivo invalido o sin permiso write\n"))
        (λ i.
          if (file_at v i).perm_write
          then done (put_volume x (write_file content v i) s) (str "write")
              (str "Contenido actualizado\n")
          else refuse s (str "Error: archivo invalido o sin permiso write\n")))

-- content[0] ? content : "(vacio)"
abbrev pub shown : CStr → CStr
shown [] = str "(vacio)"
shown (c ∷ s) = c ∷ s

unfoldable pub command_server_fs_cat : CStr → CStr → CStr → Servers → List Output
command_server_fs_cat srv dir file s =
    or_else (find_server srv s.table) (text (str "Error: servidor no existe\n") 0x0C ∷ []) (λ x.
      or_else (fs_find_file dir file (volume s x).files)
        (text (str "Error: archivo invalido o sin permiso read\n") 0x0C ∷ [])
        (λ i.
          if (file_at (volume s x) i).perm_read
          then text (str "Contenido: ") 0x0E
            ∷ text (shown (file_at (volume s x) i).content) 0x0F
            ∷ text (str "\n") 0x0F
            ∷ []
          else text (str "Error: archivo invalido o sin permiso read\n") 0x0C ∷ []))

abbrev pub remove_file : Volume → ℕ → Volume
remove_file v i = put_file i (record (file_at v i) { used = false }) v

unfoldable pub command_server_fs_rm : CStr → CStr → CStr → Servers → Reply
command_server_fs_rm srv dir file s = with_role admin s (
    at_server srv s λ x.
      let v = volume s x in
      or_else (fs_find_file dir file v.files) (refuse s (str "Error: archivo no existe\n"))
        (λ i. done (put_volume x (remove_file v i) s) (str "rm") (str "Archivo eliminado\n")))

abbrev pub remove_dir : Volume → ℕ → Volume
remove_dir v i = put_dir i (record (get_or v.dirs i no_directory) { used = false }) v

-- A directory that does not exist is passed over in silence.
unfoldable pub command_server_fs_rmdir : CStr → CStr → Servers → Reply
command_server_fs_rmdir srv dir s = with_role admin s (
    at_server srv s λ x.
      let v = volume s x in
      if found (find_from (lies_in dir) 0 v.files)
      then refuse s (str "Error: directorio no vacio\n")
      else or_else (find_dir dir v.dirs) ((s, [])) (λ i.
        done (put_volume x (remove_dir v i) s) (str "rmdir") (str "Directorio eliminado\n")))

abbrev pub set_mode : Bool → Bool → Volume → ℕ → Volume
set_mode r w v i = put_file i (record (file_at v i) { perm_read = r; perm_write = w }) v

unfoldable pub command_server_fs_chmod : CStr → CStr → CStr → CStr → Servers → Reply
command_server_fs_chmod srv dir file mode s = with_role admin s (
    at_server srv s λ x.
      let v = volume s x in
      or_else (fs_find_file dir file v.files) (refuse s (str "Error: archivo no existe\n")) (λ i.
        let change = λ (r w : Bool).
          done (put_volume x (set_mode r w v i) s) (str "chmod") (str "Permisos actualizados\n") in
        if streq mode (str "r")
        then change true false
        else if streq mode (str "w")
        then change false true
        else if streq mode (str "rw")
        then change true true
        else refuse s (str "Modo invalido\n")))
