-- ===== src/Servers/Steps.antt =====
-- What a command may change, as a step relation.
use sistema_operativo.Prelude.{ℕ, ◌<◌, length, ◌≡◌, refl, Bool, true, false, if_ind, or_else_ind}
use sistema_operativo.Utils.{CStr, str, streq}
use sistema_operativo.Prelude.{arith}
use sistema_operativo.Utils.Copy.{length-copied}
use sistema_operativo.Servers.Search.{
  find_from-IsFirst, find_server-inside, find_dir-inside, free_dir-inside, fs_find_file-inside,
  free_file-inside,
}
use sistema_operativo.Servers.Fits.{Change, loaded, dir_put, file_put}
use sistema_operativo.Servers.Types.{
  ServerService, Volume, no_file, max_file_content, Servers, Role, operator, admin, Reply, service,
  put_service, volume, put_volume,
}
use sistema_operativo.Servers.Audit.{add_audit_log}
use sistema_operativo.Servers.Session.{require_role, with_role}
use sistema_operativo.Servers.Lookup.{
  found, find_dir, fs_dir_exists, fs_find_file, free_dir, free_file, find_from, lies_in,
  find_server, is_file,
}
use sistema_operativo.Servers.Lifecycle.{
  at_server, save, command_server_start, command_server_stop, command_server_restart,
  command_server_backup, command_server_restore,
}
use sistema_operativo.Servers.Files.{
  file_at, at_active, command_server_fs_mkdir, command_server_fs_touch, command_server_fs_write,
  command_server_fs_rm, command_server_fs_rmdir, command_server_fs_chmod,
}
use sistema_operativo.Servers.Apache.{command_apache_add, command_apache_rm}
use sistema_operativo.Servers.Command.{
  Command, start, stop, restart, backup, restore, mkdir, rmdir, touch, rm, write, chmod, apache_add,
  apache_rm, run, is_backup,
}

-- A command that is refused changes nothing. One that succeeds makes one change and adds one entry
-- to the audit log. The changes: the entry of a server but its name; the directories and files of a
-- server; or, by a command that is a backup, a snapshot.
pub data Step (backing : Bool) (s : Servers) : Servers → Type 0 where
  refused : Step backing s s
  served :
      (i : ℕ) (x : ServerService) (entry : CStr)
      → i < length s.table
      → x.name ≡ (service s i).name
      → Step backing s (add_audit_log entry (put_service i x s))
  stored :
      (i : ℕ) (v : Volume) (entry : CStr)
      → i < length s.table
      → Change (volume s i) v
      → Step backing s (add_audit_log entry (put_volume i v s))
  saved :
      (i : ℕ) (entry : CStr)
      → i < length s.table
      → backing ≡ true
      → Step backing s (add_audit_log entry (put_volume i (save (volume s i)) s))

abbrev Steps : Bool → Servers → Reply → Type 0
Steps backing s r = Step backing s r.0

with_role-Steps :
    (b : Bool) (role : Role) (s : Servers) (rest : Reply)
    → Steps b s rest
    → Steps b s (with_role role s rest)
with_role-Steps b role s rest h = if_ind (Steps b s) (require_role role s).0 (λ _. h) λ _. refused

at_server-Steps :
    (b : Bool) (name : CStr) (s : Servers) (rest : ℕ → Reply)
    → ((i : ℕ) → i < length s.table → Steps b s (rest i))
    → Steps b s (at_server name s rest)
at_server-Steps b name s rest h =
    or_else_ind (Steps b s) (find_server name s.table) (λ _. refused)
      λ i e. h i (find_server-inside name s.table i e)

at_active-Steps :
    (b : Bool) (name : CStr) (s : Servers) (message : CStr) (rest : ℕ → Reply)
    → ((i : ℕ) → i < length s.table → Steps b s (rest i))
    → Steps b s (at_active name s message rest)
at_active-Steps b name s message rest h =
    or_else_ind (Steps b s) (find_server name s.table) (λ _. refused)
      λ i e.
        if_ind (Steps b s) (service s i).active (λ _. h i (find_server-inside name s.table i e))
          λ _. refused

-- Every command is a step, and only `backup` takes a snapshot.
pub run-Step : (c : Command) (s : Servers) → Step (is_backup c) s (run c s).0
unfolding run command_server_start command_server_stop command_server_restart command_server_backup
    command_server_restore command_server_fs_mkdir command_server_fs_touch command_server_fs_write
    command_server_fs_rm command_server_fs_rmdir command_server_fs_chmod command_apache_add
    command_apache_rm
run-Step (start srv) s =
    with_role-Steps false operator s _
      (at_server-Steps false srv s _ λ i room. served i _ _ room refl)
run-Step (stop srv) s =
    with_role-Steps false operator s _
      (at_server-Steps false srv s _ λ i room. served i _ _ room refl)
run-Step (restart srv) s =
    with_role-Steps false operator s _
      (at_server-Steps false srv s _ λ i room. served i _ _ room refl)
run-Step (backup srv) s =
    with_role-Steps true operator s _ (at_server-Steps true srv s _ λ i room. saved i _ room refl)
run-Step (restore srv) s = with_role-Steps false admin s _ (
    at_server-Steps false srv s _ λ i room.
      if_ind (Steps false s) (volume s i).snapshot.valid (λ e. stored i _ _ room (loaded e))
        λ _. refused)
run-Step (mkdir srv dir) s = with_role-Steps false operator s _ (
    at_active-Steps false srv s _ _ λ x room.
      if_ind (Steps false s) (fs_dir_exists dir (volume s x).dirs) (λ _. refused)
        λ _.
          or_else_ind (Steps false s) (free_dir (volume s x).dirs) (λ _. refused)
            λ i at.
              stored x _ _ room
                (dir_put i _ (free_dir-inside _ i at) (λ _. length-copied dir 16 (omega arith))))
run-Step (rmdir srv dir) s = with_role-Steps false admin s _ (
    at_server-Steps false srv s _ λ x room.
      if_ind (Steps false s) (found (find_from (lies_in dir) 0 (volume s x).files)) (λ _. refused)
        λ _.
          or_else_ind (Steps false s) (find_dir dir (volume s x).dirs) (λ _. refused)
            λ i at. stored x _ _ room (dir_put i _ (find_dir-inside dir _ i at) (λ h. h)))
run-Step (touch srv dir file) s = with_role-Steps false operator s _ (
    at_active-Steps false srv s _ _ λ x room.
      if_ind (Steps false s) (fs_dir_exists dir (volume s x).dirs)
        (λ _.
          if_ind (Steps false s) (found (fs_find_file dir file (volume s x).files)) (λ _. refused)
            λ _.
              or_else_ind (Steps false s) (free_file (volume s x).files) (λ _. refused)
                λ i at. stored x _ _ room (
                  file_put i _ (free_file-inside _ i at) (λ h. (
                    length-copied dir 16 (omega arith),
                    length-copied file 16 (omega arith),
                    h.2,
                  ))))
        λ _. refused)
run-Step (rm srv dir file) s = with_role-Steps false admin s _ (
    at_server-Steps false srv s _ λ x room.
      or_else_ind (Steps false s) (fs_find_file dir file (volume s x).files) (λ _. refused)
        λ i at. stored x _ _ room (file_put i _ (fs_find_file-inside dir file _ i at) (λ h. h)))
run-Step (write srv dir file content) s = with_role-Steps false operator s _ (
    at_active-Steps false srv s _ _ λ x room.
      or_else_ind (Steps false s) (fs_find_file dir file (volume s x).files) (λ _. refused)
        λ i at.
          if_ind (Steps false s) (file_at (volume s x) i).perm_write
            (λ _. stored x _ _ room (
              file_put i _ (fs_find_file-inside dir file _ i at)
                (λ h. (h.0, h.1, length-copied content max_file_content (omega arith)))))
            λ _. refused)
run-Step (chmod srv dir file mode) s = with_role-Steps false admin s _ (
    at_server-Steps false srv s _ λ x room.
      or_else_ind (Steps false s) (fs_find_file dir file (volume s x).files) (λ _. refused)
        λ i at.
          if_ind (Steps false s) (streq mode (str "r"))
            (λ _. stored x _ _ room (file_put i _ (fs_find_file-inside dir file _ i at) (λ h. h)))
            λ _.
              if_ind (Steps false s) (streq mode (str "w"))
                (λ _.
                  stored x _ _ room (file_put i _ (fs_find_file-inside dir file _ i at) (λ h. h)))
                λ _.
                  if_ind (Steps false s) (streq mode (str "rw"))
                    (λ _.
                      stored x _ _ room
                        (file_put i _ (fs_find_file-inside dir file _ i at) (λ h. h)))
                    λ _. refused)
run-Step (apache_add name content) s = with_role-Steps false operator s _ (
    or_else_ind (Steps false s) (find_server (str "apache") s.table) (λ _. refused)
      λ x e.
        let room = find_server-inside (str "apache") s.table x e in
        if_ind (Steps false s) (fs_dir_exists (str "www") (volume s x).dirs)
          (λ _.
            or_else_ind (Steps false s) (free_file (volume s x).files) (λ _. refused)
              λ i at. stored x _ _ room (
                file_put i _ (free_file-inside _ i at) (λ h. (
                  length-copied (str "www") 16 (omega arith),
                  length-copied name 16 (omega arith),
                  length-copied content max_file_content (omega arith),
                ))))
          λ _. refused)
run-Step (apache_rm name) s = with_role-Steps false operator s _ (
    or_else_ind (Steps false s) (find_server (str "apache") s.table) (λ _. refused)
      λ x e.
        let room = find_server-inside (str "apache") s.table x e in
        or_else_ind (Steps false s) (find_from (is_file (str "www") name) 0 (volume s x).files)
          (λ _. refused)
          λ i at. stored x _ _ room (
            file_put i _ (find_from-IsFirst (is_file (str "www") name) no_file _ i at).inside
              (λ h. h)))
