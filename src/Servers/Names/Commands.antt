-- ===== src/Servers/Names/Commands.antt =====
-- The commands of servers.c, but `apache add`, and the names in the file systems.
use sistema_operativo.Prelude.{ℕ, ◌<◌, refl, List, [], ◌∷◌, length, if_ind, if_both, or_else_ind}
use sistema_operativo.Utils.{CStr, str, streq}
use sistema_operativo.Servers.Types.{
  Volume, Servers, ServerService, Reply, Role, operator, admin, no_volume, volume, service,
  put_volume, put_service,
}
use sistema_operativo.Servers.Audit.{add_audit_log}
use sistema_operativo.Servers.Session.{require_role, with_role}
use sistema_operativo.Servers.Lookup.{
  found, is_file, find_dir, fs_dir_exists, fs_find_file, free_dir, free_file, find_from, lies_in,
  find_server,
}
use sistema_operativo.Servers.Lifecycle.{at_server}
use sistema_operativo.Servers.Files.{at_active, file_at}
use sistema_operativo.Servers.Lifecycle.{
  command_server_start, command_server_stop, command_server_restart, command_server_backup,
  command_server_restore,
}
use sistema_operativo.Servers.Files.{
  command_server_fs_mkdir, command_server_fs_touch, command_server_fs_write, command_server_fs_rm,
  command_server_fs_rmdir, command_server_fs_chmod,
}
use sistema_operativo.Servers.Apache.{command_apache_rm}
use sistema_operativo.Servers.Command.{
  Command, start, stop, restart, backup, restore, mkdir, rmdir, touch, rm, write, chmod, apache_add,
  apache_rm, run, run_all,
}
use sistema_operativo.Servers.Fits.{all_written}
use sistema_operativo.Servers.Names.{
  VolumeNames, ServersNames, kept_file, gone_dir, new_dir, new_file,
}

-- The names of directories and files are as short as the shell takes them; `apache_add` is left out, which
-- does not look for the name.
abbrev pub IsTidy : Command → Type 0
IsTidy (mkdir srv dir) = length dir < 16
IsTidy (touch srv dir file) = (length dir < 16) × (length file < 16)
IsTidy (apache_add name content) = ⊥
IsTidy _ = Unit {0}

abbrev NamesOf : Reply → Type 0
NamesOf r = ServersNames r.0

module _ (s : Servers) (h : ServersNames s) where
  served :
      (i : ℕ) (x : ServerService) (entry : CStr)
      → ServersNames (add_audit_log entry (put_service i x s))
  unfolding add_audit_log
  served i x entry = h

  stored :
      (i : ℕ) (v : Volume) (entry : CStr)
      → (VolumeNames (volume s i) → VolumeNames v)
      → ServersNames (add_audit_log entry (put_volume i v s))
  unfolding add_audit_log
  stored i v entry k = all_written VolumeNames s.volumes i v no_volume h k

  role_Names : (role : Role) (rest : Reply) → NamesOf rest → NamesOf (with_role role s rest)
  role_Names role rest k = if_both NamesOf (require_role role s).0 k h

  at_server_Names :
      (name : CStr) (rest : ℕ → Reply)
      → ((i : ℕ) → NamesOf (rest i))
      → NamesOf (at_server name s rest)
  at_server_Names name rest k = or_else_ind NamesOf (find_server name s.table) (λ _. h) λ i _. k i

  at_active_Names :
      (name message : CStr) (rest : ℕ → Reply)
      → ((i : ℕ) → NamesOf (rest i))
      → NamesOf (at_active name s message rest)
  at_active_Names name message rest k =
      or_else_ind NamesOf (find_server name s.table) (λ _. h)
        λ i _. if_both NamesOf (service s i).active (k i) h

  run-Names : (c : Command) → IsTidy c → NamesOf (run c s)
  unfolding run command_server_start command_server_stop command_server_restart
      command_server_backup command_server_restore command_server_fs_mkdir command_server_fs_touch
      command_server_fs_write command_server_fs_rm command_server_fs_rmdir command_server_fs_chmod
      command_apache_rm
  run-Names (start srv) t = role_Names operator _ (at_server_Names srv _ λ i. served i _ _)
  run-Names (stop srv) t = role_Names operator _ (at_server_Names srv _ λ i. served i _ _)
  run-Names (restart srv) t = role_Names operator _ (at_server_Names srv _ λ i. served i _ _)
  run-Names (backup srv) t = role_Names operator _ (
      at_server_Names srv _ λ i. stored i _ _ λ n. record { tree = n.tree; snapshot = λ _. n.tree })
  run-Names (restore srv) t = role_Names admin _ (
      at_server_Names srv _ λ i.
        if_ind NamesOf (volume s i).snapshot.valid
          (λ e. stored i _ _ λ n. record { tree = n.snapshot e; snapshot = n.snapshot }) λ _. h)
  run-Names (mkdir srv dir) t = role_Names operator _ (
      at_active_Names srv _ _ λ x.
        if_ind NamesOf (fs_dir_exists dir (volume s x).dirs) (λ _. h)
          λ e.
            or_else_ind NamesOf (free_dir (volume s x).dirs) (λ _. h)
              λ i _. stored x _ _ λ n. new_dir (volume s x) n i dir t e)
  run-Names (rmdir srv dir) t = role_Names admin _ (
      at_server_Names srv _ λ x.
        if_both NamesOf (found (find_from (lies_in dir) 0 (volume s x).files)) h (
          or_else_ind NamesOf (find_dir dir (volume s x).dirs) (λ _. h)
            λ i _. stored x _ _ λ n. gone_dir (volume s x) n i _ refl))
  run-Names (touch srv dir file) t = role_Names operator _ (
      at_active_Names srv _ _ λ x.
        if_both NamesOf (fs_dir_exists dir (volume s x).dirs)
          (if_ind NamesOf (found (fs_find_file dir file (volume s x).files)) (λ _. h)
            λ e.
              or_else_ind NamesOf (free_file (volume s x).files) (λ _. h)
                λ i _. stored x _ _ λ n. new_file (volume s x) n i dir file t.0 t.1 e)
          h)
  run-Names (rm srv dir file) t = role_Names admin _ (
      at_server_Names srv _ λ x.
        or_else_ind NamesOf (fs_find_file dir file (volume s x).files) (λ _. h)
          λ i _. stored x _ _ λ n. kept_file (volume s x) n i _ (λ u. cc (u)) refl refl)
  run-Names (write srv dir file content) t = role_Names operator _ (
      at_active_Names srv _ _ λ x.
        or_else_ind NamesOf (fs_find_file dir file (volume s x).files) (λ _. h)
          λ i _.
            if_both NamesOf (file_at (volume s x) i).perm_write
              (stored x _ _ λ n. kept_file (volume s x) n i _ (λ u. u) refl refl) h)
  run-Names (chmod srv dir file mode) t = role_Names admin _ (
      at_server_Names srv _ λ x.
        or_else_ind NamesOf (fs_find_file dir file (volume s x).files) (λ _. h)
          λ i _.
            if_both NamesOf (streq mode (str "r"))
              (stored x _ _ λ n. kept_file (volume s x) n i _ (λ u. u) refl refl)
              (if_both NamesOf (streq mode (str "w"))
                (stored x _ _ λ n. kept_file (volume s x) n i _ (λ u. u) refl refl)
                (if_both NamesOf (streq mode (str "rw"))
                  (stored x _ _ λ n. kept_file (volume s x) n i _ (λ u. u) refl refl) h)))
  run-Names (apache_add name content) t = absurd t
  run-Names (apache_rm name) t = role_Names operator _ (
      or_else_ind NamesOf (find_server (str "apache") s.table) (λ _. h)
        λ x _.
          or_else_ind NamesOf (find_from (is_file (str "www") name) 0 (volume s x).files) (λ _. h)
            λ i _. stored x _ _ λ n. kept_file (volume s x) n i _ (λ u. cc (u)) refl refl)

abbrev pub AreTidy : List Command → Type 0
AreTidy [] = Unit {0}
AreTidy (c ∷ cs) = IsTidy c × AreTidy cs

-- If in every file system the directories in use have distinct names, and the files in use in one directory
-- too, it stays so, in the snapshots as well, whatever commands follow but `apache add`. New names have
-- at most 15 bytes.
pub run_all-ServersNames :
    (cs : List Command) (s : Servers) → AreTidy cs → ServersNames s → ServersNames (run_all cs s)
unfolding run_all
run_all-ServersNames [] s t h = h
run_all-ServersNames (c ∷ cs) s t h = run_all-ServersNames cs (run c s).0 t.1 (run-Names s h c t.0)
