-- ===== src/Servers/Recovery.antt =====
-- Backup and restore of servers.c.
use sistema_operativo.Prelude.{
  ℕ, ◌<◌, ◌≡◌, ◌∙◌, ap, true, some, List, arith, length, get_or-write_at_self,
}
use sistema_operativo.Utils.{CStr, str}
use sistema_operativo.Servers.Types.{
  Servers, ServerSnapshot, Volume, operator, admin, volume, put_volume, no_volume,
}
use sistema_operativo.Servers.Audit.{add_audit_log}
use sistema_operativo.Servers.Lookup.{find_server}
use sistema_operativo.Servers.Lifecycle.{save, load, command_server_backup, command_server_restore}
use sistema_operativo.Servers.Command.{Command, run, run_all, backup, restore}
use sistema_operativo.Servers.Kept.{Kept, NoBackup, run_all-Kept}
use sistema_operativo.Servers.Access.{IsAllowed, require_role_iff}

backup_lem :
    (name : CStr) (s : Servers) (i : ℕ)
    → IsAllowed operator s
    → find_server name s.table ≡ some i
    → (run (backup name) s).0 ≡ add_audit_log (str "backup") (put_volume i (save (volume s i)) s)
unfolding run command_server_backup
backup_lem name s i a e = rw ((require_role_iff operator s).1 a, e)

restore_lem :
    (name : CStr) (s : Servers) (i : ℕ)
    → IsAllowed admin s
    → find_server name s.table ≡ some i
    → (volume s i).snapshot.valid ≡ true
    → (run (restore name) s).0 ≡ add_audit_log (str "restore") (put_volume i (load (volume s i)) s)
unfolding run command_server_restore
restore_lem name s i a e v = rw ((require_role_iff admin s).1 a, e, v)

-- What the volume of server `i` is after a write of it.
pub volume-put_volume :
    (i : ℕ) (v : Volume) (entry : CStr) (s : Servers)
    → volume (add_audit_log entry (put_volume i v s)) i ≡ v
unfolding add_audit_log
volume-put_volume i v entry s = get_or-write_at_self s.volumes i v no_volume

-- Backup a server in a session of the administrator and then run any commands but backups:
-- deleting, writing, stopping, even other restores. A restore brings back the directories and files
-- of the moment of the backup.
pub restore-backup :
    (name : CStr) (i : ℕ) (cs : List Command) (s : Servers)
    → IsAllowed admin s
    → find_server name s.table ≡ some i
    → i < length s.volumes
    → NoBackup cs
    → let t = (run (restore name) (run_all cs (run (backup name) s).0)).0 in
      ((volume t i).dirs ≡ (volume s i).dirs) × ((volume t i).files ≡ (volume s i).files)
restore-backup name i cs s a e h n =
    rw
      (
        restore_lem name t i allowed named valid,
        volume-put_volume i (load (volume t i)) (str "restore") t,
      )
      (ap (λ (x : ServerSnapshot). x.dirs) snap, ap (λ (x : ServerSnapshot). x.files) snap)
  where
    b : Servers
    b = (run (backup name) s).0

    t : Servers
    t = run_all cs b

    b_lem : b ≡ add_audit_log (str "backup") (put_volume i (save (volume s i)) s)
    b_lem = backup_lem name s i (ground arith) e

    kept : Kept b t
    kept = run_all-Kept cs b n

    allowed : IsAllowed admin t
    allowed = rw (kept.role, kept.session, b_lem) (unfold add_audit_log in a)

    named : find_server name t.table ≡ some i
    named = rw (kept.names name, b_lem) (unfold add_audit_log in e)

    snap : (volume t i).snapshot ≡ (save (volume s i)).snapshot
    snap = kept.snapshots i ∙ rw (b_lem, volume-put_volume i (save (volume s i)) (str "backup") s)

    valid : (volume t i).snapshot.valid ≡ true
    valid = rw snap
