-- ===== src/Servers/Access.antt =====
-- Who may do what: require_role, login and logout against the commands.
use sistema_operativo.Prelude.{
  ◌≤◌, ◌≡◌, ◌≢◌, ◌⊎◌, ◌↔◌, refl, true, false, ◌&&◌, [], ◌∷◌, arith, inl, inr, Bool-cases,
}
use sistema_operativo.Utils.{CStr, streq, str}
use sistema_operativo.Utils.Text.{streq_iff}
use sistema_operativo.Console.{text}
use sistema_operativo.Servers.Types.{Servers, Role, viewer, operator, admin, rank}
use sistema_operativo.Servers.Audit.{add_audit_log}
use sistema_operativo.Servers.Session.{require_role, role_name, command_login, command_logout}
use sistema_operativo.Servers.Lifecycle.{
  command_server_start, command_server_stop, command_server_restart, command_server_backup,
  command_server_restore,
}
use sistema_operativo.Servers.Files.{
  command_server_fs_mkdir, command_server_fs_touch, command_server_fs_write, command_server_fs_rm,
  command_server_fs_rmdir, command_server_fs_chmod,
}
use sistema_operativo.Servers.Apache.{command_apache_add, command_apache_rm}
use sistema_operativo.Servers.Command.{Command, start, run, needs}

-- The session is open with a role of at least `min_role`.
abbrev pub IsAllowed : Role → Servers → Type 0
IsAllowed min_role s = (s.session_authenticated ≡ true) × (rank min_role ≤ rank s.current_role)

pub require_role_iff :
    (min_role : Role) (s : Servers) → ((require_role min_role s).0 ≡ true) ↔ IsAllowed min_role s
unfolding require_role
require_role_iff min_role s = ground arith

refused_lem :
    (c : Command) (s : Servers)
    → (require_role (needs c) s).0 ≡ false
    → run c s ≡ (s, (require_role (needs c) s).1)
unfolding run command_server_start command_server_stop command_server_restart command_server_backup
    command_server_restore command_server_fs_mkdir command_server_fs_touch command_server_fs_write
    command_server_fs_rm command_server_fs_rmdir command_server_fs_chmod command_apache_add
    command_apache_rm
refused_lem (start srv) s h = rw h
refused_lem _ s h = rw h

refusal :
    (min_role : Role) (s : Servers)
    → (require_role min_role s).0 ≡ false
    → (message : CStr) × ((require_role min_role s).1 ≡ text message 0x0C ∷ [])
unfolding require_role
refusal min_role s f = elim (Bool-cases s.session_authenticated) [
  | inl t ↦ (str "Error: permisos insuficientes para esta operacion\n", ground arith)
  | inr g ↦ (str "Error: sesion no autenticada. Usa login <rol> <clave>\n", ground arith)
]

-- A command for which the session does not have the role changes nothing at all: not the servers,
-- their files or snapshots, not the session and not the audit log. It prints one message.
pub run_refused :
    (c : Command) (s : Servers)
    → ¬ IsAllowed (needs c) s
    → ((run c s).0 ≡ s) × ((message : CStr) × ((run c s).1 ≡ text message 0x0C ∷ []))
run_refused c s h = elim (Bool-cases (require_role (needs c) s).0) [
  | inl t ↦ absurd (h ((require_role_iff (needs c) s).0 t))
  | inr f ↦ rw (refused_lem c s f) (refl, refusal (needs c) s f)
]

-- The password of a role.
abbrev pub password : Role → CStr
password admin = str "admin123"
password operator = str "operator123"
password viewer = str "viewer123"

-- The session is open with role `r`, and the servers and their files are as in `s`.
pub record IsLoggedIn (r : Role) (s t : Servers) : Type 0 where
  pub role : t.current_role ≡ r
  pub session : t.session_authenticated ≡ true
  pub table : t.table ≡ s.table
  pub volumes : t.volumes ≡ s.volumes

-- `role` and `pass` are the name and the password of `r`.
abbrev pub IsCredential : CStr → CStr → Role → Type 0
IsCredential role pass r = (role ≡ role_name r) × (pass ≡ password r)

IsCredential-iff :
    (role pass : CStr) (r : Role)
    → ((streq role (role_name r) && streq pass (password r)) ≡ true) ↔ IsCredential role pass r
IsCredential-iff role pass r =
    ground (arith, streq_iff role (role_name r), streq_iff pass (password r))

-- Login opens a session exactly for the three pairs of a role and its password, with that role; any
-- other pair leaves the state as it was.
pub command_login_lem :
    (role pass : CStr) (s : Servers)
    → ((r : Role) × IsCredential role pass r × IsLoggedIn r s (command_login role pass s).0)
      ⊎ (((r : Role) → ¬ IsCredential role pass r) × ((command_login role pass s).0 ≡ s))
unfolding command_login role_name add_audit_log
command_login_lem role pass s =
    elim (Bool-cases (streq role (str "admin") && streq pass (str "admin123"))) [
      | inl a ↦ inl (
        admin,
        (IsCredential-iff role pass admin).0 a,
        rw a (record { role = refl; session = refl; table = refl; volumes = refl }),
      )
      | inr a ↦ elim (Bool-cases (streq role (str "operator") && streq pass (str "operator123"))) [
        | inl b ↦ inl (
          operator,
          (IsCredential-iff role pass operator).0 b,
          rw (a, b) (record { role = refl; session = refl; table = refl; volumes = refl }),
        )
        | inr b ↦ elim (Bool-cases (streq role (str "viewer") && streq pass (str "viewer123"))) [
          | inl c ↦ inl (
            viewer,
            (IsCredential-iff role pass viewer).0 c,
            rw (a, b, c) (record { role = refl; session = refl; table = refl; volumes = refl }),
          )
          | inr c ↦ inr (none_fits a b c, rw (a, b, c))
        ]
      ]
    ]
  where
    none_fits :
        (streq role (str "admin") && streq pass (str "admin123")) ≡ false
        → (streq role (str "operator") && streq pass (str "operator123")) ≡ false
        → (streq role (str "viewer") && streq pass (str "viewer123")) ≡ false
        → (r : Role) → ¬ IsCredential role pass r
    none_fits a b c admin h = cc (a, (IsCredential-iff role pass admin).1 h)
    none_fits a b c operator h = cc (b, (IsCredential-iff role pass operator).1 h)
    none_fits a b c viewer h = cc (c, (IsCredential-iff role pass viewer).1 h)

-- After a logout every command that needs a role is refused.
pub run-logout : (c : Command) (s : Servers) → (run c (command_logout s).0).0 ≡ (command_logout s).0
run-logout c s = (run_refused c (command_logout s).0 (λ a. closed a.0)).0
  where
    closed : (command_logout s).0.session_authenticated ≢ true
    closed = unfold command_logout add_audit_log in (λ e. cc)
