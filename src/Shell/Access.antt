-- ===== src/Shell/Access.antt =====
-- What can be done at the shell without a session.
use sistema_operativo.Prelude.{ℕ, zero, suc, ◌≡◌, refl, false, Option, subst, sym}
use sistema_operativo.Utils.{copied, CStr, str, starts_with}
use sistema_operativo.Servers.Types.{Servers, Reply}
use sistema_operativo.Servers.Audit.{add_audit_log}
use sistema_operativo.Servers.Session.{command_logout}
use sistema_operativo.Servers.Apache.{simulate, rounds, command_apache_simulate}
use sistema_operativo.Servers.Command.{Command, run, needs}
use sistema_operativo.Servers.Access.{IsAllowed, run_refused}
use sistema_operativo.Shell.Effects.{Holds, execute_command-Holds}
use sistema_operativo.Shell.Execute.{Reaction, Setting, execute_command}

-- `t` has the servers and the file systems of `s`, and no session is open.
pub record IsLocked (s t : Servers) : Type 0 where
  pub table : t.table ≡ s.table
  pub volumes : t.volumes ≡ s.volumes
  pub closed : t.session_authenticated ≡ false

abbrev LockedReply : Servers → Reply → Type 0
LockedReply s r = IsLocked s r.0

module _ (s : Servers) (closed : s.session_authenticated ≡ false) where
  pub same-IsLocked : IsLocked s s
  same-IsLocked = record { table = refl; volumes = refl; closed = closed }

  -- A command that needs a role is refused.
  run-IsLocked : (c : Command) → LockedReply s (run c s)
  run-IsLocked c =
      subst (λ t. IsLocked s t)
        (sym (run_refused c s (λ (a : IsAllowed (needs c) s). cc (a.0, closed))).0) same-IsLocked

simulate-IsLocked :
    (n : ℕ) (s : Servers) → s.session_authenticated ≡ false → LockedReply s (simulate n s)
unfolding simulate add_audit_log
simulate-IsLocked zero s closed = same-IsLocked s closed
simulate-IsLocked (suc n) s closed =
    let t = add_audit_log (copied (str "apache: GET /index.html 200\n") 64) s in
    let h = simulate-IsLocked n t closed in
    record { table = h.table; volumes = h.volumes; closed = h.closed }

-- After the command, if it returns, the servers are as in `s` and no session is open.
abbrev pub ReactsLocked : Servers → Option Reaction → Type 0
ReactsLocked s r = Holds (IsLocked s) r

logout-IsLocked : (s : Servers) → LockedReply s (command_logout s)
unfolding command_logout add_audit_log
logout-IsLocked s = record { table = refl; volumes = refl; closed = refl }

-- While no session is open, no line but a login changes the servers or their file systems or opens
-- a session.
pub execute_command-ReactsLocked :
    (command : CStr) (e : Setting)
    → e.machine.servers.session_authenticated ≡ false
    → starts_with command (str "login ") ≡ false
    → ReactsLocked e.machine.servers (execute_command command e)
execute_command-ReactsLocked command e closed no_login =
    let s = e.machine.servers in
    execute_command-Holds (IsLocked s) e (same-IsLocked s closed) (run-IsLocked s closed)
      (λ n. unfold command_apache_simulate in simulate-IsLocked (rounds n) s closed)
      (logout-IsLocked s) command (λ h. absurd (cc (h, no_login)))
