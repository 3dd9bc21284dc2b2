-- ===== src/Servers/Session.antt =====
-- The session of mi_so_completo/src/servers.c: login, logout and the check of roles.
use sistema_operativo.Prelude.{Bool, true, false, List, [], ◌∷◌, ◌&&◌, ltb, if◌then◌else◌}
use sistema_operativo.Utils.{CStr, str, streq}
use sistema_operativo.Console.{Output, text}
use sistema_operativo.Servers.Types.{Servers, Role, viewer, operator, admin, rank, Reply, refuse}
use sistema_operativo.Servers.Audit.{add_audit_log}

unfoldable pub role_name : Role → CStr
role_name admin = str "admin"
role_name operator = str "operator"
role_name viewer = str "viewer"

-- The result of require_role and what it prints.
unfoldable pub require_role : Role → Servers → Bool × List Output
require_role min_role s =
    if s.session_authenticated
    then if ltb (rank s.current_role) (rank min_role)
      then (false, text (str "Error: permisos insuficientes para esta operacion\n") 0x0C ∷ [])
      else (true, [])
    else (false, text (str "Error: sesion no autenticada. Usa login <rol> <clave>\n") 0x0C ∷ [])

-- if (!require_role(min_role)) return; and the rest of the command
abbrev pub with_role : Role → Servers → Reply → Reply
with_role min_role s rest =
    if (require_role min_role s).0 then rest else (s, (require_role min_role s).1)

-- One of the three blocks of command_login.
abbrev pub open_session : Role → CStr → CStr → Servers → Reply
open_session role entry message s = (
  add_audit_log entry (record s { current_role = role; session_authenticated = true }),
  text message 0x0A ∷ [],
)

unfoldable pub command_login : CStr → CStr → Servers → Reply
command_login role pass s =
    if streq role (str "admin") && streq pass (str "admin123")
    then open_session admin (str "login admin") (str "Login admin OK\n") s
    else if streq role (str "operator") && streq pass (str "operator123")
    then open_session operator (str "login operator") (str "Login operator OK\n") s
    else if streq role (str "viewer") && streq pass (str "viewer123")
    then open_session viewer (str "login viewer") (str "Login viewer OK\n") s
    else refuse s (str "Error: credenciales invalidas\n")

unfoldable pub command_logout : Servers → Reply
command_logout s = (
  add_audit_log (str "logout") (record s { session_authenticated = false; current_role = viewer }),
  text (str "Sesion cerrada\n") 0x0A ∷ [],
)
