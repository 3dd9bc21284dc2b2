-- ===== src/Servers/Audit.antt =====
-- add_audit_log and command_server_audit of mi_so_completo/src/servers.c.
use sistema_operativo.Prelude.{List, [], ◌∷◌, ◌++◌, map, length, drop, ltb, if◌then◌else◌}
use sistema_operativo.Utils.{CStr, str, copied}
use sistema_operativo.Console.{Output, text}
use sistema_operativo.Servers.Types.{Servers, max_audit_logs}

-- A full log is moved down by one entry, by copy_string.
unfoldable pub append_log : CStr → List CStr → List CStr
append_log entry logs =
    if ltb (length logs) max_audit_logs
    then logs ++ (copied entry 64 ∷ [])
    else map (λ l. copied l 64) (drop 1 logs) ++ (copied entry 64 ∷ [])

unfoldable pub add_audit_log : CStr → Servers → Servers
add_audit_log entry s = record s { audit_logs = append_log entry s.audit_logs }

show_logs : List CStr → List Output
show_logs [] = []
show_logs (l ∷ logs) = text (str " - ") 0x0F ∷ text l 0x0F ∷ text (str "\n") 0x0F ∷ show_logs logs

unfoldable pub command_server_audit : Servers → List Output
unfolding show_logs
command_server_audit s = text (str "AUDITORIA:\n") 0x0B ∷ show_logs s.audit_logs
