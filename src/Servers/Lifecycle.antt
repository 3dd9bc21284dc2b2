-- ===== src/Servers/Lifecycle.antt =====
-- The table of servers of mi_so_completo/src/servers.c: set up, listing, start, stop, restart,
-- backup and restore.
use sistema_operativo.Prelude.{
  ℕ, ◌+◌, Bool, true, false, List, [], ◌∷◌, ◌++◌, length, leb, if◌then◌else◌, or_else, pos,
}
use sistema_operativo.Utils.{CStr, str, copied, int_to_str}
use sistema_operativo.Console.{Output, text, serial}
use sistema_operativo.Servers.Types.{
  ServerService, Volume, Servers, operator, admin, Reply, max_servers, service, put_service, volume,
  put_volume, refuse,
}
use sistema_operativo.Servers.Audit.{add_audit_log}
use sistema_operativo.Servers.Session.{with_role}
use sistema_operativo.Servers.Lookup.{find_server}

unfoldable pub add_server : CStr → Bool → ℕ → ℕ → ℕ → Servers → Servers
add_server name active cpu mem health s = if leb max_servers (length s.table) then s else record s {
  table =
      s.table
      ++ (record {
        name = copied name 16;
        active = active;
        cpu_load = cpu;
        memory_mb = mem;
        health = health;
        restarts = 0;
      }
          ∷ []);
}

unfoldable pub init_server_manager : Servers → Reply
init_server_manager s =
    let s0 = record s { table = [] } in
    let s1 = add_server (str "nginx") true 12 64 95 s0 in
    let s2 = add_server (str "apache") true 5 128 98 s1 in
    let s3 = add_server (str "postgres") true 20 512 97 s2 in
    let s4 = add_server (str "redis") true 6 128 96 s3 in
    let s5 = add_server (str "sshd") true 2 32 99 s4 in
    let s6 = add_server (str "api-gateway") false 0 96 88 s5 in
    let s7 = add_server (str "worker-1") true 18 256 93 s6 in
    let s8 = add_server (str "worker-2") true 21 256 91 s7 in
    let s9 = add_server (str "worker-3") false 0 256 90 s8 in
    (s9, serial (str "[init] apache server registered\n") ∷ [])

list_row : ServerService → List Output
list_row x =
    text (str " - ") 0x0F
    ∷ text x.name 0x0F
    ∷ text (str " ") 0x0F
    ∷ (if x.active then text (str "UP ") 0x0A else text (str "DOWN ") 0x0C)
    ∷ text (int_to_str (pos x.cpu_load)) 0x0F
    ∷ text (str "% ") 0x0F
    ∷ text (int_to_str (pos x.memory_mb)) 0x0F
    ∷ text (str "MB ") 0x0F
    ∷ text (int_to_str (pos x.health)) 0x0F
    ∷ text (str "%\n") 0x0F
    ∷ []

list_rows : List ServerService → List Output
list_rows [] = []
list_rows (x ∷ xs) = list_row x ++ list_rows xs

unfoldable pub command_server_list : Servers → List Output
unfolding list_row list_rows
command_server_list s = text (str "SERVIDOR      ESTADO CPU MEM  SALUD\n") 0x0B ∷ list_rows s.table

status_of : ServerService → List Output
status_of x =
    text (str "Servidor: ") 0x0E
    ∷ text x.name 0x0E
    ∷ text (str "\n") 0x0E
    ∷ text (str "Estado: ") 0x0E
    ∷ (if x.active then text (str "UP\n") 0x0A else text (str "DOWN\n") 0x0C)
    ∷ text (str "CPU: ") 0x0E
    ∷ text (int_to_str (pos x.cpu_load)) 0x0E
    ∷ text (str "%\n") 0x0E
    ∷ []

unfoldable pub command_server_status : CStr → Servers → List Output
unfolding status_of
command_server_status name s =
    or_else (find_server name s.table) (text (str "Error: servidor no existe\n") 0x0C ∷ [])
      (λ i. status_of (service s i))

-- if (i < 0) { error; return; } and the rest of the command at server `i`
abbrev pub at_server : CStr → Servers → (ℕ → Reply) → Reply
at_server name s rest =
    or_else (find_server name s.table) (refuse s (str "Error: servidor no existe\n")) (λ i. rest i)

-- The change, the audit entry and the message of a command that succeeds.
abbrev pub done : Servers → CStr → CStr → Reply
done s entry message = (add_audit_log entry s, text message 0x0A ∷ [])

unfoldable pub command_server_start : CStr → Servers → Reply
command_server_start name s = with_role operator s (
    at_server name s λ i.
      done (put_service i (record (service s i) { active = true }) s) (str "server start")
        (str "Servidor iniciado\n"))

unfoldable pub command_server_stop : CStr → Servers → Reply
command_server_stop name s = with_role operator s (
    at_server name s λ i.
      done (put_service i (record (service s i) { active = false }) s) (str "server stop")
        (str "Servidor detenido\n"))

unfoldable pub command_server_restart : CStr → Servers → Reply
command_server_restart name s = with_role operator s (
    at_server name s λ i.
      let x = service s i in
      done (put_service i (record x { active = true; restarts = x.restarts + 1 }) s)
        (str "server restart") (str "Servidor reiniciado\n"))

-- The loops copy every slot of the two arrays.
abbrev pub save : Volume → Volume
save v = record v { snapshot = record { dirs = v.dirs; files = v.files; valid = true } }

abbrev pub load : Volume → Volume
load v = record v { dirs = v.snapshot.dirs; files = v.snapshot.files }

unfoldable pub command_server_backup : CStr → Servers → Reply
command_server_backup name s = with_role operator s (
    at_server name s
      λ i. done (put_volume i (save (volume s i)) s) (str "backup") (str "Backup completado\n"))

unfoldable pub command_server_restore : CStr → Servers → Reply
command_server_restore name s = with_role admin s (
    at_server name s λ i.
      if (volume s i).snapshot.valid
      then done (put_volume i (load (volume s i)) s) (str "restore") (str "Restore completado\n")
      else refuse s (str "Error: no existe backup\n"))
