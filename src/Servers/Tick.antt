-- ===== src/Servers/Tick.antt =====
-- server_tick of mi_so_completo/src/servers.c: the simulated load, every hundredth tick.
use sistema_operativo.Prelude.{
  ℕ, ◌+◌, ◌-◌, ◌/◌, ◌%◌, Bool, false, List, [], ◌∷◌, ◌++◌, get_or, ltb, ◌==◌, if◌then◌else◌, pos,
}
use sistema_operativo.Utils.{CStr, str, streq, copied, int_to_str, strlen}
use sistema_operativo.Console.{Output, serial}
use sistema_operativo.Servers.Types.{ServerService, Servers, Reply}
use sistema_operativo.Servers.Audit.{append_log}

-- The two characters that tbuf takes of th, tm or ts.
unfoldable pub two_digits : ℕ → CStr
two_digits n =
    let t = int_to_str (pos n) in
    if ltb n 10 then b'0' ∷ get_or t 0 0 ∷ [] else get_or t 0 0 ∷ get_or t 1 0 ∷ []

-- HH:MM:SS
unfoldable pub time_stamp : ℕ → CStr
time_stamp timer_ticks =
    let secs = timer_ticks / 100 in
    two_digits (secs / 3600 % 24)
    ++ (b':' ∷ (two_digits (secs / 60 % 60) ++ (b':' ∷ two_digits (secs % 60))))

unfoldable pub remote_ip : ℕ → CStr
remote_ip timer_ticks =
    copied (str "192.168.") 24
    ++ (int_to_str (pos (timer_ticks / 50 % 255))
        ++ (b'.' ∷ int_to_str (pos (timer_ticks / 7 % 255))))

-- copy_string(buf + strlen(buf), s, 128 - strlen(buf));
abbrev pub append_to : CStr → CStr → CStr
append_to buf s = buf ++ copied s (128 - strlen buf)

unfoldable pub request_log : ℕ → CStr
request_log timer_ticks =
    append_to
      (append_to
        (append_to (append_to (copied (time_stamp timer_ticks) 128) (str " "))
          (remote_ip timer_ticks))
        (str " \"GET /index.html HTTP/1.1\" 200"))
      (str "\n")

-- The new load of server `i`.
abbrev pub next_load : ℕ → ℕ → ℕ
next_load i load = let l = (load + i + 3) % 60 in if ltb l 3 then 3 else l

unfoldable pub tick_service : ℕ → ServerService → ServerService
tick_service i x =
    let l = next_load i x.cpu_load in
    if x.active
    then if streq x.name (str "apache")
      then record x { cpu_load = (l + 5) % 100 }
      else record x { cpu_load = l }
    else x

-- Whether the tick of this server writes a request to the log.
abbrev pub serves_request : ServerService → Bool
serves_request x = if x.active then streq x.name (str "apache") else false

-- The loop from server `i` on, over the table and the audit log.
unfoldable pub tick_from :
    ℕ → ℕ → List ServerService → List CStr → List ServerService × List CStr × List Output
tick_from timer_ticks i [] logs = ([], logs, [])
tick_from timer_ticks i (x ∷ xs) logs =
    let hit = serves_request x in
    let entry = request_log timer_ticks in
    let (xs', logs', out) =
      tick_from timer_ticks (i + 1) xs (if hit then append_log entry logs else logs) in
    (tick_service i x ∷ xs', logs', if hit then serial entry ∷ out else out)

-- process_tick calls it with `timer_ticks`, which it also reads for the time.
unfoldable pub server_tick : ℕ → Servers → Reply
server_tick ticks s =
    let (table, logs, out) = tick_from ticks 0 s.table s.audit_logs in
    if ticks % 100 == 0 then (record s { table = table; audit_logs = logs }, out) else (s, [])
