-- ===== src/Servers/Bounds.antt =====
-- The operations of servers.c and the bounds of its table, its file systems and its audit log.
use sistema_operativo.Prelude.{
  ℕ, zero, suc, ◌+◌, ◌-◌, ◌≤◌, ◌<◌, ◌≡◌, refl, ap, true, false, List, [], ◌∷◌, ◌++◌, length,
  length-write_at, length-write_at_le, length-append, length-map, get_or, write_at, map, drop,
  arith, ltb, if_ind, if_both, ◌%◌, ◌==◌, ◌&&◌, if◌then◌else◌, ℤ, Bool,
}
use sistema_operativo.Console.{Output}
use sistema_operativo.Utils.{CStr, str, streq, copied}
use sistema_operativo.Utils.Copy.{length-copied}
use sistema_operativo.Servers.Types.{
  ServerService, Volume, Servers, max_servers, max_audit_logs, no_service, no_volume, Reply, volume,
  put_volume, put_service, Role, admin, operator, viewer,
}
use sistema_operativo.Servers.Audit.{append_log, add_audit_log}
use sistema_operativo.Servers.Session.{command_login, command_logout}
use sistema_operativo.Servers.Lifecycle.{save}
use sistema_operativo.Servers.Apache.{command_apache_simulate, simulate, rounds}
use sistema_operativo.Servers.Tick.{
  tick_service, tick_from, server_tick, serves_request, request_log,
}
use sistema_operativo.Servers.Command.{Command, run}
use sistema_operativo.Servers.Steps.{Step, refused, served, stored, saved, run-Step}
use sistema_operativo.Servers.Fits.{VolumeFits, Change-Fits, all_written}

abbrev pub AllOf {ℓ} : {A : Type ℓ} → (A → Type 0) → List A → Type 0
AllOf P [] = Unit {0}
AllOf P (x ∷ xs) = P x × AllOf P xs

module _ {ℓ} {A : Type ℓ} (P : A → Type 0) where
  pub AllOf-append : (xs : List A) (y : A) → AllOf P xs → P y → AllOf P (xs ++ (y ∷ []))
  AllOf-append [] y h k = (k, tt)
  AllOf-append (x ∷ xs) y h k = (h.0, AllOf-append xs y h.1 k)

  AllOf-write_at :
      (xs : List A) (i : ℕ) (x d : A)
      → i < length xs
      → AllOf P xs
      → (P (get_or xs i d) → P x)
      → AllOf P (write_at xs i x d)
  AllOf-write_at [] i x d room h k = absurd (omega arith)
  AllOf-write_at (y ∷ xs) zero x d room h k = (k h.0, h.1)
  AllOf-write_at (y ∷ xs) (suc i) x d room h k = (h.0, AllOf-write_at xs i x d (omega arith) h.1 k)

  AllOf-map : (f : A → A) (xs : List A) → ((x : A) → P (f x)) → AllOf P (map f xs)
  AllOf-map f [] h = tt
  AllOf-map f (x ∷ xs) h = (h x, AllOf-map f xs h)

-- At most 32 entries of at most 63 bytes.
abbrev pub LogFits : List CStr → Type 0
LogFits logs = (length logs ≤ max_audit_logs) × AllOf (λ (l : CStr). length l < 64) logs

-- At most 8 servers with names of at most 15 bytes.
abbrev pub TableFits : List ServerService → Type 0
TableFits xs = (length xs ≤ max_servers) × AllOf (λ (x : ServerService). length x.name < 16) xs

pub record ServersFit (s : Servers) : Type 0 where
  pub table : TableFits s.table
  pub logs : LogFits s.audit_logs
  pub volume_count : length s.volumes ≤ max_servers
  pub volumes : (i : ℕ) → VolumeFits (volume s i)

length-drop_one : (logs : List CStr) → length (drop 1 logs) ≤ length logs - 1
length-drop_one [] = omega arith
length-drop_one (l ∷ logs) = omega arith

append_log-Fits : (entry : CStr) (logs : List CStr) → LogFits logs → LogFits (append_log entry logs)
unfolding append_log
append_log-Fits entry logs h =
    if_ind LogFits (ltb (length logs) max_audit_logs)
      (λ room. (
        ground (arith, length-append logs (copied entry 64 ∷ [])),
        AllOf-append _ logs (copied entry 64) h.1 (length-copied entry 64 (omega arith)),
      ))
      (λ full. (
        omega (
          arith,
          h.0,
          length-drop_one logs,
          length-map (λ l. copied l 64) (drop 1 logs),
          length-append (map (λ l. copied l 64) (drop 1 logs)) (copied entry 64 ∷ []),
        ),
        AllOf-append _ _ (copied entry 64)
            (AllOf-map _ (λ l. copied l 64) (drop 1 logs) (λ l. length-copied l 64 (omega arith)))
            (length-copied entry 64 (omega arith)),
      ))

add_audit_log-Fits :
    (entry : CStr) (s : Servers) → ServersFit s → ServersFit (add_audit_log entry s)
unfolding add_audit_log
add_audit_log-Fits entry s h = record {
  table = h.table;
  logs = append_log-Fits entry s.audit_logs h.logs;
  volume_count = h.volume_count;
  volumes = h.volumes;
}

session-Fits :
    (r : Role) (b : Bool) (s : Servers)
    → ServersFit s
    → ServersFit (record s { current_role = r; session_authenticated = b })
session-Fits r b s h = record {
  table = h.table;
  logs = h.logs;
  volume_count = h.volume_count;
  volumes = h.volumes;
}

put_volume-Fits :
    (i : ℕ) (v : Volume) (s : Servers)
    → i < length s.table
    → ServersFit s
    → (VolumeFits (volume s i) → VolumeFits v)
    → ServersFit (put_volume i v s)
put_volume-Fits i v s room h k = record {
  table = h.table;
  logs = h.logs;
  volume_count =
      length-write_at_le s.volumes i v no_volume max_servers (omega (arith, room, h.table.0))
        h.volume_count;
  volumes = all_written VolumeFits s.volumes i v no_volume h.volumes k;
}

Step-Fits : {b : Bool} {s t : Servers} → Step b s t → ServersFit s → ServersFit t
Step-Fits refused h = h
Step-Fits {b} {s} (served i x entry room e) h =
    add_audit_log-Fits entry (put_service i x s) (record {
      table = (
        omega (arith, h.table.0, length-write_at s.table i x no_service room),
        AllOf-write_at _ s.table i x no_service room h.table.1 (λ k. rw e k),
      );
      logs = h.logs;
      volume_count = h.volume_count;
      volumes = h.volumes;
    })
Step-Fits {b} {s} (stored i v entry room c) h =
    add_audit_log-Fits entry (put_volume i v s) (put_volume-Fits i v s room h (Change-Fits c))
Step-Fits {b} {s} (saved i entry room e) h =
    add_audit_log-Fits entry (put_volume i (save (volume s i)) s)
      (put_volume-Fits i _ s room h (λ k. record { tree = k.tree; snapshot = λ _. k.tree }))

-- What changes the servers: a command that needs a role, a login, a logout, the simulated requests and a
-- tick of the timer.
pub data Operation : Type 0 where
  command : Command → Operation
  login : CStr → CStr → Operation
  logout : Operation
  requests : ℤ → Operation
  tick : ℕ → Operation

unfoldable pub operate : Operation → Servers → Servers
operate (command c) s = (run c s).0
operate (login role pass) s = (command_login role pass s).0
operate logout s = (command_logout s).0
operate (requests n) s = (command_apache_simulate n s).0
operate (tick n) s = (server_tick n s).0

unfoldable pub operate_all : List Operation → Servers → Servers
operate_all [] s = s
operate_all (o ∷ os) s = operate_all os (operate o s)

abbrev ReplyFits : Reply → Type 0
ReplyFits r = ServersFit r.0

pub login-Fits :
    (role pass : CStr) (s : Servers) → ServersFit s → ReplyFits (command_login role pass s)
unfolding command_login
login-Fits role pass s h =
    if_both ReplyFits (streq role (str "admin") && streq pass (str "admin123"))
      (opened admin (str "login admin"))
      (if_both ReplyFits (streq role (str "operator") && streq pass (str "operator123"))
        (opened operator (str "login operator"))
        (if_both ReplyFits (streq role (str "viewer") && streq pass (str "viewer123"))
          (opened viewer (str "login viewer")) h))
  where
    opened :
        (r : Role) (entry : CStr)
        → ServersFit
            (add_audit_log entry (record s { current_role = r; session_authenticated = true }))
    opened r entry = add_audit_log-Fits entry _ (session-Fits r true s h)

simulate-Fits : (n : ℕ) (s : Servers) → ServersFit s → ReplyFits (simulate n s)
unfolding simulate
simulate-Fits zero s h = h
simulate-Fits (suc n) s h = simulate-Fits n _ (add_audit_log-Fits _ s h)

name-tick_service : (i : ℕ) (x : ServerService) → (tick_service i x).name ≡ x.name
unfolding tick_service
name-tick_service i x = ground arith

abbrev TickFits : List ServerService × List CStr × List Output → List ServerService → Type 0
TickFits r xs =
    (length r.0 ≡ length xs) × AllOf (λ (x : ServerService). length x.name < 16) r.0 × LogFits r.1

tick_from-Fits :
    (ticks i : ℕ) (xs : List ServerService) (logs : List CStr)
    → AllOf (λ (x : ServerService). length x.name < 16) xs
    → LogFits logs
    → TickFits (tick_from ticks i xs logs) xs
unfolding tick_from
tick_from-Fits ticks i [] logs h k = (refl, tt, k)
tick_from-Fits ticks i (x ∷ xs) logs h k =
    let hit = serves_request x in
    let logs' : List CStr = if hit then append_log (request_log ticks) logs else logs in
    let k' : LogFits logs' = if_both LogFits hit (append_log-Fits (request_log ticks) logs k) k in
    let (a, b, c) = tick_from-Fits ticks (i + 1) xs logs' h.1 k' in
    (ap suc a, (rw (name-tick_service i x) h.0, b), c)

pub server_tick-Fits : (ticks : ℕ) (s : Servers) → ServersFit s → ReplyFits (server_tick ticks s)
unfolding server_tick
server_tick-Fits ticks s h =
    let (a, b, c) = tick_from-Fits ticks 0 s.table s.audit_logs h.table.1 h.logs in
    if_both ReplyFits (ticks % 100 == 0)
      (record {
        table = (omega (arith, h.table.0, a), b);
        logs = c;
        volume_count = h.volume_count;
        volumes = h.volumes;
      })
      h

pub operate-Fits : (o : Operation) (s : Servers) → ServersFit s → ServersFit (operate o s)
unfolding operate command_logout command_apache_simulate
operate-Fits (command c) s h = Step-Fits (run-Step c s) h
operate-Fits (login role pass) s h = login-Fits role pass s h
operate-Fits logout s h =
    add_audit_log-Fits (str "logout")
      (record s { session_authenticated = false; current_role = viewer })
      (session-Fits viewer false s h)
operate-Fits (requests n) s h = simulate-Fits (rounds n) s h
operate-Fits (tick n) s h = server_tick-Fits n s h

pub operate_all-Fits :
    (os : List Operation) (s : Servers) → ServersFit s → ServersFit (operate_all os s)
unfolding operate_all
operate_all-Fits [] s h = h
operate_all-Fits (o ∷ os) s h = operate_all-Fits os (operate o s) (operate-Fits o s h)
