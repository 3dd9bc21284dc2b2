-- ===== src/Checks/Arrays.antt =====
-- mi_so_completo/src/servers.c from its set-up on.
use sistema_operativo.Prelude.{ℕ, zero, suc, List, [], ◌∷◌, arith, replicate, pos, get_or, false}
use sistema_operativo.Utils.{str}
use sistema_operativo.Servers.Types.{
  Servers, Volume, viewer, no_directory, no_file, no_volume, max_servers, max_server_dirs,
  max_server_files,
}
use sistema_operativo.Servers.Lifecycle.{init_server_manager}
use sistema_operativo.Servers.Setup.{init_server_filesystem}
use sistema_operativo.Servers.Command.{
  Command, run_all, mkdir, apache_add, touch, backup, rm, restore,
}
use sistema_operativo.Servers.Names.{ServersNames}
use sistema_operativo.Servers.Names.Commands.{run_all-ServersNames}
use sistema_operativo.Servers.Types.{admin}
use sistema_operativo.Checks.Sessions.{by_role, web, docs, page}
use sistema_operativo.Prelude.{◌≡◌, refl, true}
use sistema_operativo.Servers.Bounds.{
  ServersFit, Operation, command, login, requests, tick, operate_all,
}
use sistema_operativo.Servers.Room.{IsRoomy, HasRoom, init_server_filesystem-ServersFit}

abbrev pub loader_volume : Volume
loader_volume = record {
  dirs = replicate max_server_dirs no_directory;
  files = replicate max_server_files no_file;
  snapshot = record { dirs = []; files = []; valid = false };
}

-- The globals as the loader leaves them.
abbrev pub loader_servers : Servers
loader_servers = record {
  table = [];
  volumes = replicate max_servers loader_volume;
  audit_logs = [];
  current_role = viewer;
  session_authenticated = false;
}

replicate-IsRoomy : (n i : ℕ) → IsRoomy (get_or (replicate n loader_volume) i no_volume)
replicate-IsRoomy zero i = (omega arith, omega arith)
replicate-IsRoomy (suc n) zero = (omega arith, omega arith)
replicate-IsRoomy (suc n) (suc i) = replicate-IsRoomy n i

pub loader-HasRoom : HasRoom loader_servers
loader-HasRoom = record { volume_count = omega arith; each = replicate-IsRoomy 8 }

abbrev session : List Operation
session =
    login (str "admin") (str "admin123")
    ∷ command (mkdir (str "nginx") (str "a-directory-with-a-long-name"))
    ∷ command (apache_add (str "page.html") (str "<p>Hola</p>"))
    ∷ requests (pos 40)
    ∷ tick 100
    ∷ []

init_server_filesystem-ServersFit_example :
    ServersFit (operate_all session (init_server_filesystem (init_server_manager loader_servers).0))
init_server_filesystem-ServersFit_example =
    init_server_filesystem-ServersFit session loader_servers loader-HasRoom

unused_dir : (n i : ℕ) → (get_or (replicate n no_directory) i no_directory).used ≡ false
unused_dir zero i = refl
unused_dir (suc n) zero = refl
unused_dir (suc n) (suc i) = unused_dir n i

unused_file : (n i : ℕ) → (get_or (replicate n no_file) i no_file).used ≡ false
unused_file zero i = refl
unused_file (suc n) zero = refl
unused_file (suc n) (suc i) = unused_file n i

-- The server `w` with an empty file system, in a session of the administrator.
abbrev empty_server : Servers
empty_server = record (by_role true admin) { volumes = loader_volume ∷ [] }

empty_server-ServersNames : ServersNames empty_server
empty_server-ServersNames zero = record {
  tree = (
    λ i j r. cc (r.0, unused_dir max_server_dirs i),
    λ i j r. cc (r.0, unused_file max_server_files i),
  );
  snapshot = λ e. cc (e);
}
empty_server-ServersNames (suc i) = record {
  tree = (λ i j r. cc (r.0), λ i j r. cc (r.0));
  snapshot = λ e. cc (e);
}

abbrev changes : List Command
changes =
    mkdir web docs
    ∷ touch web docs page
    ∷ touch web docs page
    ∷ backup web
    ∷ rm web docs page
    ∷ restore web
    ∷ []

run_all-ServersNames_example : ServersNames (run_all changes empty_server)
run_all-ServersNames_example =
    run_all-ServersNames changes empty_server
      (
        omega arith,
        ((omega arith, omega arith), ((omega arith, omega arith), (tt, (tt, (tt, tt))))),
      )
      empty_server-ServersNames
