-- ===== src/Checks/Sessions.antt =====
-- mi_so_completo/src/servers.c on concrete servers.
use sistema_operativo.Prelude.{
  ◌≡◌, ◌⊎◌, refl, Bool, true, false, some, none, List, [], ◌∷◌, arith, replicate, map,
}
use sistema_operativo.Utils.{CStr, str, streq, copied}
use sistema_operativo.Console.{text}
use sistema_operativo.Servers.Types.{
  Servers, Volume, viewer, operator, admin, Role, volume, service, no_file, no_directory,
  max_file_content,
}
use sistema_operativo.Servers.Session.{command_login}
use sistema_operativo.Servers.Lookup.{
  find_server, fs_find_file, fs_dir_exists, find_dir, free_file, find_from,
}
use sistema_operativo.Servers.Files.{command_server_fs_cat}
use sistema_operativo.Servers.Command.{
  Command, run, run_all, stop, backup, restore, rm, write, touch, mkdir,
}
use sistema_operativo.Servers.Access.{IsCredential, IsLoggedIn, run_refused, command_login_lem}
use sistema_operativo.Servers.Setup.{init_server_filesystem}
use sistema_operativo.Servers.Log.{record_all, recent, cut, record_all-recent}
use sistema_operativo.Servers.Tick.{server_tick}
use sistema_operativo.Servers.Loads.{IsTicked, server_tick-IsTicked}
use sistema_operativo.Servers.Recovery.{restore-backup}
use sistema_operativo.Servers.Contents.{IsOpen, cat_output, cat-write, cat-touch}

abbrev pub web : CStr
web = b'w' ∷ []

abbrev pub docs : CStr
docs = b'd' ∷ []

abbrev pub page : CStr
page = b'p' ∷ []

abbrev note : CStr
note = b'n' ∷ []

-- One server, `w`, with the directory `d`, the file `d/p` and two free slots, the first with what a
-- removed file left in it.
abbrev disk : Volume
disk = record {
  dirs = record { used = true; name = docs } ∷ no_directory ∷ [];
  files =
      record {
        used = true;
        dir = docs;
        name = page;
        content = page;
        perm_read = true;
        perm_write = true;
      }
      ∷ record no_file { content = b'x' ∷ [] }
      ∷ no_file
      ∷ [];
  snapshot = record { dirs = []; files = []; valid = false };
}

abbrev pub by_role : Bool → Role → Servers
by_role session role = record {
  table =
      record { name = web; active = true; cpu_load = 5; memory_mb = 64; health = 95; restarts = 0 }
      ∷ [];
  volumes = disk ∷ [];
  audit_logs = [];
  current_role = role;
  session_authenticated = session;
}

web_is_first : find_server web (by_role true admin).table ≡ some 0
unfolding find_server find_from streq
web_is_first = refl

page_is_first : fs_find_file docs page disk.files ≡ some 0
unfolding fs_find_file find_from streq
page_is_first = refl

web-IsOpen : IsOpen web (by_role true admin) 0
web-IsOpen = record {
  allowed = (refl, omega arith);
  named = web_is_first;
  is_active = refl;
  room = omega arith;
}

run_refused_example :
    ((run (rm web docs page) (by_role true operator)).0 ≡ by_role true operator)
    × ((message : CStr) × ((run (rm web docs page) (by_role true operator)).1
          ≡ text message 0x0C ∷ []))
run_refused_example = run_refused (rm web docs page) (by_role true operator) (λ a. omega arith)

command_login_lem_example :
    ((r : Role) × IsCredential (str "operator") (str "operator123") r
      × IsLoggedIn r
          (by_role false viewer)
          (command_login (str "operator") (str "operator123") (by_role false viewer)).0)
    ⊎ (((r : Role) → ¬ IsCredential (str "operator") (str "operator123") r)
        × ((command_login (str "operator") (str "operator123") (by_role false viewer)).0
            ≡ by_role false viewer))
command_login_lem_example =
    command_login_lem (str "operator") (str "operator123") (by_role false viewer)

abbrev damage : List Command
damage = rm web docs page ∷ mkdir web note ∷ touch web note page ∷ stop web ∷ []

restore-backup_example :
    let t = (run (restore web) (run_all damage (run (backup web) (by_role true admin)).0)).0 in
    ((volume t 0).dirs ≡ disk.dirs) × ((volume t 0).files ≡ disk.files)
restore-backup_example =
    restore-backup web 0 damage (by_role true admin) (refl, omega arith) web_is_first (omega arith)
      (refl, (refl, (refl, (refl, tt))))

cat-write_example :
    command_server_fs_cat web docs page
      (run (write web docs page (replicate 70 b'z')) (by_role true admin)).0
    ≡ cat_output (copied (replicate 70 b'z') max_file_content)
cat-write_example =
    cat-write web docs page (replicate 70 b'z') (by_role true admin) 0 0 web-IsOpen page_is_first
      refl refl

docs_exists : fs_dir_exists docs disk.dirs ≡ true
unfolding fs_dir_exists find_dir find_from streq
docs_exists = refl

note_is_new : fs_find_file docs note disk.files ≡ none
unfolding fs_find_file find_from streq
note_is_new = refl

second_is_free : free_file disk.files ≡ some 1
unfolding free_file find_from
second_is_free = refl

-- The new file `n` shows the `x` that a removed file left.
cat-touch_example :
    command_server_fs_cat web docs note (run (touch web docs note) (by_role true admin)).0
    ≡ cat_output (b'x' ∷ [])
unfolding copied
cat-touch_example =
    cat-touch web docs note (by_role true admin) 0 1 web-IsOpen docs_exists note_is_new
      second_is_free refl refl

-- Forty entries of which the log keeps the last 32.
record_all-recent_example :
    (record_all
      (replicate 40 (replicate 70 b'z'))
      (init_server_filesystem (by_role true admin))).audit_logs
    ≡ recent (map cut (replicate 40 (replicate 70 b'z')))
record_all-recent_example =
    record_all-recent (replicate 40 (replicate 70 b'z')) (by_role true admin)

server_tick-IsTicked_example :
    IsTicked (service (by_role true admin) 0) (service (server_tick 200 (by_role true admin)).0 0)
server_tick-IsTicked_example =
    server_tick-IsTicked 200 (by_role true admin) 0 (omega arith) (omega arith)
