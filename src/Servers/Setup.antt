-- ===== src/Servers/Setup.antt =====
-- init_server_filesystem of mi_so_completo/src/servers.c.
use sistema_operativo.Prelude.{true, false, List, [], ◌∷◌, map, get_or, write_at, if◌then◌else◌}
use sistema_operativo.Utils.{CStr, str, streq, copied}
use sistema_operativo.Servers.Types.{
  ServerService, ServerDirectory, ServerFile, Volume, Servers, max_file_content, no_file,
  no_directory, no_volume,
}

abbrev pub clear_dir : ServerDirectory → ServerDirectory
clear_dir d = record { used = false; name = [] }

abbrev pub clear_file : ServerFile → ServerFile
clear_file f = record {
  used = false;
  dir = [];
  name = [];
  content = [];
  perm_read = true;
  perm_write = true;
}

-- The first loop, at one server.
abbrev pub clear_volume : Volume → Volume
clear_volume v = record {
  dirs = map clear_dir v.dirs;
  files = map clear_file v.files;
  snapshot = record (v.snapshot) { valid = false };
}

abbrev pub used_dir : CStr → ServerDirectory
used_dir name = record { used = true; name = copied name 16 }

abbrev pub index_page : ServerFile → ServerFile
index_page f = record f {
  used = true;
  dir = copied (str "www") 16;
  name = copied (str "index.html") 16;
  content =
      copied (str "<html><body><h1>Bienvenido a Apache Simulado</h1></body></html>")
        max_file_content;
}

abbrev pub with_basic_dirs : Volume → Volume
with_basic_dirs v = record v {
  dirs =
      write_at (write_at v.dirs 0 (used_dir (str "etc")) no_directory) 1 (used_dir (str "logs"))
        no_directory;
}

abbrev pub with_web_root : Volume → Volume
with_web_root v = record v {
  dirs = write_at v.dirs 2 (used_dir (str "www")) no_directory;
  files = write_at v.files 0 (index_page (get_or v.files 0 no_file)) no_file;
}

-- The second loop, over the servers of the table.
abbrev pub populate : ServerService → Volume → Volume
populate x v =
    if streq x.name (str "apache") then with_web_root (with_basic_dirs v) else with_basic_dirs v

unfoldable pub populate_all : List ServerService → List Volume → List Volume
populate_all [] vs = vs
populate_all (x ∷ xs) [] = populate x no_volume ∷ populate_all xs []
populate_all (x ∷ xs) (v ∷ vs) = populate x v ∷ populate_all xs vs

unfoldable pub init_server_filesystem : Servers → Servers
unfolding populate_all
init_server_filesystem s = record s {
  volumes = populate_all s.table (map clear_volume s.volumes);
  audit_logs = [];
}
