-- ===== src/Servers/Types.antt =====
-- mi_so_completo/include/common.h and the globals of mi_so_completo/src/servers.c.
use sistema_operativo.Prelude.{ℕ, Bool, false, List, [], ◌∷◌, get_or, write_at}
use sistema_operativo.Utils.{CStr}
use sistema_operativo.Console.{Output, text}

abbrev pub max_servers : ℕ
max_servers = 8

abbrev pub max_server_dirs : ℕ
max_server_dirs = 6

abbrev pub max_server_files : ℕ
max_server_files = 12

abbrev pub max_file_content : ℕ
max_file_content = 64

abbrev pub max_audit_logs : ℕ
max_audit_logs = 32

pub record ServerService : Type 0 where
  pub name : CStr
  pub active : Bool
  pub cpu_load : ℕ
  pub memory_mb : ℕ
  pub health : ℕ
  pub restarts : ℕ

pub record ServerDirectory : Type 0 where
  pub used : Bool
  pub name : CStr

pub record ServerFile : Type 0 where
  pub used : Bool
  pub dir : CStr
  pub name : CStr
  pub content : CStr
  pub perm_read : Bool
  pub perm_write : Bool

pub record ServerSnapshot : Type 0 where
  pub dirs : List ServerDirectory
  pub files : List ServerFile
  pub valid : Bool

-- server_dirs[s], server_files[s] and server_snapshots[s] of one server `s`.
pub record Volume : Type 0 where
  pub dirs : List ServerDirectory
  pub files : List ServerFile
  pub snapshot : ServerSnapshot

-- ROLE_VIEWER, ROLE_OPERATOR, ROLE_ADMIN
pub data Role : Type 0 where
  viewer operator admin : Role

-- The numbers by which roles are compared.
abbrev pub rank : Role → ℕ
rank viewer = 0
rank operator = 1
rank admin = 2

-- `table` is server_table up to `server_count`, and `audit_logs` the array up to `audit_count`.
pub record Servers : Type 0 where
  pub table : List ServerService
  pub volumes : List Volume
  pub audit_logs : List CStr
  pub current_role : Role
  pub session_authenticated : Bool

-- The state after a command, and what the command printed.
abbrev pub Reply : Type 0
Reply = Servers × List Output

abbrev pub no_service : ServerService
no_service = record {
  name = [];
  active = false;
  cpu_load = 0;
  memory_mb = 0;
  health = 0;
  restarts = 0;
}

abbrev pub no_directory : ServerDirectory
no_directory = record { used = false; name = [] }

abbrev pub no_file : ServerFile
no_file = record {
  used = false;
  dir = [];
  name = [];
  content = [];
  perm_read = false;
  perm_write = false;
}

abbrev pub no_volume : Volume
no_volume = record {
  dirs = [];
  files = [];
  snapshot = record { dirs = []; files = []; valid = false };
}

abbrev pub service : Servers → ℕ → ServerService
service s i = get_or s.table i no_service

abbrev pub put_service : ℕ → ServerService → Servers → Servers
put_service i x s = record s { table = write_at s.table i x no_service }

abbrev pub volume : Servers → ℕ → Volume
volume s i = get_or s.volumes i no_volume

abbrev pub put_volume : ℕ → Volume → Servers → Servers
put_volume i v s = record s { volumes = write_at s.volumes i v no_volume }

-- An error message and no change.
abbrev pub refuse : Servers → CStr → Reply
refuse s message = (s, text message 0x0C ∷ [])
