-- ===== src/Servers/Apache.antt =====
-- The apache commands of mi_so_completo/src/servers.c.
use sistema_operativo.Prelude.{
  ℕ, zero, suc, ◌-◌, Bool, true, false, ◌&&◌, List, [], ◌∷◌, ◌++◌, length, drop, ◌==◌,
  if◌then◌else◌, or_else, ℤ, pos, negsuc,
}
use sistema_operativo.Utils.{CStr, str, copied}
use sistema_operativo.Console.{Output, text, serial}
use sistema_operativo.Servers.Types.{
  Volume, Servers, operator, Reply, max_file_content, volume, put_volume, refuse,
}
use sistema_operativo.Servers.Audit.{add_audit_log}
use sistema_operativo.Servers.Session.{with_role}
use sistema_operativo.Servers.Lookup.{find_server, find_from, is_file, fs_dir_exists, free_file}
use sistema_operativo.Servers.Lifecycle.{done}
use sistema_operativo.Servers.Files.{file_at, put_file, remove_file, list_files}

-- log[0] == 'a' && log[1] == 'p' && log[2] == 'a'
unfoldable pub is_apache_log : CStr → Bool
is_apache_log (a ∷ p ∷ b ∷ rest) = a == b'a' && (p == b'p' && b == b'a')
is_apache_log _ = false

apache_rows : List CStr → List Output
apache_rows [] = []
apache_rows (l ∷ logs) =
    let rest = apache_rows logs in
    if is_apache_log l
    then text (str " - ") 0x0F ∷ text l 0x0F ∷ text (str "\n") 0x0F ∷ rest
    else rest

or_none : List Output → List Output
or_none [] = text (str "(sin entradas)\n") 0x0E ∷ []
or_none (o ∷ out) = o ∷ out

-- The test that the entry is not "" is part of the test of its first three bytes.
unfoldable pub command_apache_logs : Servers → List Output
unfolding apache_rows or_none
command_apache_logs s = text (str "APACHE LOGS:\n") 0x0B ∷ or_none (apache_rows s.audit_logs)

-- `n` is the number of rounds; a negative argument gives none.
unfoldable pub simulate : ℕ → Servers → Reply
simulate zero s = (s, [])
simulate (suc n) s =
    let buf = copied (str "apache: GET /index.html 200\n") 64 in
    let (s', out) = simulate n (add_audit_log buf s) in (s', serial buf ∷ out)

abbrev pub rounds : ℤ → ℕ
rounds (pos n) = n
rounds (negsuc n) = 0

unfoldable pub command_apache_simulate : ℤ → Servers → Reply
unfolding simulate
command_apache_simulate requests s = simulate (rounds requests) s

unfoldable pub command_apache_ls : Servers → List Output
command_apache_ls s =
    text (str "/www:\n") 0x0B
    ∷ or_else (find_server (str "apache") s.table) (text (str "apache no instalado\n") 0x0C ∷ [])
        (λ x. list_files (str "www") (volume s x).files)

-- if (*name == '/') name++;
abbrev pub strip_slash : CStr → CStr
strip_slash [] = []
strip_slash (c ∷ s) = if c == b'/' then s else c ∷ s

unfoldable pub command_apache_cat : CStr → Servers → List Output
command_apache_cat path s =
    or_else (find_server (str "apache") s.table) (text (str "apache no instalado\n") 0x0C ∷ [])
      (λ x.
        or_else (find_from (is_file (str "www") (strip_slash path)) 0 (volume s x).files)
          (text (str "Archivo no encontrado en /www\n") 0x0C ∷ [])
          (λ i. text (file_at (volume s x) i).content 0x0F ∷ text (str "\n") 0x0F ∷ []))

-- if (n <= 0) n = 5;
abbrev pub tail_size : ℤ → ℕ
tail_size (pos zero) = 5
tail_size (pos (suc n)) = suc n
tail_size (negsuc n) = 5

-- The title has the two bytes of UTF-8 for its accented letter.
unfoldable pub command_apache_tail : ℤ → Servers → List Output
unfolding apache_rows or_none
command_apache_tail n s =
    text (str "APACHE - " ++ (0xC3 ∷ 0xBA ∷ str "ltimos logs:\n")) 0x0B
    ∷ or_none (apache_rows (drop (length s.audit_logs - tail_size n) s.audit_logs))

-- A page in the first free slot; the slot keeps its permissions.
abbrev pub make_page : CStr → CStr → Volume → ℕ → Volume
make_page name content v i =
    put_file i
      (record (file_at v i) {
        used = true;
        dir = copied (str "www") 16;
        name = copied name 16;
        content = copied content max_file_content;
      })
      v

unfoldable pub command_apache_add : CStr → CStr → Servers → Reply
command_apache_add name content s = with_role operator s (
    or_else (find_server (str "apache") s.table) (refuse s (str "apache no instalado\n")) (λ x.
      let v = volume s x in
      if fs_dir_exists (str "www") v.dirs
      then or_else (free_file v.files) (refuse s (str "No hay espacio para mas archivos\n")) (λ i.
        done (put_volume x (make_page name content v i) s) (str "apache: file added")
          (str "Archivo creado en /www\n"))
      else refuse s (str "/www no existe\n")))

unfoldable pub command_apache_rm : CStr → Servers → Reply
command_apache_rm name s = with_role operator s (
    or_else (find_server (str "apache") s.table) (refuse s (str "apache no instalado\n")) (λ x.
      let v = volume s x in
      or_else (find_from (is_file (str "www") name) 0 v.files)
        (refuse s (str "Archivo no encontrado\n"))
        (λ i.
          done (put_volume x (remove_file v i) s) (str "apache: file removed")
            (str "Archivo eliminado\n"))))
