-- ===== src/Servers/Contents.antt =====
-- What the file system commands do to files and directories, as later commands show it.
use sistema_operativo.Prelude.{
  ℕ, ◌<◌, ◌≡◌, refl, ◌∙◌, true, false, none, some, List, [], ◌∷◌, arith, length,
  get_or-write_at_self, get_or-write_at_ne, length-write_at,
}
use sistema_operativo.Utils.{CStr, str, copied}
use sistema_operativo.Utils.Text.{streq_refl}
use sistema_operativo.Console.{Output, text}
use sistema_operativo.Servers.Types.{
  Servers, Volume, operator, volume, service, put_volume, no_file, max_file_content,
}
use sistema_operativo.Servers.Audit.{add_audit_log}
use sistema_operativo.Servers.Lookup.{find_server, fs_find_file, fs_dir_exists, is_file, free_file}
use sistema_operativo.Servers.Files.{
  file_at, shown, write_file, make_file, command_server_fs_cat, command_server_fs_write,
  command_server_fs_touch,
}
use sistema_operativo.Servers.Command.{run, write, touch}
use sistema_operativo.Servers.Access.{IsAllowed, require_role_iff}
use sistema_operativo.Servers.Recovery.{volume-put_volume}
use sistema_operativo.Servers.Search.{
  find_from_first, find_from-none, find_from-write_at, fs_find_file-inside, free_file-inside,
}

-- What `cat` prints of a file.
abbrev pub cat_output : CStr → List Output
cat_output content =
    text (str "Contenido: ") 0x0E ∷ text (shown content) 0x0F ∷ text (str "\n") 0x0F ∷ []

cat_lem :
    (srv dir file : CStr) (s : Servers) (x i : ℕ) (content : CStr)
    → find_server srv s.table ≡ some x
    → fs_find_file dir file (volume s x).files ≡ some i
    → (file_at (volume s x) i).perm_read ≡ true
    → (file_at (volume s x) i).content ≡ content
    → command_server_fs_cat srv dir file s ≡ cat_output content
unfolding command_server_fs_cat
cat_lem srv dir file s x i content a f r c = rw (a, f, r, c)

-- The server is `x`, it is running, and the session may change it.
pub record IsOpen (srv : CStr) (s : Servers) (x : ℕ) : Type 0 where
  pub allowed : IsAllowed operator s
  pub named : find_server srv s.table ≡ some x
  pub is_active : (service s x).active ≡ true
  pub room : x < length s.volumes

write_lem :
    (srv dir file content : CStr) (s : Servers) (x i : ℕ)
    → IsOpen srv s x
    → fs_find_file dir file (volume s x).files ≡ some i
    → (file_at (volume s x) i).perm_write ≡ true
    → (run (write srv dir file content) s).0
      ≡ add_audit_log (str "write") (put_volume x (write_file content (volume s x) i) s)
unfolding run command_server_fs_write
write_lem srv dir file content s x i o f w =
    rw ((require_role_iff operator s).1 o.allowed, o.named, o.is_active, f, w)

-- In a session of at least an operator, after a write to a file of a running server that may be
-- written and read, `cat` of it prints what was written, cut to 63 bytes.
pub cat-write :
    (srv dir file content : CStr) (s : Servers) (x i : ℕ)
    → IsOpen srv s x
    → fs_find_file dir file (volume s x).files ≡ some i
    → (file_at (volume s x) i).perm_write ≡ true
    → (file_at (volume s x) i).perm_read ≡ true
    → command_server_fs_cat srv dir file (run (write srv dir file content) s).0
      ≡ cat_output (copied content max_file_content)
cat-write srv dir file content s x i o f w r = rw (write_lem srv dir file content s x i o f w) (
    cat_lem srv dir file t x i (copied content max_file_content) (unfold add_audit_log in o.named)
      (rw (volume-put_volume x v (str "write") s) (same ∙ f))
      (rw (volume-put_volume x v (str "write") s, here) r)
      (rw (volume-put_volume x v (str "write") s, here)))
  where
    v : Volume
    v = write_file content (volume s x) i

    t : Servers
    t = add_audit_log (str "write") (put_volume x v s)

    here :
        file_at v i ≡ record (file_at (volume s x) i) { content = copied content max_file_content }
    here = get_or-write_at_self (volume s x).files i _ no_file

    same : fs_find_file dir file v.files ≡ fs_find_file dir file (volume s x).files
    same =
        unfold fs_find_file in
        find_from-write_at (is_file dir file) no_file 0 i _ (volume s x).files
          (fs_find_file-inside dir file (volume s x).files i f) refl

touch_lem :
    (srv dir file : CStr) (s : Servers) (x i : ℕ)
    → IsOpen srv s x
    → fs_dir_exists dir (volume s x).dirs ≡ true
    → fs_find_file dir file (volume s x).files ≡ none
    → free_file (volume s x).files ≡ some i
    → (run (touch srv dir file) s).0
      ≡ add_audit_log (str "touch") (put_volume x (make_file dir file (volume s x) i) s)
unfolding run command_server_fs_touch
touch_lem srv dir file s x i o e f g =
    rw ((require_role_iff operator s).1 o.allowed, o.named, o.is_active, e, f, g)

module _ (dir file : CStr) (v : Volume) (i : ℕ) (new : fs_find_file dir file v.files ≡ none)
    (free : free_file v.files ≡ some i) (whole_dir : copied dir 16 ≡ dir)
    (whole_file : copied file 16 ≡ file) where
  made : Volume
  made = make_file dir file v i

  free_inside : i < length v.files
  free_inside = free_file-inside v.files i free

  pub made_self : file_at (make_file dir file v i) i ≡ record (file_at v i) {
    used = true;
    dir = copied dir 16;
    name = copied file 16;
    perm_read = true;
    perm_write = true;
  }
  made_self = get_or-write_at_self v.files i _ no_file

  made-fits : is_file dir file (file_at (make_file dir file v i) i) ≡ true
  made-fits = rw (made_self, whole_dir, whole_file, streq_refl dir, streq_refl file)

  made-before : (j : ℕ) → j < i → is_file dir file (file_at (make_file dir file v i) j) ≡ false
  made-before j h =
      rw
        (get_or-write_at_ne v.files i j
          (record (file_at v i) {
            used = true;
            dir = copied dir 16;
            name = copied file 16;
            perm_read = true;
            perm_write = true;
          })
          no_file (omega arith))
        (find_from-none (is_file dir file) no_file 0 v.files j refl (unfold fs_find_file in new))

  -- A new file is found in the slot where it was made.
  pub fs_find_file-made : fs_find_file dir file (make_file dir file v i).files ≡ some i
  fs_find_file-made =
      unfold fs_find_file in
      find_from_first (is_file dir file) no_file (make_file dir file v i).files i (record {
        inside = omega (
          arith,
          free_inside,
          length-write_at v.files i
              (record (file_at v i) {
                used = true;
                dir = copied dir 16;
                name = copied file 16;
                perm_read = true;
                perm_write = true;
              })
              no_file free_inside,
        );
        passes = made-fits;
        none_before = made-before;
      })

-- In a session of at least an operator, on a running server, a new file in a directory that exists
-- takes the first free slot with whatever content the slot still holds, such as that of a removed
-- file: `cat` of the new file prints it. The names are those that fit in 15 bytes.
pub cat-touch :
    (srv dir file : CStr) (s : Servers) (x i : ℕ)
    → IsOpen srv s x
    → fs_dir_exists dir (volume s x).dirs ≡ true
    → fs_find_file dir file (volume s x).files ≡ none
    → free_file (volume s x).files ≡ some i
    → copied dir 16 ≡ dir
    → copied file 16 ≡ file
    → command_server_fs_cat srv dir file (run (touch srv dir file) s).0
      ≡ cat_output (file_at (volume s x) i).content
cat-touch srv dir file s x i o e f g d n = rw (touch_lem srv dir file s x i o e f g) (
    cat_lem srv dir file t x i (file_at (volume s x) i).content (unfold add_audit_log in o.named)
      (rw (volume-put_volume x v (str "touch") s)
        (fs_find_file-made dir file (volume s x) i f g d n))
      (rw (volume-put_volume x v (str "touch") s, made_self dir file (volume s x) i f g d n))
      (rw (volume-put_volume x v (str "touch") s, made_self dir file (volume s x) i f g d n)))
  where
    v : Volume
    v = make_file dir file (volume s x) i

    t : Servers
    t = add_audit_log (str "touch") (put_volume x v s)
