-- ===== src/Servers/Names.antt =====
-- Changes to the file systems of servers.c, and the names in them.
pub mod Commands
use sistema_operativo.Prelude.{
  ℕ, zero, suc, ◌≤◌, ◌<◌, ◌≡◌, ◌≢◌, refl, ◌∙◌, ap, sym, inl, inr, true, false, none, some, List, [],
  ◌∷◌, get_or, set, take, length, if_ind, if_both, or_else_ind, arith, Option, Bool, Option-cases,
}
use sistema_operativo.Utils.{CStr, str, streq, copied}
use sistema_operativo.Utils.Text.{streq_iff, streq_refl}
use sistema_operativo.Servers.Types.{
  ServerDirectory, ServerFile, Volume, Servers, ServerService, Reply, Role, operator, admin,
  no_directory, no_file, no_volume, volume, service, put_volume, put_service,
}
use sistema_operativo.Servers.Audit.{add_audit_log}
use sistema_operativo.Servers.Session.{require_role, with_role}
use sistema_operativo.Servers.Lookup.{
  found, is_dir, is_file, find_dir, fs_dir_exists, fs_find_file, free_dir, free_file, find_from,
  lies_in, find_server,
}
use sistema_operativo.Servers.Lifecycle.{at_server, save, load}
use sistema_operativo.Servers.Files.{at_active, file_at, put_file, put_dir, make_dir, make_file}
use sistema_operativo.Servers.Lifecycle.{
  command_server_start, command_server_stop, command_server_restart, command_server_backup,
  command_server_restore,
}
use sistema_operativo.Servers.Files.{
  command_server_fs_mkdir, command_server_fs_touch, command_server_fs_write, command_server_fs_rm,
  command_server_fs_rmdir, command_server_fs_chmod,
}
use sistema_operativo.Servers.Apache.{command_apache_rm}
use sistema_operativo.Servers.Command.{
  Command, start, stop, restart, backup, restore, mkdir, rmdir, touch, rm, write, chmod, apache_add,
  apache_rm, run, run_all,
}
use sistema_operativo.Servers.Search.{find_from-none}
use sistema_operativo.Servers.Fits.{all_set}
use sistema_operativo.Servers.Distinct.{SameDir, SameFile, Distinct, Distinct-write_at}

-- The names of the directories and of the files are distinct.
abbrev pub TreeNames : List ServerDirectory → List ServerFile → Type 0
TreeNames dirs files = Distinct SameDir no_directory dirs × Distinct SameFile no_file files

-- Also in a snapshot.
pub record VolumeNames (v : Volume) : Type 0 where
  pub tree : TreeNames v.dirs v.files
  pub snapshot : v.snapshot.valid ≡ true → TreeNames v.snapshot.dirs v.snapshot.files

abbrev pub ServersNames : Servers → Type 0
ServersNames s = (i : ℕ) → VolumeNames (volume s i)

take_all : (n : ℕ) (s : CStr) → length s ≤ n → take n s ≡ s
take_all zero [] h = refl
take_all zero (c ∷ s) h = absurd (omega arith)
take_all (suc n) [] h = refl
take_all (suc n) (c ∷ s) h = ap (λ t. c ∷ t) (take_all n s (omega arith))

copied_short : (s : CStr) → length s < 16 → copied s 16 ≡ s
unfolding copied
copied_short s h = take_all 15 s (omega arith)

not_found : (o : Option ℕ) → found o ≡ false → o ≡ none
not_found none h = refl
not_found (some i) h = cc (h)

module _ (v : Volume) (h : VolumeNames v) (i : ℕ) where
  put_file-Names :
      (f : ServerFile)
      → ((k : ℕ) → k ≢ i → ¬ SameFile f (get_or v.files k no_file))
      → VolumeNames (put_file i f v)
  put_file-Names f new = record {
    tree = (
      h.tree.0,
      Distinct-write_at SameFile no_file (λ a b r. (r.1, r.0, sym r.2, sym r.3)) v.files i f
          h.tree.1 new,
    );
    snapshot = h.snapshot;
  }

  put_dir-Names :
      (d : ServerDirectory)
      → ((k : ℕ) → k ≢ i → ¬ SameDir d (get_or v.dirs k no_directory))
      → VolumeNames (put_dir i d v)
  put_dir-Names d new = record {
    tree = (
      Distinct-write_at SameDir no_directory (λ a b r. (r.1, r.0, sym r.2)) v.dirs i d h.tree.0 new,
      h.tree.1,
    );
    snapshot = h.snapshot;
  }

  -- A file that keeps its place and its name, and is used only if it was.
  pub kept_file :
      (f : ServerFile)
      → (f.used ≡ true → (file_at v i).used ≡ true)
      → f.dir ≡ (file_at v i).dir
      → f.name ≡ (file_at v i).name
      → VolumeNames (put_file i f v)
  kept_file f u d n =
      put_file-Names f λ k ne r. ne (sym (h.tree.1 i k (u r.0, r.1, sym d ∙ r.2, sym n ∙ r.3)))

  pub gone_dir : (d : ServerDirectory) → d.used ≡ false → VolumeNames (put_dir i d v)
  gone_dir d u = put_dir-Names d λ k ne r. cc (r.0, u)

  -- A new name that the search has not found.
  pub new_dir :
      (dir : CStr)
      → length dir < 16
      → fs_dir_exists dir v.dirs ≡ false
      → VolumeNames (make_dir dir v i)
  unfolding fs_dir_exists find_dir
  new_dir dir short none_found = put_dir-Names _ λ k ne r.
      let seen : is_dir dir (get_or v.dirs k no_directory) ≡ true =
        rw (r.1, sym r.2 ∙ copied_short dir short, streq_refl dir) refl in
      cc (seen, find_from-none (is_dir dir) no_directory 0 v.dirs k refl (not_found _ none_found))

  pub new_file :
      (dir file : CStr)
      → length dir < 16
      → length file < 16
      → found (fs_find_file dir file v.files) ≡ false
      → VolumeNames (make_file dir file v i)
  unfolding fs_find_file
  new_file dir file a b none_found = put_file-Names _ λ k ne r.
      let seen : is_file dir file (get_or v.files k no_file) ≡ true =
        rw
          (
            r.1,
            sym r.2 ∙ copied_short dir a,
            sym r.3 ∙ copied_short file b,
            streq_refl dir,
            streq_refl file,
          )
          refl in
      cc (seen, find_from-none (is_file dir file) no_file 0 v.files k refl (not_found _ none_found))
