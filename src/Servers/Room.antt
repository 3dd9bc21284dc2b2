-- ===== src/Servers/Room.antt =====
-- The set-up of servers.c and the bounds of its arrays.
use sistema_operativo.Prelude.{
  ℕ, zero, suc, ◌≤◌, List, [], ◌∷◌, length, length-append, length-map, get_or, map, arith, if_both,
  if_ind, Bool, leb,
}
use sistema_operativo.Utils.{CStr, str, streq, copied}
use sistema_operativo.Utils.Copy.{length-copied}
use sistema_operativo.Servers.Types.{
  ServerService, ServerDirectory, ServerFile, Volume, Servers, max_servers, max_server_dirs,
  max_server_files, no_volume, no_directory, no_file, volume, max_file_content,
}
use sistema_operativo.Servers.Lifecycle.{add_server, init_server_manager}
use sistema_operativo.Servers.Files.{file_at, put_dir}
use sistema_operativo.Servers.Setup.{
  clear_dir, clear_file, clear_volume, populate, populate_all, used_dir, index_page,
  init_server_filesystem, with_basic_dirs, with_web_root,
}
use sistema_operativo.Servers.Fits.{DirFits, FileFits, put_dir-Fits, put_file-Fits, VolumeFits}
use sistema_operativo.Servers.Bounds.{
  ServersFit, TableFits, AllOf-append, Operation, operate_all, operate_all-Fits,
}

add_server-Fits :
    (name : CStr) (active : Bool) (cpu mem health : ℕ) (s : Servers)
    → TableFits s.table
    → TableFits (add_server name active cpu mem health s).table
unfolding add_server
add_server-Fits name active cpu mem health s h =
    if_ind (λ (t : Servers). TableFits t.table) (leb max_servers (length s.table)) (λ _. h)
      λ room. (
        ground (
          arith,
          length-append s.table (
              record {
                name = copied name 16;
                active = active;
                cpu_load = cpu;
                memory_mb = mem;
                health = health;
                restarts = 0;
              }
              ∷ []),
        ),
        AllOf-append _ s.table _ h.1 (length-copied name 16 (omega arith)),
      )

init_server_manager-Fits : (s : Servers) → TableFits (init_server_manager s).0.table
unfolding init_server_manager
init_server_manager-Fits s = add_server-Fits _ _ _ _ _ _ (
    add_server-Fits _ _ _ _ _ _ (
      add_server-Fits _ _ _ _ _ _ (
        add_server-Fits _ _ _ _ _ _ (
          add_server-Fits _ _ _ _ _ _ (
            add_server-Fits _ _ _ _ _ _ (
              add_server-Fits _ _ _ _ _ _ (
                add_server-Fits _ _ _ _ _ _
                  (add_server-Fits _ _ _ _ _ (record s { table = [] }) (omega arith, tt)))))))))

-- The arrays of a file system are not longer than they are declared.
abbrev pub IsRoomy : Volume → Type 0
IsRoomy v = (length v.dirs ≤ max_server_dirs) × (length v.files ≤ max_server_files)

cleared_dir :
    (ds : List ServerDirectory) (i : ℕ) → DirFits (get_or (map clear_dir ds) i no_directory)
cleared_dir [] i = omega arith
cleared_dir (d ∷ ds) zero = omega arith
cleared_dir (d ∷ ds) (suc i) = cleared_dir ds i

cleared_file : (fs : List ServerFile) (i : ℕ) → FileFits (get_or (map clear_file fs) i no_file)
cleared_file [] i = (omega arith, omega arith, omega arith)
cleared_file (f ∷ fs) zero = (omega arith, omega arith, omega arith)
cleared_file (f ∷ fs) (suc i) = cleared_file fs i

clear_volume-Fits : (v : Volume) → IsRoomy v → VolumeFits (clear_volume v)
clear_volume-Fits v h = record {
  tree = record {
    dir_count = omega (arith, h.0, length-map clear_dir v.dirs);
    file_count = omega (arith, h.1, length-map clear_file v.files);
    each_dir = cleared_dir v.dirs;
    each_file = cleared_file v.files;
  };
  snapshot = λ e. cc;
}

with_basic_dirs-Fits : (v : Volume) → VolumeFits v → VolumeFits (with_basic_dirs v)
with_basic_dirs-Fits v h =
    put_dir-Fits {v = put_dir 0 (used_dir (str "etc")) v} 1 (used_dir (str "logs")) (omega arith)
      (λ _. length-copied (str "logs") 16 (omega arith))
      (put_dir-Fits {v = v} 0 (used_dir (str "etc")) (omega arith)
        (λ _. length-copied (str "etc") 16 (omega arith)) h)

with_web_root-Fits : (v : Volume) → VolumeFits v → VolumeFits (with_web_root v)
with_web_root-Fits v h =
    put_file-Fits {v = put_dir 2 (used_dir (str "www")) v} 0 (index_page (file_at v 0))
      (omega arith)
      (λ _. (
        length-copied (str "www") 16 (omega arith),
        length-copied (str "index.html") 16 (omega arith),
        length-copied _ max_file_content (omega arith),
      ))
      (put_dir-Fits {v = v} 2 (used_dir (str "www")) (omega arith)
        (λ _. length-copied (str "www") 16 (omega arith)) h)

populate-Fits : (x : ServerService) (v : Volume) → VolumeFits v → VolumeFits (populate x v)
populate-Fits x v h =
    let b = with_basic_dirs-Fits v h in
    if_both VolumeFits (streq x.name (str "apache")) (with_web_root-Fits (with_basic_dirs v) b) b

abbrev EachFits : List Volume → Type 0
EachFits vs = (i : ℕ) → VolumeFits (get_or vs i no_volume)

no_volume-Fits : VolumeFits no_volume
no_volume-Fits = record {
  tree = record {
    dir_count = omega arith;
    file_count = omega arith;
    each_dir = cleared_dir [];
    each_file = cleared_file [];
  };
  snapshot = λ e. cc;
}

clear_all-Fits :
    (vs : List Volume)
    → ((i : ℕ) → IsRoomy (get_or vs i no_volume))
    → EachFits (map clear_volume vs)
clear_all-Fits [] h i = no_volume-Fits
clear_all-Fits (v ∷ vs) h zero = clear_volume-Fits v (h 0)
clear_all-Fits (v ∷ vs) h (suc i) = clear_all-Fits vs (λ j. h (suc j)) i

populate_all-Fits :
    (xs : List ServerService) (vs : List Volume) → EachFits vs → EachFits (populate_all xs vs)
unfolding populate_all
populate_all-Fits [] vs h i = h i
populate_all-Fits (x ∷ xs) [] h zero = populate-Fits x no_volume no_volume-Fits
populate_all-Fits (x ∷ xs) [] h (suc i) = populate_all-Fits xs [] (λ j. no_volume-Fits) i
populate_all-Fits (x ∷ xs) (v ∷ vs) h zero = populate-Fits x v (h 0)
populate_all-Fits (x ∷ xs) (v ∷ vs) h (suc i) = populate_all-Fits xs vs (λ j. h (suc j)) i

length-populate_all :
    (xs : List ServerService) (vs : List Volume) (n : ℕ)
    → length xs ≤ n
    → length vs ≤ n
    → length (populate_all xs vs) ≤ n
unfolding populate_all
length-populate_all [] vs n h k = k
length-populate_all (x ∷ xs) vs zero h k = absurd (omega arith)
length-populate_all (x ∷ xs) [] (suc n) h k =
    omega (arith, length-populate_all xs [] n (omega arith) (omega arith))
length-populate_all (x ∷ xs) (v ∷ vs) (suc n) h k =
    omega (arith, length-populate_all xs vs n (omega arith) (omega arith))

-- The arrays that the set-up finds are not longer than they are declared.
pub record HasRoom (s : Servers) : Type 0 where
  pub volume_count : length s.volumes ≤ max_servers
  pub each : (i : ℕ) → IsRoomy (volume s i)

-- The set-up keeps to the bounds.
pub init_server_manager-ServersFit :
    (s : Servers) → HasRoom s → ServersFit (init_server_filesystem (init_server_manager s).0)
unfolding init_server_filesystem
init_server_manager-ServersFit s h =
    let t = init_server_manager-Fits s in
    record {
      table = t;
      logs = (omega arith, tt);
      volume_count = length-populate_all (init_server_manager s).0.table _ max_servers t.0 (
          unfold init_server_manager add_server in
          omega (arith, h.volume_count, length-map clear_volume s.volumes));
      volumes = populate_all-Fits (init_server_manager s).0.table _ (
          clear_all-Fits (init_server_manager s).0.volumes
            (unfold init_server_manager add_server in h.each));
    }

-- From the set-up on, whatever commands, logins, logouts, simulated requests and ticks follow, there are
-- at most 8 servers, 8 file systems with 6 directories and 12 files each and 32 entries in the audit log,
-- where a write past the end of the table, the file systems, the directories or the files would make them
-- longer; a name has at most 15 bytes, a content and an entry at most 63; and so it is in every valid
-- snapshot. The arrays that the set-up finds are no longer than they are declared.
pub init_server_filesystem-ServersFit :
    (os : List Operation) (s : Servers)
    → HasRoom s
    → ServersFit (operate_all os (init_server_filesystem (init_server_manager s).0))
init_server_filesystem-ServersFit os s h =
    operate_all-Fits os (init_server_filesystem (init_server_manager s).0)
      (init_server_manager-ServersFit s h)
