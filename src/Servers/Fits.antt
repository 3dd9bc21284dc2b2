-- ===== src/Servers/Fits.antt =====
-- The bounds of the arrays of the file systems in servers.c, and how a command may change one of them.
use native.Mathlib.Decide.{ℕ_discrete}
use sistema_operativo.Prelude.{
  ℕ, zero, suc, ◌≤◌, ◌<◌, ◌≡◌, refl, true, List, [], ◌∷◌, length, length-write_at_le, get_or, set,
  write_at, get_or-write_at_self, get_or-write_at_ne, subst, sym, arith,
}
use sistema_operativo.Servers.Types.{
  ServerDirectory, ServerFile, Volume, max_server_dirs, max_server_files, max_file_content,
  no_directory, no_file,
}
use sistema_operativo.Servers.Lifecycle.{load}
use sistema_operativo.Servers.Files.{file_at, put_file, put_dir}

-- The strings fit in their arrays with their terminators.
abbrev pub DirFits : ServerDirectory → Type 0
DirFits d = length d.name < 16

abbrev pub FileFits : ServerFile → Type 0
FileFits f = (length f.dir < 16) × (length f.name < 16) × (length f.content < max_file_content)

-- The changes: the directories and files of a snapshot, one directory, or one file.
pub data Change (v : Volume) : Volume → Type 0 where
  loaded : v.snapshot.valid ≡ true → Change v (load v)
  dir_put :
      (i : ℕ) (d : ServerDirectory)
      → i < length v.dirs
      → (DirFits (get_or v.dirs i no_directory) → DirFits d)
      → Change v (put_dir i d v)
  file_put :
      (i : ℕ) (f : ServerFile)
      → i < length v.files
      → (FileFits (file_at v i) → FileFits f)
      → Change v (put_file i f v)

pub Change-snapshot : {v w : Volume} → Change v w → w.snapshot ≡ v.snapshot
Change-snapshot (loaded e) = refl
Change-snapshot (dir_put i d inside h) = refl
Change-snapshot (file_put i f inside h) = refl

-- There is room for the directories and files, and for each of their strings.
pub record TreeFits (dirs : List ServerDirectory) (files : List ServerFile) : Type 0 where
  pub dir_count : length dirs ≤ max_server_dirs
  pub file_count : length files ≤ max_server_files
  pub each_dir : (i : ℕ) → DirFits (get_or dirs i no_directory)
  pub each_file : (i : ℕ) → FileFits (get_or files i no_file)

pub record VolumeFits (v : Volume) : Type 0 where
  pub tree : TreeFits v.dirs v.files
  pub snapshot : v.snapshot.valid ≡ true → TreeFits v.snapshot.dirs v.snapshot.files

-- What holds of every element holds after one is set.
pub all_set {ℓ κ} :
    {A : Type ℓ} (P : A → Type κ) (xs : List A) (i : ℕ) (x d : A)
    → ((j : ℕ) → P (get_or xs j d))
    → (P (get_or xs i d) → P x)
    → (j : ℕ) → P (get_or (set xs i x) j d)
all_set P [] i x d h k j = h j
all_set P (y ∷ xs) zero x d h k zero = k (h zero)
all_set P (y ∷ xs) zero x d h k (suc j) = h (suc j)
all_set P (y ∷ xs) (suc i) x d h k zero = h zero
all_set P (y ∷ xs) (suc i) x d h k (suc j) = all_set P xs i x d (λ m. h (suc m)) k j

pub all_written {ℓ κ} :
    {A : Type ℓ} (P : A → Type κ) (xs : List A) (i : ℕ) (x d : A)
    → ((j : ℕ) → P (get_or xs j d))
    → (P (get_or xs i d) → P x)
    → (j : ℕ) → P (get_or (write_at xs i x d) j d)
all_written P xs i x d h k j = elim (ℕ_discrete i j) [
  | yes e ↦
      subst (λ n. P (get_or (write_at xs i x d) n d)) e
        (subst P (sym (get_or-write_at_self xs i x d)) (k (h i)))
  | no ne ↦ subst P (sym (get_or-write_at_ne xs i j x d ne)) (h j)
]

pub put_dir-Fits :
    {v : Volume} (i : ℕ) (d : ServerDirectory)
    → i < max_server_dirs
    → (DirFits (get_or v.dirs i no_directory) → DirFits d)
    → VolumeFits v
    → VolumeFits (put_dir i d v)
put_dir-Fits {v} i d inside k h = record {
  tree = record {
    dir_count = length-write_at_le v.dirs i d no_directory max_server_dirs inside h.tree.dir_count;
    file_count = h.tree.file_count;
    each_dir = all_written DirFits v.dirs i d no_directory h.tree.each_dir k;
    each_file = h.tree.each_file;
  };
  snapshot = h.snapshot;
}

pub put_file-Fits :
    {v : Volume} (i : ℕ) (f : ServerFile)
    → i < max_server_files
    → (FileFits (file_at v i) → FileFits f)
    → VolumeFits v
    → VolumeFits (put_file i f v)
put_file-Fits {v} i f inside k h = record {
  tree = record {
    dir_count = h.tree.dir_count;
    file_count = length-write_at_le v.files i f no_file max_server_files inside h.tree.file_count;
    each_dir = h.tree.each_dir;
    each_file = all_written FileFits v.files i f no_file h.tree.each_file k;
  };
  snapshot = h.snapshot;
}

-- No change goes over the bounds.
pub Change-Fits : {v w : Volume} → Change v w → VolumeFits v → VolumeFits w
Change-Fits (loaded e) h = record { tree = h.snapshot e; snapshot = h.snapshot }
Change-Fits (dir_put i d inside k) h =
    put_dir-Fits i d (omega (arith, inside, h.tree.dir_count)) k h
Change-Fits (file_put i f inside k) h =
    put_file-Fits i f (omega (arith, inside, h.tree.file_count)) k h
