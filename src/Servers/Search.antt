-- ===== src/Servers/Search.antt =====
-- What the searches of servers.c find, and how a write changes what they find.
use sistema_operativo.Prelude.{
  not, ℕ, zero, suc, ◌+◌, ◌<◌, ◌≡◌, ◌∙◌, ap, Bool, true, false, none, some, List, [], ◌∷◌, arith,
  get_or, write_at, length, Bool-cases, inl, inr,
}
use sistema_operativo.Utils.{CStr, streq}
use sistema_operativo.Servers.Types.{
  ServerService, ServerDirectory, ServerFile, no_service, no_directory, no_file,
}
use sistema_operativo.Servers.Lookup.{
  find_from, find_server, find_dir, free_dir, fs_find_file, free_file, is_dir, is_file,
}

module _ {ℓ} {A : Type ℓ} (test : A → Bool) (d : A) where
  -- An entry that is found passes the test, and none before it does.
  pub record IsFirst (xs : List A) (k : ℕ) : Type ℓ where
    pub inside : k < length xs
    pub passes : test (get_or xs k d) ≡ true
    pub none_before : (j : ℕ) → j < k → test (get_or xs j d) ≡ false

  IsFirst-zero : (x : A) (xs : List A) → test x ≡ true → IsFirst (x ∷ xs) 0
  IsFirst-zero x xs t = record {
    inside = omega arith;
    passes = t;
    none_before = λ j h. absurd (omega arith);
  }

  IsFirst-suc :
      (x : A) (xs : List A) (k : ℕ) → test x ≡ false → IsFirst xs k → IsFirst (x ∷ xs) (suc k)
  IsFirst-suc x xs k f m = record {
    inside = omega (arith, m.inside);
    passes = m.passes;
    none_before = before;
  }
    where
      before : (j : ℕ) → j < suc k → test (get_or (x ∷ xs) j d) ≡ false
      before zero h = f
      before (suc j) h = m.none_before j (omega arith)

  find_from_shift :
      (i : ℕ) (xs : List A) (k : ℕ)
      → find_from test i xs ≡ some k
      → (m : ℕ) × (k ≡ i + m) × IsFirst xs m
  unfolding find_from
  find_from_shift i [] k h = absurd (cc)
  find_from_shift i (x ∷ xs) k h = elim (Bool-cases (test x)) [
    | inl t ↦ (0, ground arith, IsFirst-zero x xs t)
    | inr f ↦
        let (m, e, first) = find_from_shift (i + 1) xs k (rw f at h) in
        (suc m, omega arith, IsFirst-suc x xs m f first)
  ]

  -- A search gives the first entry that passes.
  pub find_from-IsFirst : (xs : List A) (k : ℕ) → find_from test 0 xs ≡ some k → IsFirst xs k
  find_from-IsFirst xs k h =
      let (m, e, first) = find_from_shift 0 xs k h in
      let same : m ≡ k = omega arith in rw same at first

  IsFirst-find_from : (i k : ℕ) (xs : List A) → IsFirst xs k → find_from test i xs ≡ some (i + k)
  unfolding find_from
  IsFirst-find_from i k [] m = absurd (omega (arith, m.inside))
  IsFirst-find_from i zero (x ∷ xs) m = rw (m.passes) (ap some (omega arith))
  IsFirst-find_from i (suc k) (x ∷ xs) m = rw (m.none_before 0 (omega arith)) (
      IsFirst-find_from (i + 1) k xs (record {
        inside = omega (arith, m.inside);
        passes = m.passes;
        none_before = λ j h. m.none_before (suc j) (omega arith);
      })
      ∙ ap some (omega arith))

  -- The first entry that passes is what a search gives.
  pub find_from_first : (xs : List A) (k : ℕ) → IsFirst xs k → find_from test 0 xs ≡ some k
  find_from_first xs k m = IsFirst-find_from 0 k xs m ∙ ap some (omega arith)

  -- A search that fails has seen no entry that passes.
  pub find_from-none :
      (i : ℕ) (xs : List A) (j : ℕ)
      → test d ≡ false
      → find_from test i xs ≡ none
      → test (get_or xs j d) ≡ false
  unfolding find_from
  find_from-none i [] j e h = e
  find_from-none i (x ∷ xs) zero e h = elim (Bool-cases (test x)) [
    | inl t ↦ absurd (let h' = rw t at h in cc h')
    | inr f ↦ f
  ]
  find_from-none i (x ∷ xs) (suc j) e h = elim (Bool-cases (test x)) [
    | inl t ↦ absurd (let h' = rw t at h in cc h')
    | inr f ↦ find_from-none (i + 1) xs j e (rw f at h)
  ]

  -- A write that the test does not see does not change a search.
  pub find_from-write_at :
      (k i : ℕ) (x : A) (xs : List A)
      → i < length xs
      → test x ≡ test (get_or xs i d)
      → find_from test k (write_at xs i x d) ≡ find_from test k xs
  unfolding find_from
  find_from-write_at k i x [] h e = absurd (omega arith)
  find_from-write_at k zero x (y ∷ xs) h e = rw e
  find_from-write_at k (suc i) x (y ∷ xs) h e =
      rw (find_from-write_at (k + 1) i x xs (omega arith) e)

pub find_dir-inside :
    (dir : CStr) (dirs : List ServerDirectory) (i : ℕ)
    → find_dir dir dirs ≡ some i
    → i < length dirs
unfolding find_dir
find_dir-inside dir dirs i h = (find_from-IsFirst (is_dir dir) no_directory dirs i h).inside

pub free_dir-inside :
    (dirs : List ServerDirectory) (i : ℕ) → free_dir dirs ≡ some i → i < length dirs
unfolding free_dir
free_dir-inside dirs i h =
    (find_from-IsFirst (λ (d : ServerDirectory). not d.used) no_directory dirs i h).inside

pub fs_find_file-inside :
    (dir file : CStr) (files : List ServerFile) (i : ℕ)
    → fs_find_file dir file files ≡ some i
    → i < length files
unfolding fs_find_file
fs_find_file-inside dir file files i h =
    (find_from-IsFirst (is_file dir file) no_file files i h).inside

pub free_file-inside :
    (files : List ServerFile) (i : ℕ) → free_file files ≡ some i → i < length files
unfolding free_file
free_file-inside files i h =
    (find_from-IsFirst (λ (f : ServerFile). not f.used) no_file files i h).inside

pub find_server-inside :
    (name : CStr) (table : List ServerService) (i : ℕ)
    → find_server name table ≡ some i
    → i < length table
unfolding find_server
find_server-inside name table i h =
    (find_from-IsFirst (λ (x : ServerService). streq x.name name) no_service table i h).inside
