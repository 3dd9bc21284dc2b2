-- ===== src/Servers/Lookup.antt =====
-- The searches of mi_so_completo/src/servers.c. `none` is the result -1.
use sistema_operativo.Prelude.{
  ℕ, ◌+◌, Bool, true, false, not, ◌&&◌, Option, none, some, List, [], ◌∷◌, if◌then◌else◌,
}
use sistema_operativo.Utils.{CStr, streq}
use sistema_operativo.Servers.Types.{ServerService, ServerDirectory, ServerFile}

-- The least index, from `i` on, of an entry that passes the test.
unfoldable pub find_from {ℓ} : {A : Type ℓ} → (A → Bool) → ℕ → List A → Option ℕ
find_from test i [] = none
find_from test i (x ∷ xs) = let rest = find_from test (i + 1) xs in if test x then some i else rest

unfoldable pub find_server : CStr → List ServerService → Option ℕ
find_server name = find_from (λ x. streq x.name name) 0

abbrev pub is_dir : CStr → ServerDirectory → Bool
is_dir dir d = d.used && streq d.name dir

abbrev pub is_file : CStr → CStr → ServerFile → Bool
is_file dir file f = f.used && (streq f.dir dir && streq f.name file)

-- used, and in the directory
abbrev pub lies_in : CStr → ServerFile → Bool
lies_in dir f = f.used && streq f.dir dir

abbrev pub found : Option ℕ → Bool
found none = false
found (some i) = true

unfoldable pub find_dir : CStr → List ServerDirectory → Option ℕ
find_dir dir = find_from (is_dir dir) 0

unfoldable pub fs_dir_exists : CStr → List ServerDirectory → Bool
fs_dir_exists dir dirs = found (find_dir dir dirs)

unfoldable pub fs_find_file : CStr → CStr → List ServerFile → Option ℕ
fs_find_file dir file = find_from (is_file dir file) 0

-- The first slot that is not in use, as the loops of mkdir, touch and apache add look for it.
unfoldable pub free_dir : List ServerDirectory → Option ℕ
free_dir = find_from (λ d. not d.used) 0

unfoldable pub free_file : List ServerFile → Option ℕ
free_file = find_from (λ f. not f.used) 0
