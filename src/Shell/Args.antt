-- ===== src/Shell/Args.antt =====
-- How mi_so_completo/src/shell.c takes its arguments out of the line.
use sistema_operativo.Prelude.{ℕ, Bool, true, false, [], ◌∷◌, ◌==◌, if◌then◌else◌, or_else, ℤ}
use sistema_operativo.Utils.{CStr, skip_spaces, parse_number, read_token}
use sistema_operativo.Servers.Types.{Servers, Reply, refuse}

-- while (command[i] != ' ' && command[i] != '\0') i++;
unfoldable pub skip_word : CStr → CStr
skip_word [] = []
skip_word (c ∷ s) = if c == b' ' then c ∷ s else skip_word s

-- The two numbers of `sleep`, `priority` and `add`.
unfoldable pub first_number : CStr → ℤ
first_number args = parse_number args

unfoldable pub second_number : CStr → ℤ
second_number args = parse_number (skip_spaces (skip_word args))

-- *cursor == '\0'
abbrev pub is_end : CStr → Bool
is_end [] = true
is_end (c ∷ s) = false

-- The next token, of an array of `size` bytes, and the rest of a command, or the message on how it
-- is used.
abbrev pub with_token : ℕ → CStr → Servers → CStr → (CStr → CStr → Reply) → Reply
with_token size usage s cursor rest =
    or_else (read_token cursor size) (refuse s usage) (λ t. rest t.0 t.1)
