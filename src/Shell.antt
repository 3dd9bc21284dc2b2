-- ===== src/Shell.antt =====
-- shell_read_line of mi_so_completo/src/shell.c: the line editor of the shell. Execute, and the modules
-- that it uses, are its execute_command.
pub mod Line
pub mod Args
pub mod Arguments
pub mod Apache
pub mod Files
pub mod Listings
pub mod Help
pub mod Processes
pub mod Read
pub mod Reading
pub mod Execute
pub mod Safety
pub mod Effects
pub mod Access
pub mod Bounds
use sistema_operativo.Prelude.{
  ℕ, zero, suc, ◌-◌, Bool, ◌&&◌, Option, none, some, List, [], ◌∷◌, ◌++◌, length, take, ltb, leb,
  ◌==◌, if◌then◌else◌, or_else,
}
use sistema_operativo.Utils.{CStr}
use sistema_operativo.Console.{Output, glyph}
use sistema_operativo.Keyboard.{Keyboard, get_key}

abbrev pub max_cmd : ℕ
max_cmd = 80

-- What one key other than '\r' does to the line, `command` up to `cmd_index`, and what it prints.
-- A character is a byte: those from 128 on are negative as a `char`, and the test refuses both.
unfoldable pub edit : ℕ → CStr → CStr × List Output
edit c line =
    if c == 8 && ltb 0 (length line)
    then (take (length line - 1) line, glyph 8 0x0F ∷ [])
    else if leb 32 c && (ltb c 127 && ltb (length line) (max_cmd - 1))
    then (line ++ (c ∷ []), glyph c 0x0F ∷ [])
    else (line, [])

-- The line, the keyboard buffer, the scancodes still to come and the output; `none` if the fuel is
-- used up or no key comes any more. `fuel` bounds the keys of the line.
unfoldable pub read_from :
    ℕ → CStr → List ℕ → Keyboard → Option (CStr × Keyboard × List ℕ × List Output)
read_from zero line codes k = none
read_from (suc fuel) line codes k = or_else (get_key codes k) none λ r.
    let (line', out) = edit r.0 line in
    let rest = read_from fuel line' r.2 r.1 in
    if r.0 == 13
    then some (line, r.1, r.2, glyph 10 0x0F ∷ [])
    else or_else rest none (λ t. some (t.0, t.1, t.2, out ++ t.3))

unfoldable pub shell_read_line :
    ℕ → List ℕ → Keyboard → Option (CStr × Keyboard × List ℕ × List Output)
shell_read_line fuel codes k = read_from fuel [] codes k
