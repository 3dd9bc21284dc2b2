-- ===== src/Shell/Read.antt =====
-- The command `read` of execute_command in mi_so_completo/src/shell.c.
use sistema_operativo.Prelude.{
  ℕ, zero, suc, ◌+◌, ◌-◌, ◌&&◌, Option, none, some, List, [], ◌∷◌, ◌++◌, set, ltb, leb, ◌==◌,
  if◌then◌else◌, or_else,
}
use sistema_operativo.Utils.{str, c_string}
use sistema_operativo.Console.{Output, text, glyph}
use sistema_operativo.Keyboard.{Keyboard, get_key}

-- What a key other than '\r' makes of the index and the buffer, and what it prints.
unfoldable pub put_key : ℕ → ℕ → List ℕ → ℕ × List ℕ × List Output
put_key c i buf =
    if c == 8 && ltb 0 i
    then (i - 1, buf, glyph 8 0x0E ∷ [])
    else if leb 32 c && ltb c 127
    then (i + 1, set buf i c, glyph c 0x0E ∷ [])
    else (i, buf, [])

-- The loop, from index `i` on. `fuel` bounds its rounds; `none` if it is used up or no key comes.
unfoldable pub read_keys :
    ℕ → ℕ → List ℕ → List ℕ → Keyboard → Option (List ℕ × Keyboard × List ℕ × List Output)
read_keys zero i buf codes k = none
read_keys (suc fuel) i buf codes k =
    let more = or_else (get_key codes k) none λ r.
      let (i', buf', out) = put_key r.0 i buf in
      let rest = read_keys fuel i' buf' r.2 r.1 in
      if r.0 == 13
      then some (set buf i 0, r.1, r.2, glyph 10 0x0E ∷ [])
      else or_else rest none (λ t. some (t.0, t.1, t.2, out ++ t.3)) in
    if ltb i 79 then more else some (buf, k, codes, [])

-- `buf` is what the stack holds where the array comes to lie: its 80 bytes are not initialised.
unfoldable pub command_read :
    ℕ → List ℕ → List ℕ → Keyboard → Option (Keyboard × List ℕ × List Output)
command_read fuel buf codes k = or_else (read_keys fuel 0 buf codes k) none λ r. some (
  r.1,
  r.2,
  text (str "Escribe algo: ") 0x0E
      ∷ (r.3 ++ (text (str "Leido: ") 0x0A ∷ text (c_string r.0) 0x0A ∷ text (str "\n") 0x0A ∷ [])),
)
