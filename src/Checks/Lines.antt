-- ===== src/Checks/Lines.antt =====
-- mi_so_completo/src/shell.c on typed keys.
use sistema_operativo.Utils.{str}
use sistema_operativo.Console.{text}
use sistema_operativo.Shell.Read.{command_read}
use sistema_operativo.Shell.Reading.{echoed, command_read-typed}
use sistema_operativo.Prelude.{true, ◌≡◌, refl, some, [], ◌∷◌, ◌++◌, arith, replicate}
use sistema_operativo.Utils.{CStr}
use sistema_operativo.Console.{glyph}
use sistema_operativo.Keyboard.{Keyboard, keyboard_pop, get_key}
use sistema_operativo.Keyboard.Ring.{IsValid, contents}
use sistema_operativo.Shell.{edit, read_from, shell_read_line}
use sistema_operativo.Shell.Line.{IsLine, shell_read_line-IsLine}

abbrev pub ab : CStr
ab = b'a' ∷ b'b' ∷ []

-- The keys a, b, Enter and c wait.
abbrev pub typed_line : Keyboard
typed_line = record {
  buffer = b'a' ∷ b'b' ∷ 13 ∷ b'c' ∷ replicate 124 0;
  head = 4;
  tail = 0;
  pending = true;
}

pub typed_line-IsValid : IsValid typed_line
typed_line-IsValid = record { size = refl; head_in = omega arith; tail_in = omega arith }

command_read-typed_example :
    (k : Keyboard) × (command_read 5 (replicate 80 7) [] typed_line
      ≡ some (
        k,
        [],
        text (str "Escribe algo: ") 0x0E
            ∷ ((echoed ab ++ (glyph 10 0x0E ∷ []))
                ++ (text (str "Leido: ") 0x0A ∷ text ab 0x0A ∷ text (str "\n") 0x0A ∷ [])),
      ))
    × IsValid k
    × (contents k ≡ b'c' ∷ [])
command_read-typed_example =
    command_read-typed ab (b'c' ∷ []) [] (replicate 80 7) 5 typed_line
      (omega arith, omega arith, (omega arith, omega arith, tt)) (omega arith) refl
      typed_line-IsValid refl (omega arith)

-- The keys a, b, Backspace and Enter wait.
abbrev corrected : Keyboard
corrected = record {
  buffer = b'a' ∷ b'b' ∷ 8 ∷ 13 ∷ replicate 124 0;
  head = 4;
  tail = 0;
  pending = true;
}

corrected_lem :
    shell_read_line 4 [] corrected
    ≡ some (
      b'a' ∷ [],
      record corrected { tail = 4 },
      [],
      glyph b'a' 0x0F ∷ glyph b'b' 0x0F ∷ glyph 8 0x0F ∷ glyph 10 0x0F ∷ [],
    )
unfolding shell_read_line read_from edit get_key keyboard_pop
corrected_lem = refl

shell_read_line-IsLine_example : IsLine (b'a' ∷ [])
shell_read_line-IsLine_example =
    shell_read_line-IsLine 4 [] corrected (b'a' ∷ []) (record corrected { tail = 4 }) []
      (glyph b'a' 0x0F ∷ glyph b'b' 0x0F ∷ glyph 8 0x0F ∷ glyph 10 0x0F ∷ []) corrected_lem
