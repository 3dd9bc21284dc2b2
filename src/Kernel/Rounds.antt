-- ===== src/Kernel/Rounds.antt =====
-- The loop of kernel_main on a line that is typed.
use sistema_operativo.Prelude.{ℕ, ◌<◌, ◌≡◌, refl, none, some, List, [], ◌∷◌, ◌++◌, length, or_else}
use sistema_operativo.Utils.{CStr, str}
use sistema_operativo.Console.{Output, text, glyph}
use sistema_operativo.Keyboard.{Keyboard}
use sistema_operativo.Keyboard.Ring.{IsValid, contents}
use sistema_operativo.Shell.{max_cmd}
use sistema_operativo.Shell.Line.{AllPrintable, echo, shell_read_line-typed}
use sistema_operativo.Shell.Execute.{Setting, execute_command}
use sistema_operativo.Kernel.{round}

-- What a round puts before the output of the command.
abbrev pub prompted : CStr → List Output → List Output
prompted line out = text (str "> ") 0x0E ∷ ((echo line ++ (glyph 10 0x0F ∷ [])) ++ out)

-- A line of at most 79 printable characters whose keys wait, with the one of Enter behind them: the
-- round prompts, echoes the line and carries it out as a command, with what was typed behind it
-- still waiting.
pub round-typed :
    (line later : List ℕ) (fuel : ℕ) (e : Setting)
    → AllPrintable line
    → length line < max_cmd
    → IsValid e.machine.keyboard
    → contents e.machine.keyboard ≡ line ++ (13 ∷ later)
    → length line < fuel
    → (k : Keyboard) × (round fuel e
        ≡ or_else
            (execute_command line (record e { machine = record (e.machine) { keyboard = k } }))
            none
            (λ x. some (record x { out = prompted line x.out })))
      × IsValid k
      × (contents k ≡ later)
unfolding round
round-typed line later fuel e p h v c f =
    let (k, r, w, rest) =
      shell_read_line-typed line later e.codes fuel e.machine.keyboard p h v c f in
    (k, rw r refl, w, rest)
