-- ===== src/Shell/Arguments.antt =====
-- The numbers that a line of the shell gives as arguments.
use sistema_operativo.Prelude.{◌<◌, ◌≤◌, ◌≢◌}
use sistema_operativo.Utils.{str, streq, starts_with}
use sistema_operativo.Console.{text}
use sistema_operativo.Process.Types.{slot, put_slot, empty, max_processes}
use sistema_operativo.Process.Table.{no_such_process}
use sistema_operativo.Shell.Processes.{command_priority, is_priority}
use sistema_operativo.Shell.Execute.{Setting, execute_command, process_command, with_procs}
use sistema_operativo.Prelude.{ℕ, ◌≡◌, refl, inl, inr, true, false, [], ◌∷◌, ◌++◌, arith, ℤ, pos}
use sistema_operativo.Utils.{CStr, int_to_str, skip_spaces}
use sistema_operativo.Utils.Number.{AllDigits, HasNegation, parse_number-int_to_str}
use sistema_operativo.Utils.Numeral.{
  IsNumeral, digit_lem, parse_number-space, skip_spaces-numeral, int_to_str-IsNumeral,
}
use sistema_operativo.Shell.Args.{skip_word, first_number, second_number}

skip_word-digits : (s r : CStr) → AllDigits s → skip_word (s ++ (b' ' ∷ r)) ≡ b' ' ∷ r
unfolding skip_word
skip_word-digits [] r h = refl
skip_word-digits (c ∷ s) r h = rw ((digit_lem c h.0).0) (skip_word-digits s r h.1)

skip_word-space : (s r : CStr) → IsNumeral s → skip_word (s ++ (b' ' ∷ r)) ≡ b' ' ∷ r
skip_word-space s r (inl d) = skip_word-digits s r d
skip_word-space s r (inr (t, e, d)) = rw e (unfold skip_word in skip_word-digits t r d)

-- Of two numbers in decimal, with a space between them, the commands `sleep`, `priority` and `add` take
-- the first and the second; each is an `int` other than the smallest.
pub numbers_lem :
    (a b : ℤ)
    → HasNegation a
    → HasNegation b
    → let args = int_to_str a ++ (b' ' ∷ int_to_str b) in
      (first_number args ≡ a) × (second_number args ≡ b)
unfolding first_number second_number
numbers_lem a b h k =
    let n = int_to_str-IsNumeral a h in
    (
      rw (parse_number-space (int_to_str a) (int_to_str b) n) (parse_number-int_to_str a h),
      rw (skip_word-space (int_to_str a) (int_to_str b) n) (
          unfold skip_spaces in
          rw (skip_spaces-numeral (int_to_str b) (int_to_str-IsNumeral b k))
            (parse_number-int_to_str b k)),
    )

-- `priority` with the pid of a process in use and a priority from 0 to 9, in decimal, sets that
-- priority and changes nothing else.
pub command_priority_lem :
    (pid prio : ℕ) (e : Setting)
    → pid < max_processes
    → (slot e.machine.procs pid).state ≢ empty
    → prio ≤ 9
    → let s = e.machine.procs in
      execute_command
        (str "priority " ++ (int_to_str (pos pid) ++ (b' ' ∷ int_to_str (pos prio))))
        e
      ≡ with_procs e (
        put_slot s pid (record (slot s pid) { priority = prio }),
        text (str "Prioridad actualizada\n") 0x0A ∷ [],
      )
unfolding execute_command process_command str streq starts_with command_priority
command_priority_lem pid prio e h used small =
    let (first, second) = numbers_lem (pos pid) (pos prio) (omega arith) (omega arith) in
    let exists : no_such_process (pos pid) e.machine.procs ≡ false = ground (arith, used) in
    let bounded : is_priority (pos prio) ≡ true = ground arith in
    rw first (rw second (rw exists (rw bounded refl)))
