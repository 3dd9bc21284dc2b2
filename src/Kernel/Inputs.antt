-- ===== src/Kernel/Inputs.antt =====
-- Any number of interrupts and lines, from the set-up of kernel_main on.
use sistema_operativo.Prelude.{
  ℕ, ◌≡◌, false, Option, none, some, List, [], ◌∷◌, or_else, Bool, true, if◌then◌else◌,
}
use sistema_operativo.Utils.{CStr, str, streq}
use sistema_operativo.Process.Slots.{Inv}
use sistema_operativo.Interrupts.Types.{Machine}
use sistema_operativo.Shell.Execute.{Setting, execute_command}
use sistema_operativo.Keyboard.{keyboard_irq_handler}
use sistema_operativo.Interrupts.Types.{Regs}
use sistema_operativo.Interrupts.Context.{timer_irq_dispatch}
use sistema_operativo.Servers.Bounds.{ServersFit}

-- What happens to the kernel: a timer interrupt, with the registers of what it interrupts, a keyboard
-- interrupt, with its scancode, or a line at the shell.
pub data Input : Type 0 where
  tick : Regs → Input
  key : ℕ → Input
  line : CStr → Input

-- The machine, and whether the processor is still with the shell: a `runu` that enters user mode leaves it
-- for good, since enter_user_mode does not return.
pub record Running : Type 0 where
  pub machine : Machine
  pub at_shell : Bool

abbrev pub stays : Option (ℕ × ℕ) → Bool
stays none = true
stays (some entry) = false

-- `e` has the setting of the commands, but for the machine.
unfoldable pub respond : Setting → Input → Machine → Option Running
respond e (tick r) m = some (record { machine = (timer_irq_dispatch r m).1; at_shell = true })
respond e (key code) m = some (record {
  machine = record m { keyboard = keyboard_irq_handler code m.keyboard };
  at_shell = true;
})
respond e (line command) m =
    or_else (execute_command command (record e { machine = m })) none
      (λ x. some (record { machine = x.machine; at_shell = stays x.entered }))

-- A history ends where user mode is entered: what would come after that is not carried out.
unfoldable pub carry_out : Setting → Input → Running → Option Running
carry_out e i x = if x.at_shell then respond e i x.machine else some x

unfoldable pub carry_out_all : Setting → List Input → Running → Option Running
carry_out_all e [] x = some x
carry_out_all e (i ∷ is) x = or_else (carry_out e i x) none (carry_out_all e is)

-- No line of the two commands is among the inputs: `yield`, and `read`, which waits for keys.
abbrev pub IsPlain : Input → Type 0
IsPlain (tick r) = Unit {0}
IsPlain (key code) = Unit {0}
IsPlain (line command) =
    (streq command (str "yield") ≡ false) × (streq command (str "read") ≡ false)

abbrev pub ArePlain : List Input → Type 0
ArePlain [] = Unit {0}
ArePlain (i ∷ is) = IsPlain i × ArePlain is

-- The process table is well formed, and the servers keep to the bounds of their arrays.
abbrev pub IsSound : Running → Type 0
IsSound x = Inv x.machine.procs × ServersFit x.machine.servers

-- The machine is there, and sound.
abbrev pub GoesOn : Option Running → Type 0
GoesOn none = ⊥
GoesOn (some x) = IsSound x
