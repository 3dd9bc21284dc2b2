-- ===== src/Interrupts/Int80.antt =====
-- int80_stub of mi_so_completo/src/interrupts.c behind the gate that setup_idt puts at vector 0x80.
use sistema_operativo.Prelude.{
  ℕ, ◌%◌, ◌≡◌, true, Option, none, some, or_else, List, [], get_or, ◌==◌, if◌then◌else◌,
}
use sistema_operativo.Console.{Output}
use sistema_operativo.Keyboard.Ring.{IsValid, contents}
use sistema_operativo.Keyboard.Keys.{get_key-halts}
use sistema_operativo.Interrupts.Types.{Regs, Machine}
use sistema_operativo.Interrupts.Context.{is_user, popa}
use sistema_operativo.Interrupts.Gates.{Gate, Stub, clear_gate, setup_idt}
use sistema_operativo.Interrupts.Gates.Vectors.{setup_idt-expected}
use sistema_operativo.Interrupts.Syscall.{
  current, user_ptr_ok, sys_read, syscall_handler, syscall_from_regs,
}

-- Of the scancodes `codes` to come, those whose interrupts the processor takes in the handler of a gate:
-- an interrupt gate (type 0xE) turns interrupts off, any other leaves them on.
abbrev pub arriving : Gate → List ℕ → List ℕ
arriving g codes = if g.type_attr % 16 == 0xE then [] else codes

-- INT 0x80 with the interrupt table `gates`: the registers that it returns with, the new state and the output.
unfoldable pub int80_stub :
    List Gate → ℕ → ℕ → List ℕ → Regs → Machine → Option (Regs × Machine × List Output)
int80_stub gates entry fuel codes r m =
    or_else (syscall_from_regs entry fuel (arriving (get_or gates 0x80 clear_gate) codes) r m) none
      (λ x. some (popa x.0 r, x.1, x.2))

no_code_arrives :
    (address : Stub → ℕ) (base : ℕ) (codes : List ℕ)
    → arriving (get_or (setup_idt address base).gates 0x80 clear_gate) codes ≡ []
no_code_arrives address base codes = rw (setup_idt-expected address base 0x80)

-- In the interrupt table of setup_idt, SYS_READ (8) of a user process with a buffer of its own memory
-- never returns if no key waits, whatever scancodes are to come: the gate of INT 0x80 keeps interrupts
-- off.
pub int80_stub-halts :
    (address : Stub → ℕ) (base entry fuel : ℕ) (codes : List ℕ) (r : Regs) (m : Machine)
    → is_user (current m.procs).mode ≡ true
    → r.eax ≡ 8
    → user_ptr_ok r.ebx r.ecx m.procs ≡ true
    → IsValid m.keyboard
    → contents m.keyboard ≡ []
    → int80_stub (setup_idt address base).gates entry fuel codes r m ≡ none
unfolding int80_stub syscall_from_regs syscall_handler sys_read
int80_stub-halts address base entry fuel codes r m user call ok v e =
    rw (no_code_arrives address base codes, user, call, ok, get_key-halts m.keyboard v e)
