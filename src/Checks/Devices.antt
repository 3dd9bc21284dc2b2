-- ===== src/Checks/Devices.antt =====
-- The interrupt table, the serial port and user_program on concrete inputs.
use sistema_operativo.Prelude.{
  ◌+◌, ℕ, ◌-◌, true, ◌≡◌, List, refl, some, [], ◌∷◌, arith, get_or, length, pos,
}
use sistema_operativo.Utils.{CStr}
use sistema_operativo.Console.{glyph}
use sistema_operativo.Process.Table.{kill_process}
use sistema_operativo.Interrupts.Types.{Regs, Machine}
use sistema_operativo.Interrupts.Gates.{Stub, clear_gate, setup_idt}
use sistema_operativo.Interrupts.Gates.Vectors.{IsRight, setup_idt-IsRight}
use sistema_operativo.Interrupts.User.{push_message, user_program, user_program-prints}
use sistema_operativo.Interrupts.Syscall.{user_ptr_ok}
use sistema_operativo.Serial.{serial_print, count_ready, sent, serial_print-ends}
use sistema_operativo.Checks.Handlers.{family, living, with_procs, some_regs}

abbrev same_place : Stub → ℕ
same_place st = 0x2000

setup_idt-IsRight_example :
    IsRight same_place 0x80 (get_or (setup_idt same_place 0x8000).gates 0x80 clear_gate)
setup_idt-IsRight_example = setup_idt-IsRight same_place 0x8000 0x80 (λ (st : Stub). omega arith)

abbrev message : CStr
message = b'a' ∷ b'b' ∷ []

-- Full, then room three times.
abbrev statuses : List ℕ
statuses = 0 ∷ 96 ∷ 32 ∷ 32 ∷ []

serial_print-ends_example :
    (rest : List ℕ) × (serial_print message statuses ≡ some (rest, sent message))
    × (count_ready rest + length message ≡ count_ready statuses)
serial_print-ends_example = serial_print-ends message statuses (unfold count_ready in omega arith)

-- Process 1, in user mode, with its stack at the end of its memory.
abbrev user : Machine
user = with_procs (family living)

abbrev user_regs : Regs
user_regs = record some_regs { esp = 0x10ffc }

stack_fits : user_ptr_ok (0x10ffc - 32) 8 (family living) ≡ true
unfolding user_ptr_ok
stack_fits = refl

user_program-prints_example :
    let (procs, out) = kill_process (pos 1) (family living) in
    user_program 0x9000 5 (30 ∷ []) user_regs user
    ≡ some (
      record user { procs = procs; memory = (push_message (0x10ffc, user.memory)).1 },
      glyph b'M' 0x0F ∷ out,
    )
user_program-prints_example =
    user_program-prints 0x9000 5 (30 ∷ []) user_regs user (omega arith) (omega arith) refl
      stack_fits
