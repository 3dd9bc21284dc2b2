-- ===== src/Interrupts/Gates.antt =====
-- The interrupt table of mi_so_completo/src/interrupts.c: set_idt_gate, remap_pic and setup_idt, and
-- what an exception prints.
pub mod Vectors
use sistema_operativo.Prelude.{
  ℕ, zero, suc, ◌+◌, ◌-◌, ◌*◌, ◌/◌, ◌%◌, Bool, true, List, [], ◌∷◌, ◌++◌, get_or, set, replicate,
  ltb, if◌then◌else◌,
}
use sistema_operativo.Utils.{CStr, str}
use sistema_operativo.Console.{Output, text}

-- IDT_Entry
pub record Gate : Type 0 where
  pub offset_low : ℕ
  pub selector : ℕ
  pub zero_byte : ℕ
  pub type_attr : ℕ
  pub offset_high : ℕ

-- The assembly stubs; the linker chooses their addresses.
pub data Stub : Type 0 where
  isr : ℕ → Stub
  irq0 irq1 int80 : Stub

unfoldable pub set_idt_gate : ℕ → ℕ → ℕ → List Gate → List Gate
set_idt_gate vector handler type_attr idt = set idt vector (record {
  offset_low = handler % 65536;
  selector = 0x08;
  zero_byte = 0;
  type_attr = type_attr;
  offset_high = handler / 65536 % 65536;
})

-- The first loop of setup_idt.
abbrev pub clear_gate : Gate
clear_gate = record {
  offset_low = 0;
  selector = 0x08;
  zero_byte = 0;
  type_attr = 0;
  offset_high = 0;
}

-- The gates of the exceptions, `n` of them from `vector` on.
unfoldable pub set_isr_gates : ℕ → ℕ → (Stub → ℕ) → List Gate → List Gate
set_isr_gates zero vector address idt = idt
set_isr_gates (suc n) vector address idt =
    set_isr_gates n (vector + 1) address (set_idt_gate vector (address (isr vector)) 0x8E idt)

-- The writes to ports, with port and value.
unfoldable pub remap_pic : List (ℕ × ℕ)
remap_pic =
    (0x20, 0x11)
    ∷ (0xA0, 0x11)
    ∷ (0x21, 0x20)
    ∷ (0xA1, 0x28)
    ∷ (0x21, 0x04)
    ∷ (0xA1, 0x02)
    ∷ (0x21, 0x01)
    ∷ (0xA1, 0x01)
    ∷ (0x21, 0xFC)
    ∷ (0xA1, 0xFF)
    ∷ []

-- What setup_idt leaves: the table, the writes to ports, the descriptor that `lidt` loads, and the
-- flag that `sti` sets.
pub record Idt : Type 0 where
  pub gates : List Gate
  pub writes : List (ℕ × ℕ)
  pub limit : ℕ
  pub base : ℕ
  pub enabled : Bool

-- `address` gives the addresses of the stubs and `base` that of the table.
unfoldable pub setup_idt : (Stub → ℕ) → ℕ → Idt
setup_idt address base =
    let exceptions = set_isr_gates 32 0 address (replicate 256 clear_gate) in
    let timer = set_idt_gate 0x20 (address irq0) 0x8E exceptions in
    let keyboard = set_idt_gate 0x21 (address irq1) 0x8E timer in
    record {
      gates = set_idt_gate 0x80 (address int80) 0xEE keyboard;
      writes = remap_pic;
      limit = 8 * 256 - 1;
      base = base;
      enabled = true;
    }

abbrev pub messages : List CStr
messages =
    str "Divide Error"
      ∷ str "Debug"
      ∷ str "NMI"
      ∷ str "Breakpoint"
      ∷ str "Overflow"
      ∷ str "BOUND Range"
      ∷ str "Invalid Opcode"
      ∷ str "Device Not Available"
      ∷ str "Double Fault"
      ∷ str "Coprocessor Segment Overrun"
      ∷ str "Invalid TSS"
      ∷ str "Segment Not Present"
      ∷ str "Stack Fault"
      ∷ str "General Protection"
      ∷ str "Page Fault"
      ∷ str "Reserved"
      ∷ str "x87 Floating-Point"
      ∷ str "Alignment Check"
      ∷ str "Machine Check"
      ∷ str "SIMD Floating-Point"
      ∷ str "Virtualization"
      ∷ str "Control Protection"
      ∷ replicate 6 (str "Reserved")
    ++ str "Hypervisor Injection" ∷ str "VMM Communication" ∷ str "Security" ∷ str "Reserved" ∷ []

-- What it prints before it halts for ever.
unfoldable pub exception_handler_code : ℕ → List Output
exception_handler_code vector =
    text (str "\n[EXCEPTION] ") 0x0C
    ∷ text (if ltb vector 32 then get_or messages vector [] else str "Unknown") 0x0C
    ∷ text (str "\nSistema detenido.\n") 0x0C
    ∷ []
