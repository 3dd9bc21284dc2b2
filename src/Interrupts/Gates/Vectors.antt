-- ===== src/Interrupts/Gates/Vectors.antt =====
-- Which interrupt reaches which handler, and what user mode may call.
use sistema_operativo.Prelude.{
  ℕ, zero, suc, ◌+◌, ◌*◌, ◌/◌, ◌%◌, ◌≤◌, ◌<◌, ◌≡◌, ◌≢◌, refl, ◌∙◌, sym, Bool, true, false, Option,
  none, some, List, get_or, replicate, length, length-set, length-replicate, get_or-set_self,
  get_or-set_ne, ltb, leb, ◌==◌, if◌then◌else◌, subst, ◌&&◌, lt→ltb, arith, uint_mod,
}
use native.Mathlib.Decide.{dec_lt, ℕ_discrete}
use sistema_operativo.Interrupts.Gates.{
  Gate, Stub, isr, irq0, irq1, int80, set_idt_gate, clear_gate, set_isr_gates, setup_idt,
}

-- The gate of a handler.
abbrev gate : ℕ → ℕ → Gate
gate handler type_attr = record {
  offset_low = handler % 65536;
  selector = 0x08;
  zero_byte = 0;
  type_attr = type_attr;
  offset_high = handler / 65536 % 65536;
}

-- How the processor reads a gate: the address, the present bit and the least privileged ring that
-- may call it by an INT instruction.
abbrev pub handler_of : Gate → ℕ
handler_of g = g.offset_low + g.offset_high * 65536

abbrev pub is_present : Gate → Bool
is_present g = g.type_attr / 128 % 2 == 1

abbrev pub caller_ring : Gate → ℕ
caller_ring g = g.type_attr / 32 % 4

-- The handler that a vector is meant for.
abbrev pub target : ℕ → Option Stub
target v =
    if ltb v 32
    then some (isr v)
    else if v == 0x20
    then some irq0
    else if v == 0x21
    then some irq1
    else if v == 0x80
    then some int80
    else none

abbrev pub gate_at : List Gate → ℕ → Gate
gate_at idt v = get_or idt v clear_gate

gate_at-set_idt_gate :
    (v w handler attr : ℕ) (idt : List Gate)
    → v < length idt
    → gate_at (set_idt_gate v handler attr idt) w
      ≡ (if w == v then gate handler attr else gate_at idt w)
unfolding set_idt_gate
gate_at-set_idt_gate v w handler attr idt h = ground (
  arith,
  get_or-set_self idt v (gate handler attr) clear_gate h,
  get_or-set_ne idt v w (gate handler attr) clear_gate,
)

length-set_idt_gate :
    (v handler attr : ℕ) (idt : List Gate) → length (set_idt_gate v handler attr idt) ≡ length idt
unfolding set_idt_gate
length-set_idt_gate v handler attr idt = length-set idt v (gate handler attr)

length-set_isr_gates :
    (n v : ℕ) (address : Stub → ℕ) (idt : List Gate)
    → length (set_isr_gates n v address idt) ≡ length idt
unfolding set_isr_gates
length-set_isr_gates zero v address idt = refl
length-set_isr_gates (suc n) v address idt =
    length-set_isr_gates n (v + 1) address (set_idt_gate v (address (isr v)) 0x8E idt)
    ∙ length-set_idt_gate v (address (isr v)) 0x8E idt

-- What one round has set and what the later ones set, together.
joined :
    (g old : ℕ → Gate) (v w n : ℕ)
    → ((if leb (v + 1) w
          then if ltb w (v + 1 + n) then g w else (if w == v then g v else old w)
          else (if w == v then g v else old w))
        ≡ (if leb v w then if ltb w (v + suc n) then g w else old w else old w))
joined g old v w n = elim (ℕ_discrete v w) [ yes e ↦ rw e (ground arith) | no ne ↦ ground arith ]

-- The loop changes the vectors from `v` to `v + n - 1`.
gate_at-set_isr_gates :
    (n v w : ℕ) (address : Stub → ℕ) (idt : List Gate)
    → v + n ≤ length idt
    → gate_at (set_isr_gates n v address idt) w ≡ (
        if leb v w
        then if ltb w (v + n) then gate (address (isr w)) 0x8E else gate_at idt w
        else gate_at idt w)
unfolding set_isr_gates
gate_at-set_isr_gates zero v w address idt h = ground arith
gate_at-set_isr_gates (suc n) v w address idt h =
    gate_at-set_isr_gates n (v + 1) w address (set_idt_gate v (address (isr v)) 0x8E idt)
      (omega (arith, length-set_idt_gate v (address (isr v)) 0x8E idt))
    ∙ rw (gate_at-set_idt_gate v w (address (isr v)) 0x8E idt (omega arith))
        (joined (λ x. gate (address (isr x)) 0x8E) (gate_at idt) v w n)

-- The gate leads to the handler, or there is none.
abbrev pub Reaches : (Stub → ℕ) → Option Stub → Gate → Type 0
Reaches address none g = is_present g ≡ false
Reaches address (some st) g = (is_present g ≡ true) × (handler_of g ≡ address st)

-- What setup_idt puts at each vector.
abbrev expected : (Stub → ℕ) → ℕ → Gate
expected address v =
    if v == 0x80
    then gate (address int80) 0xEE
    else if v == 0x21
    then gate (address irq1) 0x8E
    else if v == 0x20
    then gate (address irq0) 0x8E
    else if leb 0 v
    then if ltb v 32 then gate (address (isr v)) 0x8E else clear_gate
    else clear_gate

gate_at-replicate : (n v : ℕ) → gate_at (replicate n clear_gate) v ≡ clear_gate
gate_at-replicate zero v = refl
gate_at-replicate (suc n) zero = refl
gate_at-replicate (suc n) (suc v) = gate_at-replicate n v

module _ (address : Stub → ℕ) (base v : ℕ) where
  abbrev exceptions : List Gate
  exceptions = set_isr_gates 32 0 address (replicate 256 clear_gate)

  abbrev timer : List Gate
  timer = set_idt_gate 0x20 (address irq0) 0x8E exceptions

  abbrev keyboard : List Gate
  keyboard = set_idt_gate 0x21 (address irq1) 0x8E timer

  length-exceptions : length exceptions ≡ 256
  length-exceptions =
      length-set_isr_gates 32 0 address (replicate 256 clear_gate) ∙ length-replicate 256 clear_gate

  length-timer : length timer ≡ 256
  length-timer = length-set_idt_gate 0x20 (address irq0) 0x8E exceptions ∙ length-exceptions

  length-keyboard : length keyboard ≡ 256
  length-keyboard = length-set_idt_gate 0x21 (address irq1) 0x8E timer ∙ length-timer

  pub setup_idt-expected : gate_at (setup_idt address base).gates v ≡ expected address v
  unfolding setup_idt
  setup_idt-expected =
      gate_at-set_idt_gate 0x80 v (address int80) 0xEE keyboard (omega (arith, length-keyboard))
      ∙ rw (gate_at-set_idt_gate 0x21 v (address irq1) 0x8E timer (omega (arith, length-timer))) (
          rw
            (gate_at-set_idt_gate 0x20 v (address irq0) 0x8E exceptions
              (omega (arith, length-exceptions)))
            (rw
              (gate_at-set_isr_gates 32 0 v address (replicate 256 clear_gate)
                (omega (arith, length-replicate 256 clear_gate)))
              (rw (gate_at-replicate 256 v) refl)))

handler_of-gate : (handler attr : ℕ) → handler < uint_mod → handler_of (gate handler attr) ≡ handler
handler_of-gate handler attr h = omega arith

-- The gate of a vector, with its target, and whether user mode may call it.
abbrev pub IsRight : (Stub → ℕ) → ℕ → Gate → Type 0
IsRight address v g =
    Reaches address (target v) g × ((is_present g && caller_ring g == 3) ≡ (v == 0x80))

-- The vectors of the exceptions and those of no handler.
other-IsRight :
    (address : Stub → ℕ) (v : ℕ)
    → ((st : Stub) → address st < uint_mod)
    → v ≢ 0x80
    → v ≢ 0x21
    → v ≢ 0x20
    → IsRight address v (expected address v)
other-IsRight address v h n80 n21 n20 =
    let e80 : (v == 0x80) ≡ false = ground arith in
    let e21 : (v == 0x21) ≡ false = ground arith in
    let e20 : (v == 0x20) ≡ false = ground arith in
    let from : leb 0 v ≡ true = ground arith in
    rw e80 (
      rw e21 (
        rw e20 (
          rw from (elim (dec_lt v 32) [
            | yes l ↦
                let below : ltb v 32 ≡ true = lt→ltb v 32 l in
                rw below ((refl, handler_of-gate _ 0x8E (h (isr v))), refl)
            | no l ↦ let above : ltb v 32 ≡ false = ground arith in rw above (refl, refl)
          ]))))

expected-IsRight :
    (address : Stub → ℕ) (v : ℕ)
    → ((st : Stub) → address st < uint_mod)
    → IsRight address v (expected address v)
expected-IsRight address v h = elim (ℕ_discrete v 0x80) [
  | yes e ↦ rw e ((refl, handler_of-gate _ 0xEE (h int80)), refl)
  | no n80 ↦ elim (ℕ_discrete v 0x21) [
    | yes e ↦ rw e ((refl, handler_of-gate _ 0x8E (h irq1)), refl)
    | no n21 ↦ elim (ℕ_discrete v 0x20) [
      | yes e ↦ rw e ((refl, handler_of-gate _ 0x8E (h irq0)), refl)
      | no n20 ↦ other-IsRight address v h n80 n21 n20
    ]
  ]
]

-- After setup_idt vectors 0 to 31 lead to their exception stubs, 0x20 to that of the timer, 0x21
-- to that of the keyboard and 0x80 to that of the system calls; the gates of all others are not
-- present. Only 0x80 may be called from user mode. The addresses are below 2 ^ 32.
pub setup_idt-IsRight :
    (address : Stub → ℕ) (base v : ℕ)
    → ((st : Stub) → address st < uint_mod)
    → IsRight address v (get_or (setup_idt address base).gates v clear_gate)
setup_idt-IsRight address base v h =
    subst (IsRight address v) (sym (setup_idt-expected address base v))
      (expected-IsRight address v h)
