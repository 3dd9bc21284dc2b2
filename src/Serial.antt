-- ===== src/Serial.antt =====
-- mi_so_completo/src/serial.c. What the port's status reads give is a list, an argument: the line
-- is full while a status has no bit 0x20, and `none` is a wait that the list does not end.
use sistema_operativo.Prelude.{
  ℕ, ◌+◌, ◌/◌, ◌%◌, ◌≤◌, ◌≡◌, refl, Bool, Option, none, some, List, [], ◌∷◌, ◌++◌, ◌==◌,
  if◌then◌else◌, or_else, length, arith, Bool-cases, inl, inr, ◌-◌, ◌<◌,
}
use native.Mathlib.Decide.{ℕ_discrete}
use sistema_operativo.Utils.{CStr}

abbrev pub com1 : ℕ
com1 = 0x3F8

-- The port and the value of each write.
unfoldable pub serial_init : List (ℕ × ℕ)
serial_init =
    (com1 + 1, 0x00)
    ∷ (com1 + 3, 0x80)
    ∷ (com1 + 0, 0x03)
    ∷ (com1 + 1, 0x00)
    ∷ (com1 + 3, 0x03)
    ∷ (com1 + 2, 0xC7)
    ∷ (com1 + 4, 0x0B)
    ∷ []

-- (inb(COM1 + 5) & 0x20) != 0
abbrev pub is_ready : ℕ → Bool
is_ready status = status / 32 % 2 == 1

-- The loop of serial_putc: the statuses that are left behind it.
unfoldable pub wait_ready : List ℕ → Option (List ℕ)
wait_ready [] = none
wait_ready (status ∷ rest) =
    let later = wait_ready rest in if is_ready status then some rest else later

unfoldable pub serial_putc : ℕ → List ℕ → Option (List ℕ × List (ℕ × ℕ))
serial_putc c statuses = or_else (wait_ready statuses) none (λ rest. some (rest, (com1, c) ∷ []))

unfoldable pub serial_print : CStr → List ℕ → Option (List ℕ × List (ℕ × ℕ))
serial_print [] statuses = some (statuses, [])
serial_print (c ∷ s) statuses =
    or_else (serial_putc c statuses) none
      (λ r. or_else (serial_print s r.0) none (λ q. some (q.0, r.1 ++ q.1)))

-- How often the line has room.
unfoldable pub count_ready : List ℕ → ℕ
count_ready [] = 0
count_ready (status ∷ rest) = if is_ready status then count_ready rest + 1 else count_ready rest

-- Every byte of the string, in order.
unfoldable pub sent : CStr → List (ℕ × ℕ)
sent [] = []
sent (c ∷ s) = (com1, c) ∷ sent s

-- The wait ends at the first ready status.
wait_ready-ends :
    (statuses : List ℕ) (n : ℕ)
    → count_ready statuses ≡ n + 1
    → (rest : List ℕ) × (wait_ready statuses ≡ some rest) × (count_ready rest ≡ n)
unfolding wait_ready count_ready
wait_ready-ends [] n h = absurd (omega (arith, h))
wait_ready-ends (status ∷ rest) n h = elim (Bool-cases (is_ready status)) [
  | inl r ↦ (rest, rw r refl, ground (arith, h, r))
  | inr r ↦ let (later, e, c) = wait_ready-ends rest n (ground (arith, h, r)) in (later, rw r e, c)
]

wait_ready-waits : (statuses : List ℕ) → count_ready statuses ≡ 0 → wait_ready statuses ≡ none
unfolding wait_ready count_ready
wait_ready-waits [] h = refl
wait_ready-waits (status ∷ rest) h = elim (Bool-cases (is_ready status)) [
  | inl r ↦ absurd (ground (arith, h, r))
  | inr r ↦ rw r (wait_ready-waits rest (ground (arith, h, r)))
]

-- serial_print ends as soon as the line has had room as often as the string has bytes, with every
-- byte written to COM1 in order.
pub serial_print-ends :
    (s : CStr) (statuses : List ℕ)
    → length s ≤ count_ready statuses
    → (rest : List ℕ) × (serial_print s statuses ≡ some (rest, sent s))
      × (count_ready rest + length s ≡ count_ready statuses)
unfolding serial_print serial_putc sent
serial_print-ends [] statuses h = (statuses, refl, omega arith)
serial_print-ends (c ∷ s) statuses h =
    let (later, w, n) = wait_ready-ends statuses (count_ready statuses - 1) (omega (arith, h)) in
    let (rest, e, m) = serial_print-ends s later (omega (arith, h, n)) in
    (rest, rw w (rw e refl), omega (arith, h, n, m))

-- Until then it waits.
pub serial_print-waits :
    (s : CStr) (statuses : List ℕ)
    → count_ready statuses < length s
    → serial_print s statuses ≡ none
unfolding serial_print serial_putc
serial_print-waits [] statuses h = absurd (omega arith)
serial_print-waits (c ∷ s) statuses h = elim (ℕ_discrete (count_ready statuses) 0) [
  | yes z ↦ rw (wait_ready-waits statuses z) refl
  | no nz ↦
      let (later, w, n) =
        wait_ready-ends statuses (count_ready statuses - 1) (omega (arith, h, nz)) in
      rw w (rw (serial_print-waits s later (omega (arith, h, n, nz))) refl)
]
