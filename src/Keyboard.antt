-- ===== src/Keyboard.antt =====
-- The keyboard buffer of mi_so_completo/src/interrupts.c: a ring of 128 characters that the interrupt
-- of the keyboard fills and get_key empties.
pub mod Ring
pub mod Keys
use Prim.Native.Nat.{bit_and}
use sistema_operativo.Prelude.{
  ℕ, ◌+◌, ◌%◌, Bool, true, false, ◌&&◌, Option, none, some, List, [], ◌∷◌, get_or, set, ltb, ◌==◌,
  if◌then◌else◌, or_else,
}

abbrev pub kbd_buffer_size : ℕ
kbd_buffer_size = 128

pub record Keyboard : Type 0 where
  pub buffer : List ℕ
  pub head : ℕ
  pub tail : ℕ
  pub pending : Bool

-- The rows of keyboard_map; the entries behind them are 0.
abbrev pub keyboard_map : List ℕ
keyboard_map =
    0 ∷ 27 ∷ b'1' ∷ b'2' ∷ b'3' ∷ b'4' ∷ b'5' ∷ b'6' ∷ b'7' ∷ b'8' ∷ b'9' ∷ b'0' ∷ b'-' ∷ b'=' ∷ 8
    ∷ 9 ∷ b'q' ∷ b'w' ∷ b'e' ∷ b'r' ∷ b't' ∷ b'y' ∷ b'u' ∷ b'i' ∷ b'o' ∷ b'p' ∷ b'[' ∷ b']' ∷ 13 ∷ 0
    ∷ b'a' ∷ b's' ∷ b'd' ∷ b'f' ∷ b'g' ∷ b'h' ∷ b'j' ∷ b'k' ∷ b'l' ∷ b';' ∷ 39 ∷ b'`' ∷ 0 ∷ 92
    ∷ b'z' ∷ b'x' ∷ b'c' ∷ b'v' ∷ b'b' ∷ b'n' ∷ b'm' ∷ b',' ∷ b'.' ∷ b'/' ∷ 0 ∷ b'*' ∷ 0 ∷ b' ' ∷ []

unfoldable pub keyboard_push : ℕ → Keyboard → Keyboard
keyboard_push c k =
    let next = (k.head + 1) % kbd_buffer_size in
    if next == k.tail
    then k
    else record k { buffer = set k.buffer k.head c; head = next; pending = true }

-- `none` is the result 0; otherwise what goes to `*out`.
unfoldable pub keyboard_pop : Keyboard → Option (ℕ × Keyboard)
keyboard_pop k =
    if k.tail == k.head
    then none
    else some (get_or k.buffer k.tail 0, record k { tail = (k.tail + 1) % kbd_buffer_size })

-- keyboard_irq_handler, for the byte that it reads from port 0x60.
unfoldable pub keyboard_irq_handler : ℕ → Keyboard → Keyboard
keyboard_irq_handler scancode k =
    let c = get_or keyboard_map scancode 0 in
    if bit_and scancode 0x80 == 0 && ltb scancode 128
    then if c == 0 then k else keyboard_push c k
    else k

-- The loop of get_key: each halt ends with the interrupt of the next scancode. `none` means that no
-- key comes and the processor stays halted.
wait_key : List ℕ → Keyboard → Option (ℕ × Keyboard × List ℕ)
wait_key [] k = none
wait_key (code ∷ codes) k =
    let k' = keyboard_irq_handler code (record k { pending = false }) in
    let rest = wait_key codes k' in or_else (keyboard_pop k') rest (λ r. some (r.0, r.1, codes))

-- The key, the buffer and the scancodes that are still to come.
unfoldable pub get_key : List ℕ → Keyboard → Option (ℕ × Keyboard × List ℕ)
unfolding wait_key
get_key codes k = or_else (keyboard_pop k) (wait_key codes k) (λ r. some (r.0, r.1, codes))
