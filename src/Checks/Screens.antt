-- ===== src/Checks/Screens.antt =====
-- mi_so_completo/src/vga.c and the keyboard buffer on concrete inputs.
use sistema_operativo.Prelude.{
  ℕ, ◌+◌, ◌-◌, ◌≡◌, ◌⊎◌, refl, true, false, none, some, [], ◌∷◌, ◌++◌, arith, replicate, length,
  length-replicate, get_or, ltb, ◌==◌, if◌then◌else◌,
}
use sistema_operativo.Console.{text, glyph, clear}
use sistema_operativo.Vga.{Vga, vga_size, line_width, print_char, scroll_screen, show}
use sistema_operativo.Vga.Scroll.{IsWhole, blank_byte, scroll_screen_lem}
use sistema_operativo.Vga.Screen.{show-IsWhole, print_char_writes}
use sistema_operativo.Keyboard.{Keyboard, keyboard_push, keyboard_pop}
use sistema_operativo.Keyboard.Ring.{IsValid, contents, keyboard_push_lem, keyboard_pop_lem}
use sistema_operativo.Keyboard.Keys.{interrupts, typed_all, contents-interrupts}

abbrev zero_byte : ℕ
zero_byte = 0

-- A screen of zero bytes, with the cursor `n` bytes from its start.
abbrev screen_at : ℕ → Vga
screen_at n = record { memory = replicate 4000 0; offset = n }

screen-IsWhole : IsWhole (screen_at 3996)
screen-IsWhole = record {
  size = length-replicate 4000 zero_byte;
  inside = omega arith;
  even = refl;
}

scroll_screen_lem_example :
    (get_or (scroll_screen (screen_at 0)).memory 3841 0 ≡ (
      if ltb 3841 (vga_size - line_width)
      then get_or (screen_at 0).memory (3841 + line_width) 0
      else blank_byte 3841))
    × ((scroll_screen (screen_at 0)).offset ≡ vga_size - line_width)
scroll_screen_lem_example =
    scroll_screen_lem (screen_at 0) 3841 (length-replicate 4000 zero_byte) (omega arith)

show-IsWhole_example :
    IsWhole
      (show (text (b'a' ∷ b'b' ∷ b'c' ∷ []) 0x0F ∷ glyph 8 0x0F ∷ clear ∷ []) (screen_at 3996))
show-IsWhole_example =
    show-IsWhole (text (b'a' ∷ b'b' ∷ b'c' ∷ []) 0x0F ∷ glyph 8 0x0F ∷ clear ∷ []) (screen_at 3996)
      screen-IsWhole

print_char_writes_example :
    (get_or (print_char b'a' 0x0A (screen_at 3996)).memory 3997 0 ≡ (
      if 3997 == 3996
      then b'a'
      else if 3997 == 3996 + 1
      then 0x0A
      else get_or (screen_at 3996).memory 3997 0))
    × ((print_char b'a' 0x0A (screen_at 3996)).offset ≡ 3996 + 2)
print_char_writes_example =
    print_char_writes b'a' 0x0A (screen_at 3996) 3997 screen-IsWhole (omega arith) (omega arith)
      (omega arith)

-- An empty keyboard buffer whose next index is the last one.
abbrev idle : Keyboard
idle = record { buffer = replicate 128 0; head = 127; tail = 127; pending = false }

idle-IsValid : IsValid idle
idle-IsValid = record {
  size = length-replicate 128 zero_byte;
  head_in = omega arith;
  tail_in = omega arith;
}

-- Two keys, the second in the first slot of the ring.
abbrev two_keys : Keyboard
two_keys = record {
  buffer = b'b' ∷ (replicate 126 0 ++ (b'a' ∷ []));
  head = 1;
  tail = 127;
  pending = true;
}

two_keys-IsValid : IsValid two_keys
two_keys-IsValid = record { size = refl; head_in = omega arith; tail_in = omega arith }

two_keys_lem : contents two_keys ≡ b'a' ∷ b'b' ∷ []
two_keys_lem = refl

keyboard_push_lem_example :
    IsValid (keyboard_push b'c' two_keys)
    × (contents (keyboard_push b'c' two_keys) ≡ (
        if ltb (length (contents two_keys)) 127
        then contents two_keys ++ (b'c' ∷ [])
        else contents two_keys))
keyboard_push_lem_example = keyboard_push_lem b'c' two_keys two_keys-IsValid

keyboard_pop_lem_example :
    ((keyboard_pop two_keys ≡ none) × (contents two_keys ≡ []))
    ⊎ ((c : ℕ) × (k : Keyboard) × (keyboard_pop two_keys ≡ some (c, k))
        × IsValid k
        × (contents two_keys ≡ c ∷ contents k))
keyboard_pop_lem_example = keyboard_pop_lem two_keys two_keys-IsValid

-- The keys q and w are pressed and released, q first.
contents-interrupts_example :
    contents (interrupts (0x10 ∷ 0x90 ∷ 0x11 ∷ 0x91 ∷ []) two_keys)
    ≡ contents two_keys ++ typed_all (0x10 ∷ 0x90 ∷ 0x11 ∷ 0x91 ∷ [])
contents-interrupts_example =
    contents-interrupts (0x10 ∷ 0x90 ∷ 0x11 ∷ 0x91 ∷ []) two_keys two_keys-IsValid (omega arith)
