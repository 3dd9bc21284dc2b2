-- ===== src/Console.antt =====
-- What the kernel writes: calls of the drivers mi_so_completo/src/vga.c and mi_so_completo/src/serial.c.
-- The operations of the other components return the calls that they make, in order; `Vga.show`
-- carries the calls out on the screen.
use sistema_operativo.Prelude.{ℕ}
use sistema_operativo.Utils.{CStr}

pub data Output : Type 0 where
  -- print_string(str, color)
  text : CStr → ℕ → Output
  -- print_char(c, color)
  glyph : ℕ → ℕ → Output
  -- clear_screen()
  clear : Output
  -- serial_print(s)
  serial : CStr → Output
