-- ===== src/Vga.antt =====
-- mi_so_completo/src/vga.c: the text screen, 25 lines of 80 cells of two bytes.
pub mod Scroll
pub mod Screen
use sistema_operativo.Prelude.{
  ℕ, zero, suc, ◌+◌, ◌-◌, ◌*◌, ◌/◌, List, [], ◌∷◌, get_or, set, ltb, leb, ◌==◌, ◌&&◌, if◌then◌else◌,
}
use sistema_operativo.Utils.{CStr}
use sistema_operativo.Console.{Output, text, glyph, clear, serial}

abbrev pub vga_size : ℕ
vga_size = 4000

abbrev pub line_width : ℕ
line_width = 160

-- The memory at VGA_MEMORY and the static `vga_offset`.
pub record Vga : Type 0 where
  pub memory : List ℕ
  pub offset : ℕ

-- for (; n rounds; i++) vga[i] = vga[i + LINE_WIDTH];
pub shift_line : ℕ → ℕ → List ℕ → List ℕ
shift_line zero i m = m
shift_line (suc n) i m = shift_line n (i + 1) (set m i (get_or m (i + line_width) 0))

-- for (; n rounds; i += 2) a space in the colour 0x0F
pub blank_cells : ℕ → ℕ → List ℕ → List ℕ
blank_cells zero i m = m
blank_cells (suc n) i m = blank_cells n (i + 2) (set (set m i b' ') (i + 1) 0x0F)

pub scroll_screen : Vga → Vga
scroll_screen v = record {
  memory =
      blank_cells (line_width / 2) (vga_size - line_width)
        (shift_line (vga_size - line_width) 0 v.memory);
  offset = vga_size - line_width;
}

-- The test at the end of print_char.
pub scroll_if_full : Vga → Vga
scroll_if_full v = if leb vga_size v.offset then scroll_screen v else v

pub put_cell : Vga → ℕ → ℕ → Vga
put_cell v c color = record {
  memory = set (set v.memory v.offset c) (v.offset + 1) color;
  offset = v.offset + 2;
}

pub backspace : Vga → ℕ → Vga
backspace v color =
    if leb 2 v.offset
    then record {
      memory = set (set v.memory (v.offset - 2) b' ') (v.offset - 2 + 1) color;
      offset = v.offset - 2;
    }
    else v

unfoldable pub print_char : ℕ → ℕ → Vga → Vga
print_char c color v =
    if c == 10
    then scroll_if_full (record v { offset = (v.offset / line_width + 1) * line_width })
    else if c == 8
    then backspace v color
    else if leb 32 c && ltb c 127
    then scroll_if_full (put_cell v c color)
    else scroll_if_full v

unfoldable pub print_string : CStr → ℕ → Vga → Vga
print_string [] color v = v
print_string (c ∷ s) color v = print_string s color (print_char c color v)

unfoldable pub clear_screen : Vga → Vga
unfolding blank_cells
clear_screen v = record { memory = blank_cells (vga_size / 2) 0 v.memory; offset = 0 }

show_one : Output → Vga → Vga
show_one (text s color) v = print_string s color v
show_one (glyph c color) v = print_char c color v
show_one clear v = clear_screen v
show_one (serial s) v = v

-- The screen after the driver calls of `out`.
unfoldable pub show : List Output → Vga → Vga
unfolding show_one
show [] v = v
show (o ∷ out) v = show out (show_one o v)
