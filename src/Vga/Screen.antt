-- ===== src/Vga/Screen.antt =====
-- What printing does to the memory and the cursor of vga.c.
use sistema_operativo.Prelude.{
  ℕ, ◌+◌, ◌-◌, ◌*◌, ◌/◌, ◌%◌, ◌≤◌, ◌<◌, ◌≡◌, refl, ◌∙◌, List, [], ◌∷◌, get_or, set, length,
  length-set, get_or-set_self, get_or-set_ne, arith, if◌then◌else◌, ◌==◌, leb, ltb, ◌==◌, ◌&&◌,
  if_ind,
}
use sistema_operativo.Utils.{CStr}
use sistema_operativo.Console.{Output, text, glyph, clear, serial}
use sistema_operativo.Vga.{
  Vga, vga_size, line_width, scroll_if_full, put_cell, backspace, print_char, print_string, show,
  show_one,
}
use sistema_operativo.Vga.Scroll.{IsWhole, scroll_screen-IsWhole, clear_screen-IsWhole}

scroll_if_full-IsWhole :
    (v : Vga) → length v.memory ≡ vga_size → v.offset % 2 ≡ 0 → IsWhole (scroll_if_full v)
unfolding scroll_if_full
scroll_if_full-IsWhole v h e = ground (arith, scroll_screen-IsWhole v h)

put_cell-size : (v : Vga) (c color : ℕ) → length (put_cell v c color).memory ≡ length v.memory
unfolding put_cell
put_cell-size v c color =
    length-set (set v.memory v.offset c) (v.offset + 1) color ∙ length-set v.memory v.offset c

backspace-IsWhole : (v : Vga) (color : ℕ) → IsWhole v → IsWhole (backspace v color)
unfolding backspace
backspace-IsWhole v color w = ground (
  arith,
  length-set (set v.memory (v.offset - 2) b' ') (v.offset - 2 + 1) color,
  length-set v.memory (v.offset - 2) b' ',
)

put_cell-IsWhole :
    (v : Vga) (c color : ℕ) → IsWhole v → IsWhole (scroll_if_full (put_cell v c color))
put_cell-IsWhole v c color w =
    scroll_if_full-IsWhole (put_cell v c color) (put_cell-size v c color ∙ w.size)
      (unfold put_cell in omega arith)

newline-IsWhole :
    (v : Vga)
    → IsWhole v
    → IsWhole (scroll_if_full (record v { offset = (v.offset / line_width + 1) * line_width }))
newline-IsWhole v w =
    scroll_if_full-IsWhole (record v { offset = (v.offset / line_width + 1) * line_width }) w.size
      (omega arith)

-- Printing a character keeps the screen whole: every write lies on it, and the cursor stays on it.
pub print_char-IsWhole : (c color : ℕ) (v : Vga) → IsWhole v → IsWhole (print_char c color v)
unfolding print_char
print_char-IsWhole c color v w =
    if_ind IsWhole (c == 10) (λ _. newline-IsWhole v w)
      λ _.
        if_ind IsWhole (c == 8) (λ _. backspace-IsWhole v color w)
          λ _.
            if_ind IsWhole (leb 32 c && ltb c 127) (λ _. put_cell-IsWhole v c color w)
              λ _. scroll_if_full-IsWhole v w.size w.even

print_string-IsWhole :
    (s : CStr) (color : ℕ) (v : Vga) → IsWhole v → IsWhole (print_string s color v)
unfolding print_string
print_string-IsWhole [] color v w = w
print_string-IsWhole (c ∷ s) color v w =
    print_string-IsWhole s color (print_char c color v) (print_char-IsWhole c color v w)

show_one-IsWhole : (o : Output) (v : Vga) → IsWhole v → IsWhole (show_one o v)
unfolding show_one
show_one-IsWhole (text s color) v w = print_string-IsWhole s color v w
show_one-IsWhole (glyph c color) v w = print_char-IsWhole c color v w
show_one-IsWhole clear v w = clear_screen-IsWhole v w.size
show_one-IsWhole (serial s) v w = w

-- Whatever the kernel prints on a whole screen, the screen stays whole: its memory keeps its 4000
-- bytes and the cursor stays on a cell inside it.
pub show-IsWhole : (out : List Output) (v : Vga) → IsWhole v → IsWhole (show out v)
unfolding show
show-IsWhole [] v w = w
show-IsWhole (o ∷ out) v w = show-IsWhole out (show_one o v) (show_one-IsWhole o v w)

print_char-glyph :
    (c color : ℕ) (v : Vga)
    → 32 ≤ c
    → c < 127
    → v.offset + 2 < vga_size
    → print_char c color v ≡ put_cell v c color
unfolding print_char scroll_if_full put_cell
print_char-glyph c color v a b h = ground arith

print_char-backspace :
    (color : ℕ) (v : Vga)
    → 2 ≤ v.offset
    → print_char 8 color v ≡ record {
      memory = set (set v.memory (v.offset - 2) b' ') (v.offset - 2 + 1) color;
      offset = v.offset - 2;
    }
unfolding print_char backspace
print_char-backspace color v h = ground arith

-- On a whole screen, a printable character with room behind it is written, with its colour, into
-- the cell at the cursor and nowhere else, and the cursor moves on by one cell.
pub print_char_writes :
    (c color : ℕ) (v : Vga) (k : ℕ)
    → IsWhole v
    → 32 ≤ c
    → c < 127
    → v.offset + 2 < vga_size
    → (get_or (print_char c color v).memory k 0
        ≡ (if k == v.offset then c else if k == v.offset + 1 then color else get_or v.memory k 0))
      × ((print_char c color v).offset ≡ v.offset + 2)
print_char_writes c color v k i a b h =
    rw (print_char-glyph c color v a b h) (unfold put_cell in (written, refl))
  where
    m : List ℕ
    m = set v.memory v.offset c

    written :
        get_or (set m (v.offset + 1) color) k 0
        ≡ (if k == v.offset then c else if k == v.offset + 1 then color else get_or v.memory k 0)
    written = ground (
      arith,
      get_or-set_ne m (v.offset + 1) k color 0,
      get_or-set_self v.memory v.offset c 0 (omega (arith, i.inside, i.size)),
      get_or-set_self m (v.offset + 1) color 0
          (omega (arith, length-set v.memory v.offset c, i.size)),
      get_or-set_ne v.memory v.offset k c 0,
    )

-- A backspace after a printable character, with room behind it, takes the cursor back to where it
-- was.
pub backspace_undoes :
    (c color color' : ℕ) (v : Vga)
    → 32 ≤ c
    → c < 127
    → v.offset + 2 < vga_size
    → (print_char 8 color' (print_char c color v)).offset ≡ v.offset
backspace_undoes c color color' v a b h =
    rw
      (
        print_char-glyph c color v a b h,
        print_char-backspace color' (put_cell v c color) (unfold put_cell in omega arith),
      )
      (unfold put_cell in omega arith)
