-- ===== src/Vga/Scroll.antt =====
-- What the loops of vga.c write, byte for byte.
use native.Mathlib.Decide.{dec_lt}
use sistema_operativo.Prelude.{
  ℕ, zero, suc, ◌+◌, ◌-◌, ◌%◌, ◌≤◌, ◌<◌, ◌≡◌, refl, ◌∙◌, List, get_or, set, length, length-set,
  get_or-set_self, get_or-set_ne, arith, ◌⊎◌, inl, if◌then◌else◌, ◌==◌, ltb, lt→ltb, false,
}
use native.Mathlib.Decide.{ℕ_discrete}
use sistema_operativo.Vga.{
  Vga, vga_size, line_width, shift_line, blank_cells, scroll_screen, clear_screen,
}

length-shift_line : (n i : ℕ) (m : List ℕ) → length (shift_line n i m) ≡ length m
unfolding shift_line
length-shift_line zero i m = refl
length-shift_line (suc n) i m =
    length-shift_line n (i + 1) (set m i (get_or m (i + line_width) 0)) ∙ length-set m i _

length-blank_cells : (n i : ℕ) (m : List ℕ) → length (blank_cells n i m) ≡ length m
unfolding blank_cells
length-blank_cells zero i m = refl
length-blank_cells (suc n) i m =
    length-blank_cells n (i + 2) (set (set m i b' ') (i + 1) 0x0F)
    ∙ length-set (set m i b' ') (i + 1) 0x0F
    ∙ length-set m i b' '

-- Outside `i` to `i + n` the shift changes nothing.
shift_line-outside :
    (n i k : ℕ) (m : List ℕ) → (k < i) ⊎ (i + n ≤ k) → get_or (shift_line n i m) k 0 ≡ get_or m k 0
unfolding shift_line
shift_line-outside zero i k m h = refl
shift_line-outside (suc n) i k m h =
    shift_line-outside n (i + 1) k (set m i (get_or m (i + line_width) 0)) (omega arith)
    ∙ get_or-set_ne m i k (get_or m (i + line_width) 0) 0 (omega arith)

-- Each byte of the range comes from the line below, as it was before the loop.
shift_line-inside :
    (n i k : ℕ) (m : List ℕ)
    → i ≤ k
    → k < i + n
    → i + n ≤ length m
    → get_or (shift_line n i m) k 0 ≡ get_or m (k + line_width) 0
unfolding shift_line
shift_line-inside zero i k m a b c = absurd (omega arith)
shift_line-inside (suc n) i k m a b c = elim (ℕ_discrete i k) [
  | yes e ↦
      shift_line-outside n (i + 1) k m' (inl (omega arith))
      ∙ (rw (← e) (get_or-set_self m i v 0 (omega arith)))
  | no ne ↦
      shift_line-inside n (i + 1) k m' (omega arith) (omega arith) (omega (arith, length-set m i v))
      ∙ get_or-set_ne m i (k + line_width) v 0 (omega arith)
]
  where
    v : ℕ
    v = get_or m (i + line_width) 0

    m' : List ℕ
    m' = set m i v

-- What a cell that was blanked holds at byte `k`.
abbrev pub blank_byte : ℕ → ℕ
blank_byte k = if k % 2 == 0 then b' ' else 0x0F

blank_cells-outside :
    (n i k : ℕ) (m : List ℕ)
    → (k < i) ⊎ (i + (n + n) ≤ k)
    → get_or (blank_cells n i m) k 0 ≡ get_or m k 0
unfolding blank_cells
blank_cells-outside zero i k m h = refl
blank_cells-outside (suc n) i k m h =
    blank_cells-outside n (i + 2) k (set (set m i b' ') (i + 1) 0x0F) (omega arith)
    ∙ get_or-set_ne (set m i b' ') (i + 1) k 0x0F 0 (omega arith)
    ∙ get_or-set_ne m i k b' ' 0 (omega arith)

blank_cells-inside :
    (n i k : ℕ) (m : List ℕ)
    → i % 2 ≡ 0
    → i ≤ k
    → k < i + (n + n)
    → i + (n + n) ≤ length m
    → get_or (blank_cells n i m) k 0 ≡ blank_byte k
unfolding blank_cells
blank_cells-inside zero i k m z a b c = absurd (omega arith)
blank_cells-inside (suc n) i k m z a b c = elim (ℕ_discrete k i) [
  | yes e ↦ rw e (
      blank_cells-outside n (i + 2) i m'' (inl (omega arith))
      ∙ get_or-set_ne m' (i + 1) i 0x0F 0 (omega arith)
      ∙ get_or-set_self m i b' ' 0 (omega arith)
      ∙ ground arith)
  | no ne ↦ elim (ℕ_discrete k (i + 1)) [
    | yes e ↦ rw e (
        blank_cells-outside n (i + 2) (i + 1) m'' (inl (omega arith))
        ∙ get_or-set_self m' (i + 1) 0x0F 0 (omega (arith, length-set m i b' '))
        ∙ ground arith)
    | no ne' ↦
        blank_cells-inside n (i + 2) k m'' (omega arith) (omega arith) (omega arith)
          (omega (arith, length-set m i b' ', length-set m' (i + 1) 0x0F))
  ]
]
  where
    m' : List ℕ
    m' = set m i b' '

    m'' : List ℕ
    m'' = set m' (i + 1) 0x0F

-- The screen is whole and the next cell to write lies on it.
pub record IsWhole (v : Vga) : Type 0 where
  pub size : length v.memory ≡ vga_size
  pub inside : v.offset < vga_size
  pub even : v.offset % 2 ≡ 0

-- On a screen of 4000 bytes `scroll_screen` moves every line up by one, blanks the last one and
-- puts the cursor at its start.
pub scroll_screen_lem :
    (v : Vga) (k : ℕ)
    → length v.memory ≡ vga_size
    → k < vga_size
    → (get_or (scroll_screen v).memory k 0 ≡ (
        if ltb k (vga_size - line_width) then get_or v.memory (k + line_width) 0 else blank_byte k))
      × ((scroll_screen v).offset ≡ vga_size - line_width)
unfolding scroll_screen
scroll_screen_lem v k h b = (
  elim (dec_lt k 3840) [
    | yes a ↦ rw (lt→ltb k 3840 a) (
        blank_cells-outside 80 3840 k shifted (inl a)
        ∙ shift_line-inside 3840 0 k v.memory (omega arith) (omega arith) (omega arith))
    | no a ↦
        let outside : ltb k 3840 ≡ false = ground arith in
        rw outside (
          blank_cells-inside 80 3840 k shifted refl (omega arith) (omega arith)
            (omega (arith, length-shift_line 3840 0 v.memory)))
  ],
  refl,
)
  where
    shifted : List ℕ
    shifted = shift_line 3840 0 v.memory

pub scroll_screen-IsWhole : (v : Vga) → length v.memory ≡ vga_size → IsWhole (scroll_screen v)
unfolding scroll_screen
scroll_screen-IsWhole v h = record {
  size = length-blank_cells 80 3840 _ ∙ length-shift_line 3840 0 v.memory ∙ h;
  inside = omega arith;
  even = refl;
}

pub clear_screen-IsWhole : (v : Vga) → length v.memory ≡ vga_size → IsWhole (clear_screen v)
unfolding clear_screen
clear_screen-IsWhole v h = record {
  size = length-blank_cells 2000 0 v.memory ∙ h;
  inside = omega arith;
  even = refl;
}

-- On a screen of 4000 bytes `clear_screen` blanks every cell and puts the cursor at the start.
pub clear_screen_lem :
    (v : Vga) (k : ℕ)
    → length v.memory ≡ vga_size
    → k < vga_size
    → (get_or (clear_screen v).memory k 0 ≡ blank_byte k) × ((clear_screen v).offset ≡ 0)
unfolding clear_screen
clear_screen_lem v k h a =
    (blank_cells-inside 2000 0 k v.memory refl (omega arith) a (omega arith), refl)
