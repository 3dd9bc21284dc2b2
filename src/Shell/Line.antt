-- ===== src/Shell/Line.antt =====
-- What the line editor of shell.c reads.
use mathlib.Core.List.{append_assoc, append-nil}
use sistema_operativo.Prelude.{
  ℕ, zero, suc, ◌+◌, ◌-◌, ◌≤◌, ◌<◌, ◌≡◌, refl, false, none, some, Option, List, [], ◌∷◌, ◌++◌, map,
  length, take, length-append, length-take, arith, ltb, leb, ◌==◌, ◌&&◌, if_ind, or_else_ind,
}
use sistema_operativo.Utils.{CStr}
use sistema_operativo.Console.{Output, glyph}
use sistema_operativo.Keyboard.{Keyboard, get_key}
use sistema_operativo.Keyboard.Ring.{IsValid, contents}
use sistema_operativo.Keyboard.Keys.{get_key-waiting}
use sistema_operativo.Shell.{max_cmd, edit, read_from, shell_read_line}

-- Every character is printable.
abbrev pub AllPrintable : List ℕ → Type 0
AllPrintable [] = Unit {0}
AllPrintable (c ∷ cs) = (32 ≤ c) × (c < 127) × AllPrintable cs

-- What the screen echoes of a line that is typed without corrections.
abbrev pub echo : List ℕ → List Output
echo cs = map (λ c. glyph c 0x0F) cs

edit-append :
    (c : ℕ) (line : CStr)
    → 32 ≤ c
    → c < 127
    → length line < 79
    → edit c line ≡ (line ++ (c ∷ []), glyph c 0x0F ∷ [])
unfolding edit
edit-append c line a b h = ground arith

-- The line, once the rest of it has been typed.
abbrev Reads : ℕ → CStr → List ℕ → List ℕ → List ℕ → Keyboard → Type 0
Reads fuel line typed later codes k =
    (k' : Keyboard) × (read_from fuel line codes k
      ≡ some (line ++ typed, k', codes, echo typed ++ (glyph 10 0x0F ∷ [])))
    × IsValid k'
    × (contents k' ≡ later)

read_from-Reads :
    (typed line later codes : List ℕ) (fuel : ℕ) (k : Keyboard)
    → AllPrintable typed
    → length line + length typed < max_cmd
    → IsValid k
    → contents k ≡ typed ++ (13 ∷ later)
    → length typed < fuel
    → Reads fuel line typed later codes k
unfolding read_from
read_from-Reads typed line later codes zero k p h v e f = absurd (omega arith)
read_from-Reads [] line later codes (suc fuel) k p h v e f =
    let (k', g, v', e') = get_key-waiting codes k 13 later v e in
    (k', rw (g, append-nil line) refl, v', e')
read_from-Reads (c ∷ typed) line later codes (suc fuel) k p h v e f =
    let (k', g, v', e') = get_key-waiting codes k c (typed ++ (13 ∷ later)) v e in
    let (k'', r, v'', e'') =
      read_from-Reads typed (line ++ (c ∷ [])) later codes fuel k' p.2
        (omega (arith, length-append line (c ∷ []))) v' e' (omega arith) in
    let not_enter : (c == 13) ≡ false = ground (arith, p.0) in
    (
      k'',
      rw
          (
            g,
            not_enter,
            edit-append c line p.0 p.1 (omega arith),
            r,
            append_assoc line (c ∷ []) typed,
          )
          refl,
      v'',
      e'',
    )

-- A line of at most 79 printable characters whose keys wait, with the one of Enter behind them, is
-- read as it was typed, and echoed; what was typed behind it stays in the buffer.
pub shell_read_line-typed :
    (typed later codes : List ℕ) (fuel : ℕ) (k : Keyboard)
    → AllPrintable typed
    → length typed < max_cmd
    → IsValid k
    → contents k ≡ typed ++ (13 ∷ later)
    → length typed < fuel
    → (k' : Keyboard) × (shell_read_line fuel codes k
        ≡ some (typed, k', codes, echo typed ++ (glyph 10 0x0F ∷ [])))
      × IsValid k'
      × (contents k' ≡ later)
unfolding shell_read_line
shell_read_line-typed typed later codes fuel k p h v e f =
    read_from-Reads typed [] later codes fuel k p (omega arith) v e f

-- The line fits in `command` with its terminator, and holds printable characters only.
pub record IsLine (line : CStr) : Type 0 where
  pub fits : length line < max_cmd
  pub printable : AllPrintable line

AllPrintable-append :
    (xs : List ℕ) (c : ℕ) → AllPrintable xs → 32 ≤ c → c < 127 → AllPrintable (xs ++ (c ∷ []))
AllPrintable-append [] c p a b = (a, b, tt)
AllPrintable-append (x ∷ xs) c p a b = (p.0, p.1, AllPrintable-append xs c p.2 a b)

AllPrintable-take : (n : ℕ) (xs : List ℕ) → AllPrintable xs → AllPrintable (take n xs)
AllPrintable-take zero xs p = tt
AllPrintable-take (suc n) [] p = tt
AllPrintable-take (suc n) (x ∷ xs) p = (p.0, p.1, AllPrintable-take n xs p.2)

edit-IsLine : (c : ℕ) (line : CStr) → IsLine line → IsLine (edit c line).0
unfolding edit
edit-IsLine c line i =
    if_ind (λ (r : CStr × List Output). IsLine r.0) (c == 8 && ltb 0 (length line))
      (λ _. record {
        fits = omega (arith, length-take (length line - 1) line, i.fits);
        printable = AllPrintable-take (length line - 1) line i.printable;
      })
      λ _.
        if_ind (λ (r : CStr × List Output). IsLine r.0)
          (leb 32 c && (ltb c 127 && ltb (length line) (max_cmd - 1)))
          (λ e.
            let room : length line < 79 = ground arith in
            record {
              fits = omega (arith, length-append line (c ∷ []), room);
              printable = AllPrintable-append line c i.printable (ground arith) (ground arith);
            })
          λ _. i

-- What a reading that ends has read.
abbrev pub ReadsLine : Option (CStr × Keyboard × List ℕ × List Output) → Type 0
ReadsLine none = Unit {0}
ReadsLine (some r) = IsLine r.0

read_from-IsLine :
    (fuel : ℕ) (line : CStr) (codes : List ℕ) (k : Keyboard)
    → IsLine line
    → ReadsLine (read_from fuel line codes k)
unfolding read_from
read_from-IsLine zero line codes k i = tt
read_from-IsLine (suc fuel) line codes k i =
    or_else_ind ReadsLine (get_key codes k) (λ _. tt)
      λ r _.
        if_ind ReadsLine (r.0 == 13) (λ _. i)
          λ _.
            let rest = read_from-IsLine fuel (edit r.0 line).0 r.2 r.1 (edit-IsLine r.0 line i) in
            or_else_ind ReadsLine (read_from fuel (edit r.0 line).0 r.2 r.1) (λ _. tt)
              λ t e. (rw e at rest)

-- Whatever keys come, a line that is read fits in the 80 bytes of `command` with its terminator, and
-- all its characters are printable.
pub shell_read_line-IsLine :
    (fuel : ℕ) (codes : List ℕ) (k : Keyboard) (line : CStr) (k' : Keyboard) (later : List ℕ)
    (out : List Output)
    → shell_read_line fuel codes k ≡ some (line, k', later, out)
    → IsLine line
unfolding shell_read_line
shell_read_line-IsLine fuel codes k line k' later out h =
    let i : IsLine [] = record { fits = omega arith; printable = tt } in
    (rw h at (read_from-IsLine fuel [] codes k i))
