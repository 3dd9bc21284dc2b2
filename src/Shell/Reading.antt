-- ===== src/Shell/Reading.antt =====
-- What the command `read` of shell.c reads and prints.
use mathlib.Core.List.{append_assoc, append-nil}
use sistema_operativo.Prelude.{
  ℕ, zero, suc, ◌+◌, ◌≤◌, ◌<◌, ◌≡◌, refl, ◌∙◌, sym, false, true, some, List, [], ◌∷◌, ◌++◌, map,
  length, length-append, arith, ltb, ◌==◌, set,
}
use sistema_operativo.Utils.{CStr, str, c_string}
use sistema_operativo.Utils.Text.{IsCStr}
use sistema_operativo.Utils.Copy.{set-append, c_string-append, IsCStr-append}
use sistema_operativo.Console.{Output, text, glyph}
use sistema_operativo.Keyboard.{Keyboard, get_key}
use sistema_operativo.Keyboard.Ring.{IsValid, contents}
use sistema_operativo.Keyboard.Keys.{get_key-waiting}
use sistema_operativo.Shell.Read.{put_key, read_keys, command_read}
use sistema_operativo.Shell.Line.{AllPrintable}

-- What the screen echoes.
abbrev pub echoed : List ℕ → List Output
echoed typed = map (λ c. glyph c 0x0E) typed

put_key-printable :
    (c i : ℕ) (buf : List ℕ)
    → 32 ≤ c
    → c < 127
    → put_key c i buf ≡ (i + 1, set buf i c, glyph c 0x0E ∷ [])
unfolding put_key
put_key-printable c i buf a b = ground arith

-- The loop, once `pre` is in the buffer.
abbrev Takes : ℕ → CStr → CStr → List ℕ → List ℕ → List ℕ → Keyboard → Type 0
Takes fuel pre typed later buf codes k =
    (last : List ℕ) × (k' : Keyboard) × (read_keys fuel (length pre) buf codes k
      ≡ some (last, k', codes, echoed typed ++ (glyph 10 0x0E ∷ [])))
    × (c_string last ≡ pre ++ typed)
    × IsValid k'
    × (contents k' ≡ later)

-- One character more.
Takes-more :
    (c : ℕ) (typed pre later codes : List ℕ) (r r' : ℕ) (rest : List ℕ) (fuel : ℕ) (k k' : Keyboard)
    → 32 ≤ c
    → c < 127
    → length pre < 79
    → get_key codes k ≡ some (c, k', codes)
    → Takes fuel (pre ++ (c ∷ [])) typed later ((pre ++ (c ∷ [])) ++ (r' ∷ rest)) codes k'
    → Takes (suc fuel) pre (c ∷ typed) later (pre ++ (r ∷ r' ∷ rest)) codes k
unfolding read_keys
Takes-more c typed pre later codes r r' rest fuel k k' lo hi h g (last, k'', eq, s, v, e) =
    let room : ltb (length pre) 79 ≡ true = ground arith in
    let not_enter : (c == 13) ≡ false = ground arith in
    let eq' = rw (append_assoc pre (c ∷ []) (r' ∷ rest), length-append pre (c ∷ [])) at eq in
    (
      last,
      k'',
      rw
          (
            g,
            room,
            not_enter,
            put_key-printable c (length pre) (pre ++ (r ∷ r' ∷ rest)) lo hi,
            set-append pre (r' ∷ rest) r c,
            eq',
          )
          refl,
      s ∙ append_assoc pre (c ∷ []) typed,
      v,
      e,
    )

read_keys-Takes :
    (typed pre later codes : List ℕ) (r : ℕ) (rest : List ℕ) (fuel : ℕ) (k : Keyboard)
    → AllPrintable typed
    → IsCStr pre
    → length pre + length typed < 79
    → length typed ≤ length rest
    → IsValid k
    → contents k ≡ typed ++ (13 ∷ later)
    → length typed < fuel
    → Takes fuel pre typed later (pre ++ (r ∷ rest)) codes k
unfolding read_keys
read_keys-Takes typed pre later codes r rest zero k p q h l v e f = absurd (omega arith)
read_keys-Takes [] pre later codes r rest (suc fuel) k p q h l v e f =
    let (k', g, v', e') = get_key-waiting codes k 13 later v e in
    let room : ltb (length pre) 79 ≡ true = ground (arith, h) in
    (
      pre ++ (0 ∷ rest),
      k',
      rw g (rw room (rw (set-append pre rest r 0) refl)),
      c_string-append pre rest q ∙ sym (append-nil pre),
      v',
      e',
    )
read_keys-Takes (c ∷ typed) pre later codes r [] (suc fuel) k p q h l v e f =
    absurd (omega (arith, l))
read_keys-Takes (c ∷ typed) pre later codes r (r' ∷ rest) (suc fuel) k p q h l v e f =
    let (k', g, v', e') = get_key-waiting codes k c (typed ++ (13 ∷ later)) v e in
    Takes-more c typed pre later codes r r' rest fuel k k' p.0 p.1 (omega (arith, h)) g (
      read_keys-Takes typed (pre ++ (c ∷ [])) later codes r' rest fuel k' p.2
        (IsCStr-append pre c q (omega (arith, p.0))) (omega (arith, h, length-append pre (c ∷ [])))
        (omega (arith, l)) v' e' (omega arith))

-- At most 78 printable characters whose keys wait, with the one of Enter behind them: the command `read`
-- returns, has echoed them and prints them as one line, whatever its buffer of 80 bytes held. What was
-- typed behind them stays in the buffer of the keyboard.
pub command_read-typed :
    (typed later codes buf : List ℕ) (fuel : ℕ) (k : Keyboard)
    → AllPrintable typed
    → length typed < 79
    → length buf ≡ 80
    → IsValid k
    → contents k ≡ typed ++ (13 ∷ later)
    → length typed < fuel
    → (k' : Keyboard) × (command_read fuel buf codes k
        ≡ some (
          k',
          codes,
          text (str "Escribe algo: ") 0x0E
              ∷ ((echoed typed ++ (glyph 10 0x0E ∷ []))
                  ++ (text (str "Leido: ") 0x0A ∷ text typed 0x0A ∷ text (str "\n") 0x0A ∷ [])),
        ))
      × IsValid k'
      × (contents k' ≡ later)
unfolding command_read
command_read-typed typed later codes [] fuel k p h b v e f = absurd (omega (arith, b))
command_read-typed typed later codes (r ∷ rest) fuel k p h b v e f =
    let (last, k', eq, s, v', e') =
      read_keys-Takes typed [] later codes r rest fuel k p tt (omega (arith, h))
        (omega (arith, b, h)) v e f in
    (k', rw eq (rw s refl), v', e')
