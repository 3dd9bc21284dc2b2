-- ===== src/Keyboard/Keys.antt =====
-- Keys from their interrupts to get_key.
use native.Mathlib.Numerals.{unary_clauses}
use Prim.Native.Nat.{bit_and}
use mathlib.Core.List.{append-nil, append_assoc}
use sistema_operativo.Prelude.{
  ℕ, zero, suc, ◌+◌, ◌-◌, ◌<◌, ◌≡◌, refl, ◌∙◌, Bool, true, false, none, some, List, [], ◌∷◌, ◌++◌,
  arith, length, ◌⊎◌, inl, inr, if◌then◌else◌, get_or, if_ind, ltb, lt→ltb, ltb→lt, Bool-cases,
  length-append, sym, ap, ◌≤◌, ◌==◌, ◌&&◌,
}
use sistema_operativo.Keyboard.{
  Keyboard, keyboard_push, keyboard_irq_handler, keyboard_map, get_key,
}
use sistema_operativo.Keyboard.Ring.{IsValid, contents, keyboard_push_lem, keyboard_pop_lem}

pub keyboard_irq_handler-IsValid :
    (code : ℕ) (k : Keyboard) → IsValid k → IsValid (keyboard_irq_handler code k)
unfolding keyboard_irq_handler
keyboard_irq_handler-IsValid code k v =
    if_ind IsValid (bit_and code 0x80 == 0 && ltb code 128)
      (λ _.
        if_ind IsValid (get_or keyboard_map code 0 == 0) (λ _. v)
          λ _. (keyboard_push_lem (get_or keyboard_map code 0) k v).0)
      λ _. v

-- If keys wait, get_key returns the oldest at once and leaves the others in order.
pub get_key-waiting :
    (codes : List ℕ) (k : Keyboard) (c : ℕ) (cs : List ℕ)
    → IsValid k
    → contents k ≡ c ∷ cs
    → (k' : Keyboard) × (get_key codes k ≡ some (c, k', codes)) × IsValid k' × (contents k' ≡ cs)
unfolding get_key
get_key-waiting codes k c cs v e = elim (keyboard_pop_lem k v) [
  | inl (p, q) ↦ absurd (cc)
  | inr (c', k', p, v', q) ↦ (k', rw p (ground (arith, q)), v', ground (arith, q))
]

-- With no key waiting and no scancode to come, get_key does not return.
pub get_key-halts : (k : Keyboard) → IsValid k → contents k ≡ [] → get_key [] k ≡ none
unfolding get_key
get_key-halts k v e = elim (keyboard_pop_lem k v) [
  | inl (p, q) ↦ rw p
  | inr (c', k', p, v', q) ↦ absurd (cc (q, e))
]

-- Bit 7 is clear in every number below `n`.
bits_clear : ℕ → Bool
bits_clear zero = true
bits_clear (suc n) = bit_and n 0x80 == 0 && bits_clear n

bits_clear-suc : (n : ℕ) → bits_clear (suc n) ≡ true → bits_clear n ≡ true
unfolding bits_clear
bits_clear-suc n e = ground arith

bits_clear-at :
    (code rest : ℕ) → bits_clear (suc code + rest) ≡ true → (bit_and code 0x80 == 0) ≡ true
unfolding bits_clear
bits_clear-at code zero e = ground arith
bits_clear-at code (suc rest) e =
    bits_clear-at code rest (bits_clear-suc (suc code + rest) (simp unary_clauses at e))

high_bit_clear : (code : ℕ) → code < 128 → (bit_and code 0x80 == 0) ≡ true
unfolding bits_clear
high_bit_clear code h =
    let total : suc code + (127 - code) ≡ 128 = omega arith in
    bits_clear-at code (127 - code) (rw total refl)

-- The character that a scancode types, if it types one: the code of a key that is pressed and that
-- the map knows.
abbrev pub typed : ℕ → List ℕ
typed code =
    if ltb code 128
    then if get_or keyboard_map code 0 == 0 then [] else get_or keyboard_map code 0 ∷ []
    else []

abbrev pub typed_all : List ℕ → List ℕ
typed_all [] = []
typed_all (code ∷ codes) = typed code ++ typed_all codes

-- The interrupts of the scancodes, one after the other.
unfoldable pub interrupts : List ℕ → Keyboard → Keyboard
interrupts [] k = k
interrupts (code ∷ codes) k = interrupts codes (keyboard_irq_handler code k)

contents-irq :
    (code : ℕ) (k : Keyboard)
    → IsValid k
    → length (contents k) < 127
    → contents (keyboard_irq_handler code k) ≡ contents k ++ typed code
unfolding keyboard_irq_handler
contents-irq code k v h = elim (Bool-cases (ltb code 128)) [
  | inl t ↦
      rw (t, high_bit_clear code (ltb→lt code 128 t))
        (by_map (Bool-cases (get_or keyboard_map code 0 == 0)))
  | inr f ↦ ground (arith, f, append-nil (contents k))
]
  where
    by_map :
        ((get_or keyboard_map code 0 == 0) ≡ true) ⊎ ((get_or keyboard_map code 0 == 0) ≡ false)
        → contents (
            if get_or keyboard_map code 0 == 0
            then k
            else keyboard_push (get_or keyboard_map code 0) k)
          ≡ contents k
            ++ (if get_or keyboard_map code 0 == 0 then [] else get_or keyboard_map code 0 ∷ [])
    by_map (inl z) = rw z (sym (append-nil (contents k)))
    by_map (inr n) = rw n (
        (keyboard_push_lem (get_or keyboard_map code 0) k v).1
        ∙ rw (lt→ltb (length (contents k)) 127 h))

length-typed : (code : ℕ) → length (typed code) ≤ 1
length-typed code =
    if_ind (λ (l : List ℕ). length l ≤ 1) (ltb code 128)
      (λ _.
        if_ind (λ (l : List ℕ). length l ≤ 1) (get_or keyboard_map code 0 == 0) (λ _. omega arith)
          (λ _. omega arith))
      λ _. omega arith

-- While the buffer has room for them, the keys typed wait in the order of their interrupts, behind
-- those that waited before; releases and keys without a character leave no trace.
pub contents-interrupts :
    (codes : List ℕ) (k : Keyboard)
    → IsValid k
    → length (contents k) + length codes ≤ 127
    → contents (interrupts codes k) ≡ contents k ++ typed_all codes
unfolding interrupts
contents-interrupts [] k v h = sym (append-nil (contents k))
contents-interrupts (code ∷ codes) k v h =
    let step = contents-irq code k v (omega arith) in
    contents-interrupts codes (keyboard_irq_handler code k) (keyboard_irq_handler-IsValid code k v)
      (omega (arith, ap length step, length-append (contents k) (typed code), length-typed code))
    ∙ rw step (append_assoc (contents k) (typed code) (typed_all codes))
