-- ===== src/Keyboard/Ring.antt =====
-- The ring against a queue of at most 127 characters.
use native.Mathlib.Decide.{ℕ_discrete}
use sistema_operativo.Prelude.{
  ℕ, zero, suc, ◌+◌, ◌-◌, ◌%◌, ◌<◌, ◌≡◌, ◌≢◌, refl, ◌∙◌, ap, ap₂, true, false, none, some, List, [],
  ◌∷◌, ◌++◌, arith, get_or, set, length, length-set, get_or-set_self, get_or-set_ne, ltb, lt→ltb,
  ==_iff, ◌⊎◌, inl, inr, ◌==◌, if◌then◌else◌,
}
use sistema_operativo.Keyboard.{Keyboard, kbd_buffer_size, keyboard_push, keyboard_pop}

pub record IsValid (k : Keyboard) : Type 0 where
  pub size : length k.buffer ≡ kbd_buffer_size
  pub head_in : k.head < kbd_buffer_size
  pub tail_in : k.tail < kbd_buffer_size

-- How many characters wait.
abbrev pub waiting : Keyboard → ℕ
waiting k = (k.head + kbd_buffer_size - k.tail) % kbd_buffer_size

-- `n` characters from index `i` on, going round the ring.
abbrev pub stretch : List ℕ → ℕ → ℕ → List ℕ
stretch b i zero = []
stretch b i (suc n) = get_or b i 0 ∷ stretch b ((i + 1) % kbd_buffer_size) n

-- The characters that wait, the oldest first.
abbrev pub contents : Keyboard → List ℕ
contents k = stretch k.buffer k.tail (waiting k)

length-stretch : (b : List ℕ) (i n : ℕ) → length (stretch b i n) ≡ n
length-stretch b i zero = refl
length-stretch b i (suc n) = ap suc (length-stretch b ((i + 1) % kbd_buffer_size) n)

-- A write behind the stretch makes it one longer.
stretch-set :
    (b : List ℕ) (i n h c : ℕ)
    → length b ≡ kbd_buffer_size
    → i < kbd_buffer_size
    → n < kbd_buffer_size
    → h ≡ (i + n) % kbd_buffer_size
    → stretch (set b h c) i (suc n) ≡ stretch b i n ++ (c ∷ [])
stretch-set b i zero h c s a z e =
    let e' : i ≡ h = omega arith in rw e' (ap (λ x. x ∷ []) (get_or-set_self b h c 0 (omega arith)))
stretch-set b i (suc n) h c s a z e =
    ap₂ ◌∷◌ (get_or-set_ne b h i c 0 (omega arith))
      (stretch-set b ((i + 1) % kbd_buffer_size) n h c s (omega arith) (omega arith) (omega arith))

stretch-pos :
    (b : List ℕ) (i n : ℕ)
    → 0 < n
    → stretch b i n ≡ get_or b i 0 ∷ stretch b ((i + 1) % kbd_buffer_size) (n - 1)
stretch-pos b i zero h = absurd (omega arith)
stretch-pos b i (suc n) h =
    ap (λ m. get_or b i 0 ∷ stretch b ((i + 1) % kbd_buffer_size) m) (omega arith)

length-contents : (k : Keyboard) → length (contents k) ≡ waiting k
length-contents k = length-stretch k.buffer k.tail (waiting k)

-- The index of the next write.
abbrev next_head : Keyboard → ℕ
next_head k = (k.head + 1) % kbd_buffer_size

abbrev pushed : ℕ → Keyboard → Keyboard
pushed c k = record k { buffer = set k.buffer k.head c; head = next_head k; pending = true }

contents-pushed :
    (c : ℕ) (k : Keyboard)
    → IsValid k
    → next_head k ≢ k.tail
    → (contents (pushed c k) ≡ contents k ++ (c ∷ [])) × (waiting k < 127)
contents-pushed c k v ne = (
  rw longer (
      stretch-set k.buffer k.tail (waiting k) k.head c v.size v.tail_in (omega arith)
        (omega arith)),
  omega arith,
)
  where
    longer : waiting (pushed c k) ≡ suc (waiting k)
    longer = omega arith

-- A key that comes to a valid buffer is put behind those that wait, unless 127 wait already: then
-- it is lost. The buffer stays valid.
pub keyboard_push_lem :
    (c : ℕ) (k : Keyboard)
    → IsValid k
    → IsValid (keyboard_push c k)
      × (contents (keyboard_push c k)
          ≡ (if ltb (length (contents k)) 127 then contents k ++ (c ∷ []) else contents k))
unfolding keyboard_push
keyboard_push_lem c k v = elim (ℕ_discrete (next_head k) k.tail) [
  | yes e ↦ rw ((==_iff (next_head k) k.tail).1 e, length-contents k, full e) (v, refl)
  | no ne ↦
      rw (differs ne, length-contents k, lt→ltb (waiting k) 127 (contents-pushed c k v ne).1)
        (
          record {
            size = length-set k.buffer k.head c ∙ v.size;
            head_in = omega arith;
            tail_in = v.tail_in;
          },
          (contents-pushed c k v ne).0,
        )
]
  where
    full : next_head k ≡ k.tail → ltb (waiting k) 127 ≡ false
    full e = ground arith

    differs : next_head k ≢ k.tail → (next_head k == k.tail) ≡ false
    differs ne = ground arith

-- The key that comes out of a valid buffer is the oldest that waits; the others stay in order.
-- Nothing comes out exactly when none waits.
pub keyboard_pop_lem :
    (k : Keyboard)
    → IsValid k
    → ((keyboard_pop k ≡ none) × (contents k ≡ []))
      ⊎ ((c : ℕ) × (k' : Keyboard) × (keyboard_pop k ≡ some (c, k'))
          × IsValid k'
          × (contents k ≡ c ∷ contents k'))
unfolding keyboard_pop
keyboard_pop_lem k v = elim (ℕ_discrete k.tail k.head) [
  | yes e ↦ inl (rw ((==_iff k.tail k.head).1 e), let z : waiting k ≡ 0 = omega arith in rw z)
  | no ne ↦ inr (
    get_or k.buffer k.tail 0,
    record k { tail = (k.tail + 1) % kbd_buffer_size },
    ground arith,
    record { size = v.size; head_in = v.head_in; tail_in = omega arith },
    stretch-pos k.buffer k.tail (waiting k) (omega arith)
        ∙ ap (λ n. get_or k.buffer k.tail 0 ∷ stretch k.buffer ((k.tail + 1) % kbd_buffer_size) n)
            (omega arith),
  )
]
