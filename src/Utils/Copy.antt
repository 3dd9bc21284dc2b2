-- ===== src/Utils/Copy.antt =====
-- copy_string on arrays against its effect on C strings.
use mathlib.Core.List.{append_assoc, append-nil}
use sistema_operativo.Prelude.{
  ℕ, zero, suc, ◌+◌, ◌-◌, ◌≤◌, ◌<◌, ◌≡◌, refl, ◌≢◌, List, [], ◌∷◌, ◌++◌, arith, length, set, take,
  length-set, length-append, length-take, ap, sym, ◌∙◌, Bool-cases, inl, inr, ltb, get_or,
  get_or-set_ne, ltb→lt, true,
}
use sistema_operativo.Utils.{CStr, c_string, copy_from, copy_string, copied}
use sistema_operativo.Utils.Text.{IsCStr}

pub set-append :
    (pre rest : List ℕ) (r c : ℕ) → set (pre ++ r ∷ rest) (length pre) c ≡ pre ++ c ∷ rest
set-append [] rest r c = refl
set-append (p ∷ pre) rest r c = ap (◌∷◌ p) (set-append pre rest r c)

pub c_string-append : (pre rest : List ℕ) → IsCStr pre → c_string (pre ++ 0 ∷ rest) ≡ pre
unfolding c_string
c_string-append [] rest h = refl
c_string-append (p ∷ pre) rest h = ground (arith, c_string-append pre rest h.1)

pub IsCStr-append : (a : CStr) (c : ℕ) → IsCStr a → c ≢ 0 → IsCStr (a ++ c ∷ [])
IsCStr-append [] c h k = (k, tt)
IsCStr-append (x ∷ a) c h k = (h.0, IsCStr-append a c h.1 k)

take-nil : (n : ℕ) → take {A = ℕ} n [] ≡ []
take-nil zero = refl
take-nil (suc n) = refl

take-cons : (n c : ℕ) (s : CStr) → 0 < n → take n (c ∷ s) ≡ c ∷ take (n - 1) s
take-cons zero c s h = absurd (omega arith)
take-cons (suc n) c s h = ap (λ k. c ∷ take k s) (omega arith)

-- Where the copy stops: the terminator goes behind what was copied.
stop_lem :
    (pre : CStr) (r i n : ℕ) (rest src : List ℕ)
    → i ≡ length pre
    → IsCStr pre
    → n ≡ 0
    → c_string (set (pre ++ r ∷ rest) i 0) ≡ pre ++ take n src
stop_lem pre r i n rest src e p z =
    rw (e, z, set-append pre rest r 0) (c_string-append pre rest p ∙ sym (append-nil pre))

-- One byte more has been copied.
step_lem :
    (pre : CStr) (c i max_len : ℕ) (dst src : List ℕ)
    → ltb i (max_len - 1) ≡ true
    → c_string (copy_from dst src (i + 1) max_len)
      ≡ (pre ++ c ∷ []) ++ take (max_len - 1 - (i + 1)) src
    → c_string (copy_from dst src (i + 1) max_len) ≡ pre ++ take (max_len - 1 - i) (c ∷ src)
step_lem pre c i max_len dst src go ih =
    rw (take-cons (max_len - 1 - i) c src (ground arith), sub_one)
      (ih ∙ append_assoc pre (c ∷ []) (take (max_len - 1 - (i + 1)) src))
  where
    sub_one : max_len - 1 - i - 1 ≡ max_len - 1 - (i + 1)
    sub_one = omega arith

-- `pre` has been copied; the rest of the array still holds what it held.
c_string-copy_from :
    (src pre : CStr) (r i : ℕ) (rest : List ℕ) (max_len : ℕ)
    → i ≡ length pre
    → IsCStr pre
    → IsCStr src
    → i ≤ max_len - 1
    → max_len ≤ i + suc (length rest)
    → c_string (copy_from (pre ++ r ∷ rest) src i max_len) ≡ pre ++ take (max_len - 1 - i) src
unfolding copy_from
c_string-copy_from [] pre r i rest max_len e p s a b =
    rw (take-nil, ← take-nil 0) (stop_lem pre r i 0 rest [] e p refl)
c_string-copy_from (c ∷ src) pre r i [] max_len e p s a b =
    elim (Bool-cases (ltb i (max_len - 1))) [
      | inl go ↦ absurd (omega (arith, ltb→lt _ _ go))
      | inr stop ↦ rw stop (stop_lem pre r i _ [] (c ∷ src) e p (ground arith))
    ]
c_string-copy_from (c ∷ src) pre r i (r' ∷ rest) max_len e p s a b =
    elim (Bool-cases (ltb i (max_len - 1))) [
      | inl go ↦
          rw (go, e, set-append pre (r' ∷ rest) r c, ← e, ← append_assoc pre (c ∷ []) (r' ∷ rest))
            (step_lem pre c i max_len _ src go (
              c_string-copy_from src (pre ++ c ∷ []) r' (i + 1) rest max_len
                (omega (arith, length-append pre (c ∷ []))) (IsCStr-append pre c p s.0) s.1
                (omega (arith, ltb→lt _ _ go)) (omega arith)))
      | inr stop ↦ rw stop (stop_lem pre r i _ (r' ∷ rest) (c ∷ src) e p (ground arith))
    ]

-- In a destination of at least `max_len` bytes, `copy_string` leaves the longest prefix of `src`
-- that fits with its terminator.
pub c_string-copy_string :
    (dst : List ℕ) (src : CStr) (max_len : ℕ)
    → IsCStr src
    → 0 < max_len
    → max_len ≤ length dst
    → c_string (copy_string dst src max_len) ≡ copied src max_len
unfolding copy_string copied
c_string-copy_string [] src max_len s a b = absurd (omega arith)
c_string-copy_string (r ∷ dst) src max_len s a b =
    let whole : max_len - 1 - 0 ≡ max_len - 1 = omega arith in
    rw (← whole) (c_string-copy_from src [] r 0 dst max_len refl tt s (omega arith) (omega arith))

length-copy_from :
    (src : CStr) (dst : List ℕ) (i max_len : ℕ) → length (copy_from dst src i max_len) ≡ length dst
unfolding copy_from
length-copy_from [] dst i max_len = length-set dst i 0
length-copy_from (c ∷ src) dst i max_len = ground (
  arith,
  length-copy_from src (set dst i c) (i + 1) max_len,
  length-set dst i c,
  length-set dst i 0,
)

-- Behind the first `max_len` bytes the destination is as it was.
get_or-copy_from :
    (src : CStr) (dst : List ℕ) (i max_len k : ℕ)
    → i ≤ max_len - 1
    → max_len ≤ k
    → 0 < max_len
    → get_or (copy_from dst src i max_len) k 0 ≡ get_or dst k 0
unfolding copy_from
get_or-copy_from [] dst i max_len k a b z = get_or-set_ne dst i k 0 0 (omega arith)
get_or-copy_from (c ∷ src) dst i max_len k a b z = ground (
  arith,
  get_or-copy_from src (set dst i c) (i + 1) max_len k,
  get_or-set_ne dst i k c 0,
  get_or-set_ne dst i k 0 0,
)

-- With a `max_len` above 0, `copy_string` writes no byte from index `max_len` on.
pub get_or-copy_string :
    (dst : List ℕ) (src : CStr) (max_len k : ℕ)
    → 0 < max_len
    → max_len ≤ k
    → get_or (copy_string dst src max_len) k 0 ≡ get_or dst k 0
unfolding copy_string
get_or-copy_string dst src max_len k z h = get_or-copy_from src dst 0 max_len k (omega arith) h z

pub length-copied : (src : CStr) (max_len : ℕ) → 0 < max_len → length (copied src max_len) < max_len
unfolding copied
length-copied src max_len h = omega (arith, length-take (max_len - 1) src)
