-- ===== src/Utils/Number.antt =====
-- parse_number on what int_to_str writes.
use mathlib.Core.List.{append_assoc, append-nil, reverse-append, reverse-cons}
use native.Mathlib.Nat.{pow-suc}
use native.Mathlib.Decide.{ℕ_discrete}
use sistema_operativo.Prelude.{
  ℕ, zero, suc, ◌+◌, ◌-◌, ◌*◌, ◌/◌, ◌%◌, ◌^◌, ◌≤◌, ◌<◌, ◌≡◌, ◌≢◌, refl, List, [], ◌∷◌, ◌++◌, true,
  arith, sym, ◌∙◌, reverse, ℤ, pos, negsuc, to_int, uint_mod, int_max, if◌then◌else◌, ◌==◌, lt→ltb,
}
use sistema_operativo.Utils.{
  CStr, parse_digits, is_digit, parse_number, put_digits, reverse_buffer, int_to_str,
}
use sistema_operativo.Utils.Swap.{reverse_buffer-reverse}

abbrev pub AllDigits : CStr → Type 0
AllDigits [] = Unit
AllDigits (c ∷ s) = (is_digit c ≡ true) × AllDigits s

-- The digits of `n`, the lowest first.
pub digits_of : ℕ → ℕ → List ℕ
digits_of zero n = []
digits_of (suc f) n =
    let rest = digits_of f (n / 10) in if n == 0 then [] else (b'0' + n % 10) ∷ rest

put_digits-eq : (f n : ℕ) (b : List ℕ) → put_digits f n b ≡ b ++ digits_of f n
unfolding put_digits digits_of
put_digits-eq zero n b = sym (append-nil b)
put_digits-eq (suc f) n b = ground (
  arith,
  put_digits-eq f (n / 10) (b ++ ((b'0' + n % 10) ∷ [])),
  append-nil b,
  append_assoc b ((b'0' + n % 10) ∷ []) (digits_of f (n / 10)),
)

AllDigits-append : (a b : CStr) → AllDigits a → AllDigits b → AllDigits (a ++ b)
AllDigits-append [] b h k = k
AllDigits-append (c ∷ a) b h k = (h.0, AllDigits-append a b h.1 k)

is_digit-digit : (n : ℕ) → is_digit (b'0' + n % 10) ≡ true
unfolding is_digit
is_digit-digit n = ground arith

pub AllDigits-reverse : (f n : ℕ) → AllDigits (reverse (digits_of f n))
unfolding digits_of
AllDigits-reverse zero n = tt
AllDigits-reverse (suc f) n = ground (
  arith,
  reverse-cons (b'0' + n % 10) (digits_of f (n / 10)),
  is_digit-digit n,
  AllDigits-append (reverse (digits_of f (n / 10))) ((b'0' + n % 10) ∷ [])
      (AllDigits-reverse f (n / 10)),
)

parse_digits-append :
    (num : ℕ) (a : CStr) (c : ℕ)
    → AllDigits a
    → is_digit c ≡ true
    → parse_digits num (a ++ (c ∷ [])) ≡ (parse_digits num a * 10 + (c - b'0')) % uint_mod
unfolding parse_digits
parse_digits-append num [] c h k = rw k
parse_digits-append num (d ∷ a) c h k =
    rw (h.0) (parse_digits-append ((num * 10 + (d - b'0')) % uint_mod) a c h.1 k)

digits_of-suc : (f n : ℕ) → n ≢ 0 → digits_of (suc f) n ≡ (b'0' + n % 10) ∷ digits_of f (n / 10)
unfolding digits_of
digits_of-suc f n h = ground arith

digits_of-zero : (f : ℕ) → digits_of f 0 ≡ []
unfolding digits_of
digits_of-zero zero = refl
digits_of-zero (suc f) = refl

parse-digits_step :
    (f n : ℕ)
    → n ≢ 0
    → n < uint_mod
    → parse_digits 0 (reverse (digits_of f (n / 10))) ≡ n / 10
    → parse_digits 0 (reverse (digits_of (suc f) n)) ≡ n
parse-digits_step f n z k ih =
    rw
      (
        digits_of-suc f n z,
        reverse-cons (b'0' + n % 10) (digits_of f (n / 10)),
        parse_digits-append 0 (reverse (digits_of f (n / 10))) (b'0' + n % 10)
            (AllDigits-reverse f (n / 10)) (is_digit-digit n),
        ih,
      )
      (omega arith)

-- Reading the digits of a number that fits gives it back.
parse-digits_of :
    (f n : ℕ) → n < 10 ^ f → n < uint_mod → parse_digits 0 (reverse (digits_of f n)) ≡ n
parse-digits_of zero n h k = unfold digits_of parse_digits in omega arith
parse-digits_of (suc f) n h k = elim (ℕ_discrete n 0) [
  | yes e ↦ rw (e, digits_of-zero (suc f)) (unfold parse_digits in refl)
  | no ne ↦
      parse-digits_step f n ne k
        (parse-digits_of f (n / 10) (omega (arith, pow-suc 10 f)) (omega arith))
]

parse_number-digits : (s : CStr) → AllDigits s → parse_number s ≡ to_int (parse_digits 0 s)
unfolding parse_number
parse_number-digits [] h = refl
parse_number-digits (c ∷ s) h = ground arith

parse_number-minus :
    (s : CStr) → parse_number (b'-' ∷ s) ≡ to_int ((uint_mod - parse_digits 0 s) % uint_mod)
unfolding parse_number
parse_number-minus s = refl

-- An `int` whose negation is an `int`: all but the smallest.
abbrev pub HasNegation : ℤ → Type 0
HasNegation (pos n) = n ≤ int_max
HasNegation (negsuc n) = n < int_max

pub written : (n : ℕ) → reverse_buffer (put_digits 10 n []) ≡ reverse (digits_of 10 n)
written n = rw (put_digits-eq 10 n []) (reverse_buffer-reverse (digits_of 10 n))

pub written_minus :
    (n : ℕ) → reverse_buffer (put_digits 10 n [] ++ (b'-' ∷ [])) ≡ b'-' ∷ reverse (digits_of 10 n)
written_minus n = rw (put_digits-eq 10 n []) (
    reverse_buffer-reverse (digits_of 10 n ++ (b'-' ∷ []))
    ∙ reverse-append (digits_of 10 n) (b'-' ∷ []))

-- Every `int` but the smallest, written in decimal and read again, is what it was.
pub parse_number-int_to_str : (z : ℤ) → HasNegation z → parse_number (int_to_str z) ≡ z
parse_number-int_to_str (pos zero) h = unfold int_to_str parse_number in refl
parse_number-int_to_str (pos (suc n)) h =
    unfold int_to_str in
    rw
      (
        written (suc n),
        parse_number-digits _ (AllDigits-reverse 10 (suc n)),
        parse-digits_of 10 (suc n) (omega arith) (omega arith),
      )
      (ground arith)
parse_number-int_to_str (negsuc n) h =
    unfold int_to_str in
    rw
      (
        lt→ltb n int_max h,
        written_minus (suc n),
        parse_number-minus,
        parse-digits_of 10 (suc n) (omega arith) (omega arith),
      )
      (ground arith)

-- The smallest `int` has no digits.
int_to_str_min : int_to_str (negsuc int_max) ≡ b'-' ∷ []
unfolding int_to_str
int_to_str_min = refl
