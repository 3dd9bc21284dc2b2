-- ===== src/Utils/Numeral.antt =====
-- Numbers in decimal with a space behind them.
use sistema_operativo.Prelude.{
  ℕ, zero, suc, ◌+◌, ◌-◌, ◌*◌, ◌%◌, ◌==◌, ◌≡◌, refl, ◌⊎◌, inl, inr, true, false, [], ◌∷◌, ◌++◌,
  arith, ℤ, pos, negsuc, to_int, lt→ltb, int_max, uint_mod, ap, reverse, subst, sym,
}
use sistema_operativo.Utils.{CStr, parse_digits, is_digit, parse_number, int_to_str, skip_spaces}
use sistema_operativo.Utils.Number.{
  AllDigits, AllDigits-reverse, HasNegation, digits_of, written, written_minus,
}

-- Digits, or a minus sign and digits.
abbrev pub IsNumeral : CStr → Type 0
IsNumeral s = AllDigits s ⊎ ((t : CStr) × (s ≡ b'-' ∷ t) × AllDigits t)

pub digit_lem : (c : ℕ) → is_digit c ≡ true → ((c == b' ') ≡ false) × ((c == b'-') ≡ false)
unfolding is_digit
digit_lem c h = ground arith

parse_digits-space :
    (num : ℕ) (s r : CStr) → AllDigits s → parse_digits num (s ++ (b' ' ∷ r)) ≡ parse_digits num s
unfolding parse_digits is_digit
parse_digits-space num [] r h = refl
parse_digits-space num (c ∷ s) r h =
    let k = parse_digits-space ((num * 10 + (c - b'0')) % uint_mod) s r h.1 in rw k refl

-- The number ends at the space behind it.
pub parse_number-space :
    (s r : CStr) → IsNumeral s → parse_number (s ++ (b' ' ∷ r)) ≡ parse_number s
unfolding parse_number
parse_number-space [] r (inl d) = refl
parse_number-space (c ∷ s) r (inl d) =
    rw ((digit_lem c d.0).1) (ap to_int (parse_digits-space 0 (c ∷ s) r d))
parse_number-space s r (inr (t, e, d)) = rw e (rw (parse_digits-space 0 t r d) refl)

pub skip_spaces-numeral : (s : CStr) → IsNumeral s → skip_spaces s ≡ s
unfolding skip_spaces
skip_spaces-numeral [] (inl d) = refl
skip_spaces-numeral (c ∷ s) (inl d) = rw ((digit_lem c d.0).0) refl
skip_spaces-numeral s (inr (t, e, d)) = subst (λ u. skip_spaces u ≡ u) (sym e) refl

pub int_to_str-IsNumeral : (z : ℤ) → HasNegation z → IsNumeral (int_to_str z)
unfolding int_to_str
int_to_str-IsNumeral (pos zero) h = inl (unfold is_digit in refl, tt)
int_to_str-IsNumeral (pos (suc n)) h = inl (rw (written (suc n)) (AllDigits-reverse 10 (suc n)))
int_to_str-IsNumeral (negsuc n) h = inr (
  reverse (digits_of 10 (suc n)),
  rw (lt→ltb n int_max h) (written_minus (suc n)),
  AllDigits-reverse 10 (suc n),
)
