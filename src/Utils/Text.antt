-- ===== src/Utils/Text.antt =====
-- Tokens, prefixes and comparison of C strings.
use sistema_operativo.Prelude.{
  ℕ, ◌+◌, ◌-◌, ◌≤◌, ◌≡◌, refl, ◌≢◌, ◌↔◌, ◌⊎◌, some, [], ◌∷◌, ◌++◌, true, arith, length, pos,
}
use sistema_operativo.Utils.{
  CStr, starts_with, skip_spaces, token_from, read_at, read_token, strcmp, streq,
}

-- No byte of the string is the terminator.
abbrev pub IsCStr : CStr → Type 0
IsCStr [] = Unit
IsCStr (c ∷ s) = (c ≢ 0) × IsCStr s

abbrev pub HasNoSpace : CStr → Type 0
HasNoSpace [] = Unit
HasNoSpace (c ∷ s) = (c ≢ b' ') × HasNoSpace s

-- The text ends here or goes on with a space.
abbrev pub AtBreak : CStr → Type 0
AtBreak [] = Unit
AtBreak (c ∷ s) = c ≡ b' '

pub streq_iff : (a b : CStr) → (streq a b ≡ true) ↔ (a ≡ b)
unfolding streq
streq_iff [] [] = ground arith
streq_iff [] (b ∷ t) = ground arith
streq_iff (a ∷ s) [] = ground arith
streq_iff (a ∷ s) (b ∷ t) = ground (arith, streq_iff s t)

pub streq_refl : (a : CStr) → streq a a ≡ true
streq_refl a = (streq_iff a a).1 refl

-- For strings without an inner terminator, `strcmp` of utils.c returns 0 exactly for equal strings.
pub strcmp_iff : (a b : CStr) → IsCStr a → IsCStr b → (strcmp a b ≡ pos 0) ↔ (a ≡ b)
unfolding strcmp
strcmp_iff [] [] p q = ground arith
strcmp_iff [] (b ∷ t) p q = ground arith
strcmp_iff (a ∷ s) [] p q = ground arith
strcmp_iff (a ∷ s) (b ∷ t) p q = ground (arith, strcmp_iff s t)

-- `starts_with` accepts exactly the strings that the prefix begins.
pub starts_with_iff :
    (s prefix : CStr) → (starts_with s prefix ≡ true) ↔ ((r : CStr) × (s ≡ prefix ++ r))
unfolding starts_with
starts_with_iff s [] = (λ h. (s, refl), λ h. refl)
starts_with_iff [] (p ∷ prefix) = (λ h. cc, λ h. cc (h.1))
starts_with_iff (c ∷ s) (p ∷ prefix) = ground (arith, starts_with_iff s prefix)

-- What `read_token` promises of a token and of the new cursor.
pub record IsToken (text : CStr) (max_len : ℕ) (token cursor : CStr) : Type 0 where
  pub splits : text ≡ token ++ cursor
  pub no_space : HasNoSpace token
  pub fits : length token ≤ max_len - 1
  pub ends : AtBreak cursor ⊎ (length token ≡ max_len - 1)

-- The same of the loop, which has `i` bytes behind it.
record IsRest (text : CStr) (i max_len : ℕ) (token cursor : CStr) : Type 0 where
  splits : text ≡ token ++ cursor
  no_space : HasNoSpace token
  fits : i + length token ≤ max_len - 1
  ends : AtBreak cursor ⊎ (i + length token ≡ max_len - 1)

token_from-IsRest :
    (p : CStr) (i max_len : ℕ)
    → i ≤ max_len - 1
    → IsRest p i max_len (token_from p i max_len).0 (token_from p i max_len).1
unfolding token_from
token_from-IsRest [] i max_len h = ground arith
token_from-IsRest (c ∷ p) i max_len h = ground (arith, token_from-IsRest p (i + 1) max_len)

read_at-IsToken :
    (text : CStr) (max_len : ℕ) (token cursor : CStr)
    → read_at text max_len ≡ some (token, cursor)
    → IsToken text max_len token cursor
unfolding read_at
read_at-IsToken [] max_len token cursor h = cc
read_at-IsToken (c ∷ p) max_len token cursor h =
    ground (arith, token_from-IsRest (c ∷ p) 0 max_len (omega arith))

-- A token is the text after the spaces up to a space, the end or `max_len - 1` bytes; the cursor
-- stands right behind it.
pub read_token-IsToken :
    (s : CStr) (max_len : ℕ) (token cursor : CStr)
    → read_token s max_len ≡ some (token, cursor)
    → IsToken (skip_spaces s) max_len token cursor
unfolding read_token
read_token-IsToken s max_len = read_at-IsToken (skip_spaces s) max_len
