-- ===== src/Utils.antt =====
-- mi_so_completo/src/utils.c: strings and decimal numbers.
-- A C string is the list of the bytes before its terminator: `[]` is the position of '\0'.
pub mod Copy
pub mod Text
pub mod Swap
pub mod Number
pub mod Numeral
use Prim.Native.Char.{code}
use Prim.Native.String
use Prim.Native.String.{String}
use sistema_operativo.Prelude.{
  ℕ, zero, suc, ◌+◌, ◌-◌, ◌*◌, ◌/◌, ◌%◌, Bool, true, false, not, ◌&&◌, Option, none, some, List, [],
  ◌∷◌, ◌++◌, length, get_or, set, take, ltb, leb, ◌==◌, if◌then◌else◌, ℤ, pos, negsuc, to_int,
  uint_mod, int_max,
}

abbrev pub CStr : Type 0
CStr = List ℕ

-- A string literal of the source.
unfoldable pub str : String → CStr
str String.[] = []
str (String.◌∷◌ c s) = code c ∷ str s

-- A character in UTF-8, the encoding of the source files (none is above U+FFFF).
unfoldable pub utf8_bytes : ℕ → CStr
utf8_bytes c =
    if ltb c 0x80
    then c ∷ []
    else if ltb c 0x800
    then (0xC0 + c / 64) ∷ (0x80 + c % 64) ∷ []
    else (0xE0 + c / 4096) ∷ (0x80 + c / 64 % 64) ∷ (0x80 + c % 64) ∷ []

-- A string literal with characters that are not ASCII.
unfoldable pub utf8 : String → CStr
unfolding utf8_bytes
utf8 String.[] = []
utf8 (String.◌∷◌ c s) = utf8_bytes (code c) ++ utf8 s

-- The C string that an array holds: the bytes before the first '\0'.
unfoldable pub c_string : List ℕ → CStr
c_string [] = []
c_string (c ∷ a) = if c == 0 then [] else c ∷ c_string a

-- copy_string: `i` counts up to the end of `src` or to `max_len - 1`; then the terminator.
pub copy_from : List ℕ → CStr → ℕ → ℕ → List ℕ
copy_from dst [] i max_len = set dst i 0
copy_from dst (c ∷ src) i max_len =
    let rest = copy_from (set dst i c) src (i + 1) max_len in
    if ltb i (max_len - 1) then rest else set dst i 0

unfoldable pub copy_string : List ℕ → CStr → ℕ → List ℕ
unfolding copy_from
copy_string dst src max_len = copy_from dst src 0 max_len

-- What `copy_string` leaves in its destination, as a C string (`Copy.c_string-copy_string`).
unfoldable pub copied : CStr → ℕ → CStr
copied src max_len = take (max_len - 1) src

unfoldable pub starts_with : CStr → CStr → Bool
starts_with s [] = true
starts_with [] (p ∷ prefix) = false
starts_with (c ∷ s) (p ∷ prefix) = if c == p then starts_with s prefix else false

unfoldable pub skip_spaces : CStr → CStr
skip_spaces [] = []
skip_spaces (c ∷ s) = if c == b' ' then skip_spaces s else c ∷ s

-- The loop of read_token: what goes to `out`, and where the cursor stops.
pub token_from : CStr → ℕ → ℕ → CStr × CStr
token_from [] i max_len = ([], [])
token_from (c ∷ p) i max_len =
    let (out, cursor) = token_from p (i + 1) max_len in
    if not (c == b' ') && ltb i (max_len - 1) then (c ∷ out, cursor) else ([], c ∷ p)

pub read_at : CStr → ℕ → Option (CStr × CStr)
read_at [] max_len = none
read_at (c ∷ p) max_len = some (token_from (c ∷ p) 0 max_len)

-- `none` is the result 0; otherwise the token and the new cursor.
unfoldable pub read_token : CStr → ℕ → Option (CStr × CStr)
unfolding skip_spaces token_from read_at
read_token cursor max_len = read_at (skip_spaces cursor) max_len

unfoldable pub is_digit : ℕ → Bool
is_digit c = leb b'0' c && leb c b'9'

-- `num` is kept as its 32-bit pattern, so that `num * 10 + d` wraps as on the i386.
pub parse_digits : ℕ → CStr → ℕ
parse_digits num [] = num
parse_digits num (c ∷ s) =
    let rest = parse_digits ((num * 10 + (c - b'0')) % uint_mod) s in
    if is_digit c then rest else num

unfoldable pub parse_number : CStr → ℤ
unfolding parse_digits is_digit
parse_number [] = pos 0
parse_number (c ∷ s) =
    if c == b'-'
    then to_int ((uint_mod - parse_digits 0 s) % uint_mod)
    else to_int (parse_digits 0 (c ∷ s))

-- `while (num > 0)`, the digits in the order in which they are written; ten rounds are enough.
pub put_digits : ℕ → ℕ → List ℕ → List ℕ
put_digits zero num buffer = buffer
put_digits (suc fuel) num buffer =
    let rest = put_digits fuel (num / 10) (buffer ++ ((b'0' + num % 10) ∷ [])) in
    if num == 0 then buffer else rest

-- The last loop: `n` rounds from `j` on, over a buffer of `i` characters.
pub swap_ends : ℕ → ℕ → ℕ → List ℕ → List ℕ
swap_ends zero j i buffer = buffer
swap_ends (suc n) j i buffer =
    swap_ends n (j + 1) i
      (set (set buffer j (get_or buffer (i - 1 - j) 0)) (i - 1 - j) (get_or buffer j 0))

pub reverse_buffer : List ℕ → CStr
reverse_buffer buffer = swap_ends (length buffer / 2) 0 (length buffer) buffer

-- The smallest `int` is its own negation and stays negative, so no digit is written for it.
unfoldable pub int_to_str : ℤ → CStr
unfolding put_digits swap_ends reverse_buffer
int_to_str (pos zero) = b'0' ∷ []
int_to_str (pos (suc n)) = reverse_buffer (put_digits 10 (suc n) [])
int_to_str (negsuc n) =
    reverse_buffer (put_digits 10 (if ltb n int_max then suc n else 0) [] ++ (b'-' ∷ []))

-- strcmp: the difference of the first bytes that differ, the terminator being 0.
unfoldable pub strcmp : CStr → CStr → ℤ
strcmp [] [] = pos 0
strcmp [] (b ∷ t) = if b == 0 then pos 0 else negsuc (b - 1)
strcmp (a ∷ s) [] = pos a
strcmp (a ∷ s) (b ∷ t) =
    if a == b then strcmp s t else if leb b a then pos (a - b) else negsuc (b - a - 1)

-- `__builtin_strcmp(a, b) == 0` (`Text.strcmp-streq`: `strcmp` decides the same).
unfoldable pub streq : CStr → CStr → Bool
streq [] [] = true
streq [] (b ∷ t) = false
streq (a ∷ s) [] = false
streq (a ∷ s) (b ∷ t) = if a == b then streq s t else false

unfoldable pub strlen : CStr → ℕ
strlen [] = 0
strlen (c ∷ s) = suc (strlen s)
