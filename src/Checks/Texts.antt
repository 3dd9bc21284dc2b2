-- ===== src/Checks/Texts.antt =====
-- mi_so_completo/src/utils.c on concrete strings.
use sistema_operativo.Prelude.{◌≡◌, refl, some, [], ◌∷◌, arith, replicate, pos, negsuc}
use sistema_operativo.Utils.{
  str, c_string, copy_string, copied, read_token, skip_spaces, parse_number, int_to_str,
}
use sistema_operativo.Utils.Copy.{c_string-copy_string}
use sistema_operativo.Utils.Text.{IsToken, read_token-IsToken}
use sistema_operativo.Utils.Number.{parse_number-int_to_str}

int_to_str_runs : int_to_str (negsuc 1233) ≡ str "-1234"
unfolding int_to_str str
int_to_str_runs = refl

parse_number_stops : parse_number (str "42 7") ≡ pos 42
unfolding parse_number str
parse_number_stops = refl

parse_number_wraps : parse_number (str "4294967297") ≡ pos 1
unfolding parse_number str
parse_number_wraps = refl

parse_number-int_to_str_example : parse_number (int_to_str (negsuc 1233)) ≡ negsuc 1233
parse_number-int_to_str_example = parse_number-int_to_str (negsuc 1233) (omega arith)

copy_string_runs :
    copy_string (replicate 6 b'z') (str "abcdef") 4 ≡ b'a' ∷ b'b' ∷ b'c' ∷ 0 ∷ b'z' ∷ b'z' ∷ []
unfolding copy_string str
copy_string_runs = refl

c_string-copy_string_example :
    c_string (copy_string (replicate 6 b'z') (b'a' ∷ b'b' ∷ b'c' ∷ b'd' ∷ []) 4)
    ≡ copied (b'a' ∷ b'b' ∷ b'c' ∷ b'd' ∷ []) 4
c_string-copy_string_example =
    c_string-copy_string (replicate 6 b'z') (b'a' ∷ b'b' ∷ b'c' ∷ b'd' ∷ []) 4 (omega arith)
      (omega arith) (omega arith)

token_runs : read_token (str "  server list") 16 ≡ some (str "server", str " list")
unfolding read_token str
token_runs = refl

read_token-IsToken_example :
    IsToken (skip_spaces (b' ' ∷ b'p' ∷ b's' ∷ b' ' ∷ [])) 16 (b'p' ∷ b's' ∷ []) (b' ' ∷ [])
unfolding read_token
read_token-IsToken_example =
    read_token-IsToken (b' ' ∷ b'p' ∷ b's' ∷ b' ' ∷ []) 16 (b'p' ∷ b's' ∷ []) (b' ' ∷ []) refl
