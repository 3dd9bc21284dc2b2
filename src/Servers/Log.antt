-- ===== src/Servers/Log.antt =====
-- The audit log of servers.c against the list of all entries ever made.
use sistema_operativo.Prelude.{
  ℕ, zero, suc, ◌-◌, ◌≤◌, ◌<◌, ◌≡◌, refl, ap, List, [], ◌∷◌, ◌++◌, map, length, take, drop,
  length-append, arith, lt→ltb,
}
use native.Mathlib.Decide.{dec_lt}
use mathlib.Core.List.{append_assoc, append-nil}
use sistema_operativo.Utils.{CStr, copied}
use sistema_operativo.Servers.Types.{Servers, max_audit_logs}
use sistema_operativo.Servers.Audit.{append_log, add_audit_log}
use sistema_operativo.Servers.Setup.{init_server_filesystem}

-- An entry as the log holds it: cut to 63 bytes.
abbrev pub cut : CStr → CStr
cut l = copied l 64

-- The last 32 of a list.
abbrev pub recent : List CStr → List CStr
recent xs = drop (length xs - max_audit_logs) xs

-- The state after a list of entries.
unfoldable pub record_all : List CStr → Servers → Servers
record_all [] s = s
record_all (e ∷ es) s = record_all es (add_audit_log e s)

module _ {ℓ} {A : Type ℓ} where
  drop-append : (n : ℕ) (xs ys : List A) → n ≤ length xs → drop n (xs ++ ys) ≡ drop n xs ++ ys
  drop-append zero xs ys h = refl
  drop-append (suc n) [] ys h = absurd (omega arith)
  drop-append (suc n) (x ∷ xs) ys h = drop-append n xs ys (omega arith)

  drop_next : (n : ℕ) (xs : List A) → drop 1 (drop n xs) ≡ drop (suc n) xs
  drop_next zero xs = refl
  drop_next (suc n) [] = refl
  drop_next (suc n) (x ∷ xs) = drop_next n xs

  length-drop : (n : ℕ) (xs : List A) → length (drop n xs) ≡ length xs - n
  length-drop zero xs = omega arith
  length-drop (suc n) [] = omega arith
  length-drop (suc n) (x ∷ xs) = omega (arith, length-drop n xs)

  take-take : (n : ℕ) (xs : List A) → take n (take n xs) ≡ take n xs
  take-take zero xs = refl
  take-take (suc n) [] = refl
  take-take (suc n) (x ∷ xs) = ap (λ l. x ∷ l) (take-take n xs)

cut-cut : (l : CStr) → cut (cut l) ≡ cut l
unfolding copied
cut-cut l = take-take 63 l

map-append : (xs ys : List CStr) → map cut (xs ++ ys) ≡ map cut xs ++ map cut ys
map-append [] ys = refl
map-append (x ∷ xs) ys = ap (λ l. cut x ∷ l) (map-append xs ys)

-- Moving entries down by copy_string changes none of them.
cut-drop : (n : ℕ) (xs : List CStr) → map cut (drop n (map cut xs)) ≡ drop n (map cut xs)
cut-drop zero [] = refl
cut-drop zero (x ∷ xs) = rw (cut-cut x) (ap (λ l. cut x ∷ l) (cut-drop zero xs))
cut-drop (suc n) [] = refl
cut-drop (suc n) (x ∷ xs) = cut-drop n xs

module _ (e : CStr) (xs : List CStr) where
  abbrev ys : List CStr
  ys = map cut xs

  -- While the log has room.
  append_log-short : length ys < 32 → append_log e (recent ys) ≡ recent (ys ++ (cut e ∷ []))
  unfolding append_log
  append_log-short h =
      let none_lost : length ys - 32 ≡ 0 = omega arith in
      let none_lost' : length (ys ++ (cut e ∷ [])) - 32 ≡ 0 =
        omega (arith, length-append ys (cut e ∷ [])) in
      rw (none_lost, none_lost', lt→ltb (length ys) 32 h) refl

  -- Once the log is full.
  append_log-full : 32 ≤ length ys → append_log e (recent ys) ≡ recent (ys ++ (cut e ∷ []))
  unfolding append_log
  append_log-full h =
      let size : length (drop (length ys - 32) ys) ≡ 32 =
        omega (arith, length-drop (length ys - 32) ys) in
      let lost : length (ys ++ (cut e ∷ [])) - 32 ≡ suc (length ys - 32) =
        omega (arith, length-append ys (cut e ∷ [])) in
      rw
        (
          size,
          lost,
          drop_next (length ys - 32) ys,
          cut-drop (suc (length ys - 32)) xs,
          drop-append (suc (length ys - 32)) ys (cut e ∷ []) (omega arith),
        )
        refl

append_log-recent :
    (e : CStr) (xs : List CStr)
    → append_log e (recent (map cut xs)) ≡ recent (map cut xs ++ (cut e ∷ []))
append_log-recent e xs = elim (dec_lt (length (map cut xs)) 32) [
  | yes h ↦ append_log-short e xs h
  | no h ↦ append_log-full e xs (omega arith)
]

record_all-from :
    (es xs : List CStr) (s : Servers)
    → s.audit_logs ≡ recent (map cut xs)
    → (record_all es s).audit_logs ≡ recent (map cut (xs ++ es))
unfolding record_all add_audit_log
record_all-from [] xs s h = rw (append-nil xs) h
record_all-from (e ∷ es) xs s h = rw (← append_assoc xs (e ∷ []) es) (
    record_all-from es (xs ++ (e ∷ [])) (add_audit_log e s)
      (rw (h, append_log-recent e xs, map-append xs (e ∷ [])) refl))

-- Of all entries made since the file systems were set up, the audit log holds the last 32, in their
-- order, each cut to 63 bytes.
pub record_all-recent :
    (es : List CStr) (s : Servers)
    → (record_all es (init_server_filesystem s)).audit_logs ≡ recent (map cut es)
record_all-recent es s =
    record_all-from es [] (init_server_filesystem s) (unfold init_server_filesystem in refl)
