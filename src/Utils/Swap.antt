-- ===== src/Utils/Swap.antt =====
-- The in-place reversal at the end of int_to_str.
use mathlib.Core.List.{append_assoc, append-nil, reverse-append, reverse-cons}
use sistema_operativo.Prelude.{
  ℕ, zero, suc, ◌+◌, ◌-◌, ◌/◌, ◌≡◌, refl, List, [], ◌∷◌, ◌++◌, arith, length, set, get_or,
  length-append, ap, sym, ◌∙◌, reverse,
}
use sistema_operativo.Utils.{swap_ends, reverse_buffer}

get_or-middle : (p r : List ℕ) (x i : ℕ) → i ≡ length p → get_or (p ++ x ∷ r) i 0 ≡ x
get_or-middle [] r x i e = rw e
get_or-middle (a ∷ p) r x zero e = absurd (omega arith)
get_or-middle (a ∷ p) r x (suc i) e = get_or-middle p r x i (omega arith)

set-middle : (p r : List ℕ) (x y i : ℕ) → i ≡ length p → set (p ++ x ∷ r) i y ≡ p ++ y ∷ r
set-middle [] r x y i e = rw e
set-middle (a ∷ p) r x y zero e = absurd (omega arith)
set-middle (a ∷ p) r x y (suc i) e = ap (◌∷◌ a) (set-middle p r x y i (omega arith))

-- One round exchanges the first and the last byte of the part that is not yet reversed.
swap_step :
    (p m q : List ℕ) (x y j k : ℕ)
    → j ≡ length p
    → k ≡ length p + suc (length m)
    → let b = p ++ (x ∷ (m ++ (y ∷ q))) in
      set (set b j (get_or b k 0)) k (get_or b j 0) ≡ (p ++ (y ∷ [])) ++ (m ++ (x ∷ q))
swap_step p m q x y j k ej ek =
    rw
      (
        get_or-middle p (m ++ y ∷ q) x j ej,
        last,
        set-middle p (m ++ y ∷ q) x y j ej,
        ← append_assoc p (y ∷ m) (y ∷ q),
        set-middle (p ++ y ∷ m) q y x k at_last,
      )
      (append_assoc p (y ∷ m) (x ∷ q) ∙ sym (append_assoc p (y ∷ []) (m ++ x ∷ q)))
  where
    at_last : k ≡ length (p ++ y ∷ m)
    at_last = omega (arith, length-append p (y ∷ m))

    last : get_or (p ++ (x ∷ (m ++ (y ∷ q)))) k 0 ≡ y
    last =
        rw (← append_assoc p (x ∷ m) (y ∷ q))
          (get_or-middle (p ++ x ∷ m) q y k (omega (arith, length-append p (x ∷ m))))

-- A list with an end has a last element.
snoc_cases : (x : ℕ) (l : List ℕ) → (m : List ℕ) × (y : ℕ) × (x ∷ l ≡ m ++ (y ∷ []))
snoc_cases x [] = ([], x, refl)
snoc_cases x (z ∷ l) = let (m, y, e) = snoc_cases z l in (x ∷ m, y, ap (◌∷◌ x) e)

reverse-ends : (x y : ℕ) (m : List ℕ) → reverse (x ∷ (m ++ (y ∷ []))) ≡ y ∷ (reverse m ++ (x ∷ []))
reverse-ends x y m = rw (reverse-cons x (m ++ (y ∷ [])), reverse-append m (y ∷ []))

-- A round and the rounds after it, over `t` with its last byte split off.
swap_round :
    (n j i x y : ℕ) (p m q t : List ℕ)
    → t ≡ m ++ (y ∷ [])
    → j ≡ length p
    → i - 1 - j ≡ length p + suc (length m)
    → swap_ends n (j + 1) i ((p ++ (y ∷ [])) ++ (m ++ (x ∷ q)))
      ≡ (p ++ (y ∷ [])) ++ (reverse m ++ (x ∷ q))
    → swap_ends (suc n) j i (p ++ ((x ∷ t) ++ q)) ≡ p ++ (reverse (x ∷ t) ++ q)
unfolding swap_ends
swap_round n j i x y p m q t e a b ih =
    rw
      (
        e,
        append_assoc m (y ∷ []) q,
        swap_step p m q x y j (i - 1 - j) a b,
        reverse-ends x y m,
        append_assoc (reverse m) (x ∷ []) q,
      )
      (ih ∙ append_assoc p (y ∷ []) (reverse m ++ (x ∷ q)))

-- With `p` and `q` exchanged already, `n` rounds reverse what lies between.
swap_ends-middle :
    (n j i : ℕ) (p m q : List ℕ)
    → j ≡ length p
    → j ≡ length q
    → n ≡ length m / 2
    → i ≡ length p + length m + length q
    → swap_ends n j i (p ++ (m ++ q)) ≡ p ++ (reverse m ++ q)
swap_ends-middle zero j i p [] q a b c d = unfold swap_ends in refl
swap_ends-middle zero j i p (x ∷ []) q a b c d = unfold swap_ends in refl
swap_ends-middle zero j i p (x ∷ z ∷ l) q a b c d = absurd (omega arith)
swap_ends-middle (suc n) j i p [] q a b c d = absurd (omega arith)
swap_ends-middle (suc n) j i p (x ∷ []) q a b c d = absurd (omega arith)
swap_ends-middle (suc n) j i p (x ∷ z ∷ l) q a b c d =
    let (m, y, e) = snoc_cases z l in
    let same : suc (length l) ≡ length m + 1 = ap length e ∙ length-append m (y ∷ []) in
    swap_round n j i x y p m q (z ∷ l) e a (omega arith) (
      swap_ends-middle n (j + 1) i (p ++ (y ∷ [])) m (x ∷ q)
        (omega (arith, length-append p (y ∷ []))) (omega arith) (omega arith)
        (omega (arith, length-append p (y ∷ []))))

-- The loop reverses the buffer.
pub reverse_buffer-reverse : (b : List ℕ) → reverse_buffer b ≡ reverse b
unfolding reverse_buffer
reverse_buffer-reverse b =
    let whole = swap_ends-middle (length b / 2) 0 (length b) [] b [] refl refl refl (omega arith) in
    rw (append-nil b, append-nil (reverse b)) at whole
