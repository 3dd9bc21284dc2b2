-- ===== src/Prelude/Lists.antt =====
-- Lists measured and indexed by native numbers: C arrays.
use Prim.Native.Nat.{ℕ, zero, suc, ◌+◌, ◌<◌, ◌≤◌, min}
use mathlib.Core.Path.{◌≡◌, refl, ap}
use mathlib.Core.Logic.{◌≢◌}
use mathlib.Core.List.{List, [], ◌∷◌, ◌++◌, map}
use native.Mathlib.Omega.{arith}

module _ {ℓ} {A : Type ℓ} where
  abbrev pub length : List A → ℕ
  length [] = 0
  length (x ∷ xs) = suc (length xs)

  -- A read out of bounds gives the default.
  abbrev pub get_or : List A → ℕ → A → A
  get_or [] i d = d
  get_or (x ∷ xs) zero d = x
  get_or (x ∷ xs) (suc i) d = get_or xs i d

  -- A write inside an array. Out of bounds it changes nothing here, where C writes beyond the array.
  abbrev pub set : List A → ℕ → A → List A
  set [] i v = []
  set (x ∷ xs) zero v = v ∷ xs
  set (x ∷ xs) (suc i) v = x ∷ set xs i v

  -- A write that shows: out of bounds it makes the list longer, up to the place that it writes, with
  -- defaults between.
  abbrev pub write_at : List A → ℕ → A → A → List A
  write_at [] zero v d = v ∷ []
  write_at [] (suc i) v d = d ∷ write_at [] i v d
  write_at (x ∷ xs) zero v d = v ∷ xs
  write_at (x ∷ xs) (suc i) v d = x ∷ write_at xs i v d

  abbrev pub take : ℕ → List A → List A
  take zero xs = []
  take (suc n) [] = []
  take (suc n) (x ∷ xs) = x ∷ take n xs

  abbrev pub drop : ℕ → List A → List A
  drop zero xs = xs
  drop (suc n) [] = []
  drop (suc n) (x ∷ xs) = drop n xs

  abbrev pub replicate : ℕ → A → List A
  replicate zero a = []
  replicate (suc n) a = a ∷ replicate n a

  pub length-append : (xs ys : List A) → length (xs ++ ys) ≡ length xs + length ys
  length-append [] ys = omega arith
  length-append (x ∷ xs) ys = omega (arith, length-append xs ys)

  pub length-set : (xs : List A) (i : ℕ) (v : A) → length (set xs i v) ≡ length xs
  length-set [] i v = refl
  length-set (x ∷ xs) zero v = refl
  length-set (x ∷ xs) (suc i) v = ap suc (length-set xs i v)

  pub length-take : (n : ℕ) (xs : List A) → length (take n xs) ≡ min n (length xs)
  length-take zero xs = omega arith
  length-take (suc n) [] = omega arith
  length-take (suc n) (x ∷ xs) = omega (arith, length-take n xs)

  pub length-replicate : (n : ℕ) (a : A) → length (replicate n a) ≡ n
  length-replicate zero a = refl
  length-replicate (suc n) a = ap suc (length-replicate n a)

  pub get_or-set_self :
      (xs : List A) (i : ℕ) (v d : A) → i < length xs → get_or (set xs i v) i d ≡ v
  get_or-set_self [] i v d h = absurd (omega arith)
  get_or-set_self (x ∷ xs) zero v d h = refl
  get_or-set_self (x ∷ xs) (suc i) v d h = get_or-set_self xs i v d (omega arith)

  pub get_or-set_ne :
      (xs : List A) (i j : ℕ) (v d : A) → i ≢ j → get_or (set xs i v) j d ≡ get_or xs j d
  get_or-set_ne [] i j v d h = refl
  get_or-set_ne (x ∷ xs) zero zero v d h = absurd (h refl)
  get_or-set_ne (x ∷ xs) zero (suc j) v d h = refl
  get_or-set_ne (x ∷ xs) (suc i) zero v d h = refl
  get_or-set_ne (x ∷ xs) (suc i) (suc j) v d h = get_or-set_ne xs i j v d (λ e. h (ap suc e))

  pub get_or-write_at_self : (xs : List A) (i : ℕ) (v d : A) → get_or (write_at xs i v d) i d ≡ v
  get_or-write_at_self [] zero v d = refl
  get_or-write_at_self [] (suc i) v d = get_or-write_at_self [] i v d
  get_or-write_at_self (x ∷ xs) zero v d = refl
  get_or-write_at_self (x ∷ xs) (suc i) v d = get_or-write_at_self xs i v d

  pub get_or-write_at_ne :
      (xs : List A) (i j : ℕ) (v d : A) → i ≢ j → get_or (write_at xs i v d) j d ≡ get_or xs j d
  get_or-write_at_ne [] zero zero v d h = absurd (h refl)
  get_or-write_at_ne [] zero (suc j) v d h = refl
  get_or-write_at_ne [] (suc i) zero v d h = refl
  get_or-write_at_ne [] (suc i) (suc j) v d h = get_or-write_at_ne [] i j v d (λ e. h (ap suc e))
  get_or-write_at_ne (x ∷ xs) zero zero v d h = absurd (h refl)
  get_or-write_at_ne (x ∷ xs) zero (suc j) v d h = refl
  get_or-write_at_ne (x ∷ xs) (suc i) zero v d h = refl
  get_or-write_at_ne (x ∷ xs) (suc i) (suc j) v d h =
      get_or-write_at_ne xs i j v d (λ e. h (ap suc e))

  pub length-write_at :
      (xs : List A) (i : ℕ) (v d : A) → i < length xs → length (write_at xs i v d) ≡ length xs
  length-write_at [] i v d h = absurd (omega arith)
  length-write_at (x ∷ xs) zero v d h = refl
  length-write_at (x ∷ xs) (suc i) v d h = ap suc (length-write_at xs i v d (omega arith))

  pub length-write_at_le :
      (xs : List A) (i : ℕ) (v d : A) (n : ℕ)
      → i < n
      → length xs ≤ n
      → length (write_at xs i v d) ≤ n
  length-write_at_le [] zero v d n h k = omega arith
  length-write_at_le [] (suc i) v d zero h k = absurd (omega arith)
  length-write_at_le [] (suc i) v d (suc n) h k =
      omega (arith, length-write_at_le [] i v d n (omega arith) (omega arith))
  length-write_at_le (x ∷ xs) zero v d n h k = omega arith
  length-write_at_le (x ∷ xs) (suc i) v d zero h k = absurd (omega arith)
  length-write_at_le (x ∷ xs) (suc i) v d (suc n) h k =
      omega (arith, length-write_at_le xs i v d n (omega arith) (omega arith))

  pub get_or-length_le : (xs : List A) (i : ℕ) (d : A) → length xs ≤ i → get_or xs i d ≡ d
  get_or-length_le [] i d h = refl
  get_or-length_le (x ∷ xs) zero d h = absurd (omega arith)
  get_or-length_le (x ∷ xs) (suc i) d h = get_or-length_le xs i d (omega arith)

module _ {ℓ κ} {A : Type ℓ} {B : Type κ} (f : A → B) where
  pub length-map : (xs : List A) → length (map f xs) ≡ length xs
  length-map [] = refl
  length-map (x ∷ xs) = ap suc (length-map xs)

  pub get_or-map : (xs : List A) (i : ℕ) (d : A) → get_or (map f xs) i (f d) ≡ f (get_or xs i d)
  get_or-map [] i d = refl
  get_or-map (x ∷ xs) zero d = refl
  get_or-map (x ∷ xs) (suc i) d = get_or-map xs i d
