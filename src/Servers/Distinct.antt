-- ===== src/Servers/Distinct.antt =====
-- Lists in which no two directories, or no two files of one directory, have the same name.
use native.Mathlib.Decide.{ℕ_discrete}
use sistema_operativo.Prelude.{
  ℕ, ◌≡◌, ◌≢◌, ◌∙◌, sym, true, List, get_or, write_at, get_or-write_at_self, get_or-write_at_ne,
}
use sistema_operativo.Servers.Types.{ServerDirectory, ServerFile}

-- Both are in use, with the same name.
abbrev pub SameDir : ServerDirectory → ServerDirectory → Type 0
SameDir a b = (a.used ≡ true) × (b.used ≡ true) × (a.name ≡ b.name)

abbrev pub SameFile : ServerFile → ServerFile → Type 0
SameFile a b = (a.used ≡ true) × (b.used ≡ true) × (a.dir ≡ b.dir) × (a.name ≡ b.name)

-- Entries at different places are not the same.
abbrev pub Distinct : {A : Type 0} → (A → A → Type 0) → A → List A → Type 0
Distinct R d xs = (i j : ℕ) → R (get_or xs i d) (get_or xs j d) → i ≡ j

module _ {A : Type 0} (R : A → A → Type 0) (d : A) (turned : (a b : A) → R a b → R b a) where
  new_is_other :
      (xs : List A) (i j : ℕ) (x : A)
      → ((k : ℕ) → k ≢ i → ¬ R x (get_or xs k d))
      → i ≢ j
      → ¬ R (get_or (write_at xs i x d) i d) (get_or (write_at xs i x d) j d)
  new_is_other xs i j x h ne r =
      h j (λ q. ne (sym q))
        (rw (get_or-write_at_self xs i x d, get_or-write_at_ne xs i j x d ne) at r)

  -- A new entry that is the same as no other keeps them distinct.
  pub Distinct-write_at :
      (xs : List A) (i : ℕ) (x : A)
      → Distinct R d xs
      → ((k : ℕ) → k ≢ i → ¬ R x (get_or xs k d))
      → Distinct R d (write_at xs i x d)
  Distinct-write_at xs i x h new a b r = elim (ℕ_discrete i a) [
    | yes ea ↦ elim (ℕ_discrete i b) [
      | yes eb ↦ sym ea ∙ eb
      | no nb ↦ absurd (new_is_other xs i b x new nb (rw (← ea) at r))
    ]
    | no na ↦ elim (ℕ_discrete i b) [
      | yes eb ↦ absurd (new_is_other xs i a x new na (rw (← eb) at (turned _ _ r)))
      | no nb ↦ h a b (rw (get_or-write_at_ne xs i a x d na, get_or-write_at_ne xs i b x d nb) at r)
    ]
  ]
