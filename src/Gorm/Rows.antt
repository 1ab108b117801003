-- ===== src/Gorm/Rows.antt =====
-- What a condition selects after a row is added, replaced, changed or removed.
use web3airdrop_os.Base.{
  ◌≡◌, refl, sym, ap, ◌∙◌, subst, Bool, true, false, List, [], ◌∷◌, arith, ok, keep, All,
  Bool-cases, inl, inr,
}
use web3airdrop_os.Base.Text.{Text, text_eq, text_eq_iff, text_eq_self}
use web3airdrop_os.Gorm.{first_of, placed, changed, replaced, removed, IsKeyed, has_key}

module _ {R : Type 0} where
  pub first_of-All : (P : R → Type 0) (xs : List R) (x : R) → first_of xs ≡ ok x → All P xs → P x
  first_of-All P [] x e h = cc
  first_of-All P (y ∷ xs) x e h = subst P (ground (arith, e)) h.0

  pub keep-All : (p : R → Bool) (xs : List R) → All (λ x. p x ≡ true) (keep p xs)
  keep-All p [] = tt
  keep-All p (x ∷ xs) = elim (Bool-cases (p x)) [
    | inl hit ↦ rw hit (hit, keep-All p xs)
    | inr other ↦ rw other (keep-All p xs)
  ]

module _ {R : Type 0} (id : R → Text) where
  pub keep-placed_other :
      (p : R → Bool) (r : R) (xs : List R) → p r ≡ false → keep p (placed id r xs) ≡ keep p xs
  keep-placed_other p r [] h = ground arith
  keep-placed_other p r (x ∷ xs) h = ground (arith, keep-placed_other p r xs)

  pub keep-placed_new :
      (p : R → Bool) (r : R) (xs : List R)
      → p r ≡ true
      → keep p xs ≡ []
      → keep p (placed id r xs) ≡ r ∷ []
  keep-placed_new p r [] h e = ground arith
  keep-placed_new p r (x ∷ xs) h e = ground (arith, keep-placed_new p r xs)

  pub All-first :
      (P : R → Type 0) (p : R → Bool) (xs : List R) (x : R)
      → first_of (keep p xs) ≡ ok x
      → All P xs
      → P x × (p x ≡ true)
  All-first P p [] x e h = cc
  All-first P p (y ∷ xs) x e h = elim (Bool-cases (p y)) [
    | inl hit ↦
        let same : y ≡ x = ground (arith, e, hit) in subst (λ z. P z × (p z ≡ true)) same (h.0, hit)
    | inr other ↦ All-first P p xs x (rw other at e) h.1
  ]

  pub first-has_key :
      (p : R → Bool) (xs : List R) (x : R)
      → first_of (keep p xs) ≡ ok x
      → has_key id (id x) xs ≡ true
  first-has_key p [] x e = cc
  first-has_key p (y ∷ xs) x e = ground (arith, text_eq_self (id x), first-has_key p xs x)

  pub first-replaced :
      (p : R → Bool) (r x : R) (xs : List R)
      → IsKeyed id xs
      → first_of (keep p xs) ≡ ok x
      → id r ≡ id x
      → p r ≡ true
      → first_of (keep p (replaced id r xs)) ≡ ok r
  first-replaced p r x [] keyed e same h = cc
  first-replaced p r x (y ∷ xs) keyed e same h = elim (Bool-cases (p y)) [
    | inl hit ↦
        let is_x : y ≡ x = ground (arith, e, hit) in
        let key : text_eq (id y) (id r) ≡ true =
          (text_eq_iff (id y) (id r)).1 (ap id is_x ∙ sym same) in
        rw (key, h) refl
    | inr other ↦
        let e' = rw other at e in
        let (apart, hit) = All-first (λ z. text_eq (id y) (id z) ≡ false) p xs x e' keyed.0 in
        let key : text_eq (id y) (id r) ≡ false =
          subst (λ k. text_eq (id y) k ≡ false) (sym same) apart in
        rw (key, other) (first-replaced p r x xs keyed.1 e' same h)
  ]

  replaced_none :
      (r : R) (xs : List R) → All (λ z. text_eq (id r) (id z) ≡ false) xs → replaced id r xs ≡ xs
  replaced_none r [] h = refl
  replaced_none r (x ∷ xs) h =
      ground
        (arith, h.0, text_eq_iff (id x) (id r), text_eq_iff (id r) (id x), replaced_none r xs h.1)

  pub keep-replaced_other :
      (p q : R → Bool) (r x : R) (xs : List R)
      → IsKeyed id xs
      → first_of (keep p xs) ≡ ok x
      → id r ≡ id x
      → q x ≡ false
      → q r ≡ false
      → keep q (replaced id r xs) ≡ keep q xs
  keep-replaced_other p q r x [] keyed e same hx hr = refl
  keep-replaced_other p q r x (y ∷ xs) keyed e same hx hr = elim (Bool-cases (p y)) [
    | inl hit ↦
        let is_x : y ≡ x = ground (arith, e, hit) in
        let key : text_eq (id y) (id r) ≡ true =
          (text_eq_iff (id y) (id r)).1 (ap id is_x ∙ sym same) in
        let miss : q y ≡ false = ap q is_x ∙ hx in
        let apart =
          subst (λ k. All (λ z. text_eq k (id z) ≡ false) xs) (ap id is_x ∙ sym same) keyed.0 in
        rw (key, hr, miss) (ap (keep q) (replaced_none r xs apart))
    | inr other ↦
        let e' = rw other at e in
        let (apart, hit) = All-first (λ z. text_eq (id y) (id z) ≡ false) p xs x e' keyed.0 in
        let key : text_eq (id y) (id r) ≡ false =
          subst (λ k. text_eq (id y) k ≡ false) (sym same) apart in
        let rest = keep-replaced_other p q r x xs keyed.1 e' same hx hr in rw (key, rest) refl
  ]

  pub keep-removed :
      (p q : R → Bool) (xs : List R)
      → ((x : R) → q x ≡ true → p x ≡ false)
      → keep q (removed p xs) ≡ keep q xs
  keep-removed p q [] h = refl
  keep-removed p q (x ∷ xs) h = ground (arith, h x, keep-removed p q xs h)

  pub keep-removed_all : (p : R → Bool) (xs : List R) → keep p (removed p xs) ≡ []
  keep-removed_all p [] = refl
  keep-removed_all p (x ∷ xs) = ground (arith, keep-removed_all p xs)

  pub keep-changed :
      (p q : R → Bool) (f : R → R) (xs : List R)
      → ((x : R) → q (f x) ≡ q x)
      → keep q (changed p f xs) ≡ changed p f (keep q xs)
  keep-changed p q f [] h = refl
  keep-changed p q f (x ∷ xs) h = ground (arith, h x, keep-changed p q f xs h)

module _ {R : Type 0} where
  pub keep-none : (p : R → Bool) (xs : List R) → keep p xs ≡ [] → All (λ x. p x ≡ false) xs
  keep-none p [] h = tt
  keep-none p (x ∷ xs) h = elim (Bool-cases (p x)) [
    | inl hit ↦ let clash : x ∷ keep p xs ≡ [] = rw hit at h in cc
    | inr other ↦ (other, keep-none p xs (rw other at h))
  ]

  pub changed_one :
      (p : R → Bool) (f : R → R) (x : R) → p x ≡ true → changed p f (x ∷ []) ≡ f x ∷ []
  changed_one p f x h = rw h refl
