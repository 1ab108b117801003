-- ===== src/Gorm/Memory.antt =====
-- A table in memory: its rows, with pairwise distinct keys, are its store.
use web3airdrop_os.Base.{
  ℕ, ◌≡◌, refl, sym, ap, ◌∙◌, subst, Bool, true, false, not, Option, none, some, List, [], ◌∷◌,
  arith, ok, keep, All, All-keep, length, Bool-cases, inl, inr, if◌then◌else◌,
}
use web3airdrop_os.Base.Text.{Text, text_eq, text_eq_iff, text_lt}
use web3airdrop_os.Gorm.{
  DbError, unique_violation, failure, Model, Table, Lawful, first_of, placed, changed, replaced,
  removed, IsKeyed, has_key,
}

module _ {R : Type 0} (id : R → Text) where
  abbrev pub Apart : Text → List R → Type 0
  Apart k xs = All (λ z. text_eq k (id z) ≡ false) xs

  pub has_key-Apart : (k : Text) (xs : List R) → has_key id k xs ≡ false → Apart k xs
  has_key-Apart k [] h = tt
  has_key-Apart k (x ∷ xs) h = elim (Bool-cases (text_eq k (id x))) [
    | inl same ↦ let clash : true ≡ false = sym (ground (arith, same)) ∙ h in cc
    | inr apart ↦ (apart, has_key-Apart k xs (rw apart at h))
  ]

  placed-Apart :
      (k : Text) (r : R) (xs : List R)
      → text_eq k (id r) ≡ false
      → Apart k xs
      → Apart k (placed id r xs)
  placed-Apart k r [] h a = (h, tt)
  placed-Apart k r (x ∷ xs) h a = elim (Bool-cases (text_lt (id r) (id x))) [
    | inl before ↦ rw before (h, a)
    | inr later ↦ rw later (a.0, placed-Apart k r xs h a.1)
  ]

  swapped : (j k : Text) → text_eq j k ≡ false → text_eq k j ≡ false
  swapped j k h = ground (arith, text_eq_iff j k, text_eq_iff k j)

  pub placed-IsKeyed :
      (r : R) (xs : List R) → Apart (id r) xs → IsKeyed id xs → IsKeyed id (placed id r xs)
  placed-IsKeyed r [] a k = (tt, tt)
  placed-IsKeyed r (x ∷ xs) a k = elim (Bool-cases (text_lt (id r) (id x))) [
    | inl before ↦ rw before (a, k)
    | inr later ↦
        rw later
          (placed-Apart (id x) r xs (swapped (id r) (id x) a.0) k.0, placed-IsKeyed r xs a.1 k.1)
  ]

  changed-Apart :
      (k : Text) (p : R → Bool) (f : R → R) (xs : List R)
      → ((x : R) → p x ≡ true → id (f x) ≡ id x)
      → Apart k xs
      → Apart k (changed p f xs)
  changed-Apart k p f [] h a = tt
  changed-Apart k p f (x ∷ xs) h a = elim (Bool-cases (p x)) [
    | inl hit ↦ rw hit (ap (text_eq k) (h x hit) ∙ a.0, changed-Apart k p f xs h a.1)
    | inr other ↦ rw other (a.0, changed-Apart k p f xs h a.1)
  ]

  pub changed-IsKeyed :
      (p : R → Bool) (f : R → R) (xs : List R)
      → ((x : R) → p x ≡ true → id (f x) ≡ id x)
      → IsKeyed id xs
      → IsKeyed id (changed p f xs)
  changed-IsKeyed p f [] h k = tt
  changed-IsKeyed p f (x ∷ xs) h k = elim (Bool-cases (p x)) [
    | inl hit ↦
        let apart : Apart (id (f x)) (changed p f xs) =
          subst (λ i. Apart i (changed p f xs)) (sym (h x hit))
            (changed-Apart (id x) p f xs h k.0) in
        rw hit (apart, changed-IsKeyed p f xs h k.1)
    | inr other ↦ rw other (changed-Apart (id x) p f xs h k.0, changed-IsKeyed p f xs h k.1)
  ]

  pub removed-IsKeyed : (p : R → Bool) (xs : List R) → IsKeyed id xs → IsKeyed id (removed p xs)
  removed-IsKeyed p [] k = tt
  removed-IsKeyed p (x ∷ xs) k = elim (Bool-cases (p x)) [
    | inl gone ↦ rw gone (removed-IsKeyed p xs k.1)
    | inr stays ↦ rw stays (
      All-keep (λ z. text_eq (id x) (id z) ≡ false) (λ z. not (p z)) xs k.0,
      removed-IsKeyed p xs k.1,
    )
  ]

  changed_same :
      (p : R → Bool) (f g : R → R) (xs : List R)
      → ((x : R) → f x ≡ g x)
      → changed p f xs ≡ changed p g xs
  changed_same p f g [] h = refl
  changed_same p f g (x ∷ xs) h = ground (arith, h x, changed_same p f g xs h)

module _ {R : Type 0} (m : Model R) (stamp_id : (t : ℕ) (r : R) → m.id (m.stamp t r) ≡ m.id r) where
  open m use {id, stamp}

  abbrev pub Rows : Type 0
  Rows = (xs : List R) × IsKeyed id xs

  abbrev create_unless :
      (r : R) (xs : List R)
      → IsKeyed id xs
      → (taken : Bool) → has_key id (id r) xs ≡ taken
      → Rows × Option DbError
  create_unless r xs k true e = ((xs, k), some unique_violation)
  create_unless r xs k false e =
      ((placed id r xs, placed-IsKeyed id r xs (has_key-Apart id (id r) xs e) k), none)

  pub saving :
      (r : R) (xs : List R)
      → (x : R) → text_eq (id x) (id (stamp 0 r)) ≡ true
      → id (stamp 0 r) ≡ id x
  saving r xs x h = sym ((text_eq_iff _ _).0 h)

  abbrev save_if : (r : R) (xs : List R) → IsKeyed id xs → Bool → Rows × Option DbError
  save_if r xs k false = ((xs, k), some failure)
  save_if r xs k true =
      ((replaced id (stamp 0 r) xs, changed-IsKeyed id _ _ xs (saving r xs) k), none)

  -- A change of the primary key is not made.
  abbrev guarded : (R → R) → R → R
  guarded f x = if text_eq (id (stamp 0 (f x))) (id x) then stamp 0 (f x) else x

  pub guarded_id : (f : R → R) (x : R) → id (guarded f x) ≡ id x
  guarded_id f x = elim (Bool-cases (text_eq (id (stamp 0 (f x))) (id x))) [
    | inl same ↦ rw same ((text_eq_iff _ _).0 same)
    | inr other ↦ rw other refl
  ]

  guarded_lem : (f : R → R) (x : R) → id (f x) ≡ id x → guarded f x ≡ stamp 0 (f x)
  guarded_lem f x h =
      let same : text_eq (id (stamp 0 (f x))) (id x) ≡ true =
        (text_eq_iff _ _).1 (stamp_id 0 (f x) ∙ h) in
      rw same refl

  abbrev pub table : Table R
  table = record {
    Store = Rows;
    rows = λ s. s.0;
    first = λ p s. first_of (keep p s.0);
    find = λ p s. ok (keep p s.0);
    count = λ p s. ok (length (keep p s.0));
    create = λ r s. create_unless r s.0 s.1 (has_key id (id r) s.0) refl;
    save = λ r s. save_if r s.0 s.1 (has_key id (id r) s.0);
    update = λ p f s. (
      (changed p (guarded f) s.0, changed-IsKeyed id p (guarded f) s.0 (λ x h. guarded_id f x) s.1),
      (length (keep p s.0), none),
    );
    delete = λ p s. ((removed p s.0, removed-IsKeyed id p s.0 s.1), (length (keep p s.0), none));
  }

  create_unless-rows :
      (r : R) (xs : List R) (k : IsKeyed id xs) (taken : Bool) (e : has_key id (id r) xs ≡ taken)
      → (create_unless r xs k taken e).1 ≡ none
      → (create_unless r xs k taken e).0.0 ≡ placed id r xs
  create_unless-rows r xs k true e h = cc
  create_unless-rows r xs k false e h = refl

  create_unless-refused :
      (r : R) (x : DbError) (xs : List R) (k : IsKeyed id xs) (taken : Bool)
      (e : has_key id (id r) xs ≡ taken)
      → (create_unless r xs k taken e).1 ≡ some x
      → (create_unless r xs k taken e).0.0 ≡ xs
  create_unless-refused r x xs k true e h = refl
  create_unless-refused r x xs k false e h = cc

  save_if-rows :
      (r : R) (xs : List R) (k : IsKeyed id xs) (known : Bool)
      → known ≡ true
      → ((save_if r xs k known).1 ≡ none)
        × ((now : ℕ) × ((save_if r xs k known).0.0 ≡ replaced id (stamp now r) xs))
  save_if-rows r xs k true e = (refl, (0, refl))
  save_if-rows r xs k false e = cc

  pub table-Lawful : Lawful m table
  table-Lawful = record {
    keyed = λ s. s.1;
    first_reply = λ p s. refl;
    find_reply = λ p s. refl;
    count_reply = λ p s. refl;
    create_rows = λ r s. create_unless-rows r s.0 s.1 (has_key id (id r) s.0) refl;
    create_refused = λ r e s. create_unless-refused r e s.0 s.1 (has_key id (id r) s.0) refl;
    save_rows = λ r s h. save_if-rows r s.0 s.1 (has_key id (id r) s.0) h;
    update_rows = λ p f s h. (
      refl,
      (0, changed_same id p (guarded f) (λ x. stamp 0 (f x)) s.0 (λ x. guarded_lem f x (h x))),
    );
    delete_rows = λ p s. (refl, refl);
  }
