-- ===== src/Vault/Inversion.antt =====
-- What a successful change of the vault has done.
use web3airdrop_os.Base.{
  ℕ, ◌≡◌, refl, sym, ap, ◌∙◌, subst, Bool, Option, none, some, [], arith, Outcome, ok, err,
  Outcome-cases, List-cases, inl, inr, keep,
}
use web3airdrop_os.Base.Text.{Text}
use web3airdrop_os.Gorm as Gorm
use web3airdrop_os.Gorm.{DbError, Table, first_of, replaced, removed}
use web3airdrop_os.Vault.Records as Records
use web3airdrop_os.Vault.Records.{
  SecretType, Error, secret_not_found, secret_exists, iv_failed, encryption_failed, Secret, secrets,
  Crypto, Vault, encrypt, decrypt, derive_secret_key,
}
use web3airdrop_os.Vault.Secrets.{
  absent, known, created, saved, affected, resealed, seal_value, seal_with, with_nonce,
  store_sealed, update_sealed,
}

module _ (c : Crypto) (lawful : Records.Lawful c) (t : Table Secret)
    (law : Gorm.Lawful secrets t) where
  open t use {Store, first, save, create, rows}

  pub created_ok :
      (x y : Secret) (o : Store × Option DbError) (s' : Store)
      → created c t x o ≡ (s', ok y)
      → (o.1 ≡ none) × (o.0 ≡ s')
  created_ok x y (s, none) s' h = (refl, cc)
  created_ok x y (s, some e) s' h = cc

  pub saved_ok : (o : Store × Option DbError) (s' : Store) → saved c t o ≡ (s', ok tt) → o.0 ≡ s'
  saved_ok (s, none) s' h = cc
  saved_ok (s, some e) s' h = cc

  pub affected_state : (o : Store × (ℕ × Option DbError)) → (affected c t o).0 ≡ o.0
  affected_state (s, (ℕ.zero, e)) = refl
  affected_state (s, (ℕ.suc n, none)) = refl
  affected_state (s, (ℕ.suc n, some e)) = refl

  pub absent_none :
      (p : Secret → Bool) (s : Store) → absent (first p s) ≡ ok tt → keep p (rows s) ≡ []
  absent_none p s h = elim (List-cases (keep p (rows s))) [
    | inl empty ↦ empty
    | inr (x, (xs, some_found)) ↦
        let reply : first p s ≡ ok x = law.first_reply p s ∙ ap first_of some_found in
        let clash : err secret_exists ≡ ok tt = rw reply at h in cc
  ]

  -- What was sealed: some nonce, with which the value is sealed under the secret's key.
  abbrev pub IsSealed : Vault → Text → Text → Text → Text × Text → Type 0
  IsSealed v user_id name value (nonce, sealed) =
      (key : Text) × (derive_secret_key v user_id name ≡ ok key)
      × (encrypt c value key nonce ≡ ok sealed)

  pub with_nonce_ok :
      (nonce : Text) (o : Outcome Text Text) (n sealed : Text)
      → with_nonce c t nonce o ≡ ok (n, sealed)
      → (n ≡ nonce) × (o ≡ ok sealed)
  with_nonce_ok nonce (ok x) n sealed h = ground (arith, h)
  with_nonce_ok nonce (err e) n sealed h = cc

  pub seal_with-IsSealed :
      (v : Vault) (user_id name value : Text) (iv : Outcome Text Text) (key : Outcome Error Text)
      (nonce sealed : Text)
      → derive_secret_key v user_id name ≡ key
      → seal_with c t value iv key ≡ ok (nonce, sealed)
      → IsSealed v user_id name value (nonce, sealed)
  seal_with-IsSealed v user_id name value (err e) key nonce sealed d h = cc
  seal_with-IsSealed v user_id name value (ok n) (err e) nonce sealed d h = cc
  seal_with-IsSealed v user_id name value (ok n) (ok key) nonce sealed d h =
      let (same, made) = with_nonce_ok n (encrypt c value key n) nonce sealed h in
      (key, d, subst (λ m. encrypt c value key m ≡ ok sealed) (sym same) made)

  pub seal_value-IsSealed :
      (v : Vault) (user_id name value : Text) (iv : Outcome Text Text) (parts : Text × Text)
      → seal_value c t v user_id name value iv ≡ ok parts
      → IsSealed v user_id name value parts
  unfolding seal_value
  seal_value-IsSealed v user_id name value iv (nonce, sealed) h =
      seal_with-IsSealed v user_id name value iv (derive_secret_key v user_id name) nonce sealed
        refl h

  pub store_sealed_ok :
      (make : Text → Text → Secret) (free : Outcome Error (Unit {0}))
      (parts : Outcome Error (Text × Text)) (x : Secret) (s s' : Store)
      → store_sealed c t make free parts s ≡ (s', ok x)
      → (free ≡ ok tt)
        × ((p : Text × Text) × (parts ≡ ok p)
            × ((create (make p.1 p.0) s).1 ≡ none)
            × ((create (make p.1 p.0) s).0 ≡ s'))
  store_sealed_ok make (err e) parts x s s' h = cc
  store_sealed_ok make (ok _) (err e) x s s' h = cc
  store_sealed_ok make (ok _) (ok (nonce, sealed)) x s s' h =
      let y = make sealed nonce in
      let (fine, is_s') = created_ok y x (create y s) s' h in
      (refl, ((nonce, sealed), refl, fine, is_s'))

  pub update_sealed_ok :
      (now : ℕ) (reply : Outcome Error Secret) (parts : Outcome Error (Text × Text)) (s s' : Store)
      → update_sealed c t now reply parts s ≡ (s', ok tt)
      → (x : Secret) × (reply ≡ ok x)
        × ((p : Text × Text) × (parts ≡ ok p) × ((save (resealed c t p.1 p.0 now x) s).0 ≡ s'))
  update_sealed_ok now (err e) parts s s' h = cc
  update_sealed_ok now (ok x) (err e) s s' h = cc
  update_sealed_ok now (ok x) (ok (nonce, sealed)) s s' h =
      (x, refl, ((nonce, sealed), refl, saved_ok (save (resealed c t sealed nonce now x) s) s' h))

  pub known_ok :
      (p : Secret → Bool) (x : Secret) (s : Store)
      → known c t (first p s) ≡ ok x
      → first_of (keep p (rows s)) ≡ ok x
  known_ok p x s h = elim (Outcome-cases (first p s)) [
    | inl (y, e) ↦
        let same : ok y ≡ ok x = rw e at h in
        sym (law.first_reply p s) ∙ e ∙ ap (λ z. ok z) (ground (arith, same))
    | inr (f, e) ↦ let clash : err secret_not_found ≡ ok x = rw e at h in cc
  ]
