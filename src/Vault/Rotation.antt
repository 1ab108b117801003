-- ===== src/Vault/Rotation.antt =====
-- `RotateKey`. The vault made for the new key has no key deriver.
use web3airdrop_os.Base.{
  ℕ, suc, ◌≡◌, ◌⊎◌, refl, ap, ◌∙◌, none, List, [], ◌∷◌, Outcome, ok, err, map_err, Call, ◌>>=◌,
  ◌>>◌, return, lift, Outcome-cases, List-cases, inl, inr, keep,
}
use web3airdrop_os.Base.Text.{Text}
use web3airdrop_os.Gorm as Gorm
use web3airdrop_os.Gorm.{DbError, Table}
use web3airdrop_os.Vault.Records.{
  Error, iv_failed, encryption_failed, cannot_decrypt, database, nil_call, Secret, secrets, Crypto,
  Vault, encrypt, decrypt, derive_secret_key,
}
use web3airdrop_os.Vault.Secrets.{is_of, saved, resealed}

module _ (c : Crypto) (t : Table Secret) where
  open c use {hex_bytes, base64_bytes}
  open t use {Store, find, save, rows}

  -- Errors of the decoders are dropped.
  unfoldable pub rotate_one :
      Vault → Vault → Text → Secret → Outcome Text Text → ℕ → Call Store Error (Unit {0})
  rotate_one old new user_id x iv now = do
    key ← lift (derive_secret_key old user_id x.name)
    plain ← lift (
        map_err (cannot_decrypt x.name)
          (decrypt c (base64_bytes x.encrypted_value) key (hex_bytes x.iv)))
    nonce ← lift (map_err iv_failed iv)
    new_key ← lift (derive_secret_key new user_id x.name)
    sealed ← lift (map_err encryption_failed (encrypt c plain new_key nonce))
    λ s. saved c t (save (resealed c t sealed nonce now x) s)

  -- The reading of `rand.Reader` and of the clock for the n-th secret is `draws n`.
  unfoldable pub rotate_all :
      Vault
      → Vault
      → Text
      → (ℕ → Outcome Text Text × ℕ)
      → ℕ
      → List Secret
      → Call Store Error (Unit {0})
  rotate_all old new user_id draws n [] = return tt
  rotate_all old new user_id draws n (x ∷ xs) =
      rotate_one old new user_id x (draws n).0 (draws n).1
      >> rotate_all old new user_id draws (suc n) xs

  abbrev pub rotate_found :
      Vault
      → Text
      → Text
      → (ℕ → Outcome Text Text × ℕ)
      → Outcome DbError (List Secret)
      → Call Store Error (Unit {0})
  rotate_found v user_id new_key draws (err e) = lift (err (database e))
  rotate_found v user_id new_key draws (ok xs) =
      rotate_all v (record { master_key = new_key; key_deriver = none }) user_id draws 0 xs

  -- The key of the vault, which serves all users, is set at the end.
  abbrev pub rekeyed :
      Vault → Text → Store × Outcome Error (Unit {0}) → Store × (Vault × Outcome Error (Unit {0}))
  rekeyed v new_key (s, ok u) = (s, (record v { master_key = new_key }, ok u))
  rekeyed v new_key (s, err e) = (s, (v, err e))

  unfoldable pub rotate_key :
      Vault
      → Text
      → Text
      → (ℕ → Outcome Text Text × ℕ)
      → Store
      → Store × (Vault × Outcome Error (Unit {0}))
  rotate_key v user_id new_key draws s =
      rekeyed v new_key (rotate_found v user_id new_key draws (find (is_of user_id) s) s)

  rotate_one_fails :
      (old : Vault) (user_id new_key : Text) (x : Secret) (iv : Outcome Text Text) (now : ℕ)
      (s : Store)
      → (e : Error) × (rotate_one old
            (record { master_key = new_key; key_deriver = none })
            user_id
            x
            iv
            now
            s
          ≡ (s, err e))
  unfolding rotate_one
  rotate_one_fails old user_id new_key x iv now s =
      elim (Outcome-cases (derive_secret_key old user_id x.name)) [
        | inr (e, bad) ↦ (e, rw bad)
        | inl (key, fine) ↦
            elim (Outcome-cases (decrypt c (base64_bytes x.encrypted_value) key (hex_bytes x.iv))) [
              | inr (e, bad) ↦ (cannot_decrypt x.name e, rw (fine, bad))
              | inl (plain, opened) ↦ elim (Outcome-cases iv) [
                | inr (e, bad) ↦ (iv_failed e, rw (fine, opened, bad))
                | inl (nonce, drawn) ↦
                    (nil_call, rw (fine, opened, drawn) (unfold derive_secret_key in refl))
              ]
            ]
      ]

  rotate_found_fails :
      (v : Vault) (user_id new_key : Text) (draws : ℕ → Outcome Text Text × ℕ) (x : Secret)
      (xs : List Secret) (s : Store)
      → (e : Error) × (rekeyed v new_key (rotate_found v user_id new_key draws (ok (x ∷ xs)) s)
          ≡ (s, (v, err e)))
  unfolding rotate_all
  rotate_found_fails v user_id new_key draws x xs s =
      let (e, fails) = rotate_one_fails v user_id new_key x (draws 0).0 (draws 0).1 s in
      (e, rw fails)

  -- A rotation never rotates a secret. Where the user has secrets, the call fails and leaves the
  -- table and the vault as they were; where the user has none, it succeeds and gives the vault, with
  -- the secrets of all other users in it, the new key.
  pub rotate_key_never_rotates :
      (law : Gorm.Lawful secrets t) (v : Vault) (user_id new_key : Text)
      (draws : ℕ → Outcome Text Text × ℕ) (s : Store)
      → ((x : Secret) × (xs : List Secret) × (keep (is_of user_id) (rows s) ≡ x ∷ xs)
          × ((e : Error) × (rotate_key v user_id new_key draws s ≡ (s, (v, err e)))))
        ⊎ ((keep (is_of user_id) (rows s) ≡ [])
            × (rotate_key v user_id new_key draws s
                ≡ (s, (record v { master_key = new_key }, ok tt))))
  unfolding rotate_key
  rotate_key_never_rotates law v user_id new_key draws s =
      let reply = law.find_reply (is_of user_id) s in
      elim (List-cases (keep (is_of user_id) (rows s))) [
        | inl none_found ↦ inr (
          none_found,
          ap (λ o. rekeyed v new_key (rotate_found v user_id new_key draws o s))
                (reply ∙ ap ok none_found)
              ∙ unfold rotate_all in refl,
        )
        | inr (x, (xs, some_found)) ↦
            let (e, fails) = rotate_found_fails v user_id new_key draws x xs s in
            inl (
              x,
              xs,
              some_found,
              (
                e,
                ap (λ o. rekeyed v new_key (rotate_found v user_id new_key draws o s))
                      (reply ∙ ap ok some_found)
                    ∙ fails,
              ),
            )
      ]
