-- ===== src/Vault/Map.antt =====
-- The vault is a map: for a user and a name it holds the value that was put there last.
use web3airdrop_os.Base.{
  ℕ, ◌≡◌, refl, sym, ap, ◌∙◌, subst, true, false, Option, [], ◌∷◌, arith, Outcome, ok, err, Call,
  Bool-cases, inl, inr, keep, All, if◌then◌else◌,
}
use web3airdrop_os.Base.Text.{Text}
use web3airdrop_os.Gorm as Gorm
use web3airdrop_os.Gorm.{DbError, Table, first_of, replaced, removed}
use web3airdrop_os.Gorm.Rows.{
  keep-placed_other, keep-placed_new, first-has_key, first-replaced, keep-replaced_other,
  keep-removed, keep-removed_all, first_of-All, keep-All,
}
use web3airdrop_os.Vault.Records as Records
use web3airdrop_os.Vault.Records.{
  SecretType, Error, secret_not_found, secret_exists, iv_failed, encryption_failed, Secret, secrets,
  Crypto, Vault, encrypt, decrypt, derive_secret_key,
}
use web3airdrop_os.Vault.Secrets.{
  is_named, absent, known, unexpired, metadata_of, new_secret, resealed, seal_value, store,
  update_secret, delete_secret,
}
use web3airdrop_os.Vault.Reads.{
  same_secret, same_secret_eq, same_secret_self, named_once, named_apart, reads, reads_same,
  reads_none, reads_sealed,
}
use web3airdrop_os.Vault.Inversion.{
  affected_state, absent_none, seal_value-IsSealed, store_sealed_ok, update_sealed_ok, known_ok,
}

-- What a caller does to the secret of a user and a name.
pub data Change : Type 0 where
  stores :
      (value : Text) (key_type : SecretType) (metadata : Option (Option Text)) (id : Text) → Change
  updates : (value : Text) → Change
  deletes : Change

-- What the secret reads afterwards.
abbrev pub reading_after : Change → Outcome Error Text
reading_after (stores value key_type metadata id) = ok value
reading_after (updates value) = ok value
reading_after deletes = err secret_not_found

module _ (c : Crypto) (t : Table Secret) where
  open t use {Store}

  abbrev pub forget : {A : Type 0} → Store × Outcome Error A → Store × Outcome Error (Unit {0})
  forget (s, ok a) = (s, ok tt)
  forget (s, err e) = (s, err e)

  unfoldable pub run :
      Vault → Text → Text → Outcome Text Text → ℕ → Change → Call Store Error (Unit {0})
  run v user_id name iv now (stores value key_type metadata id) s =
      forget (store c t v user_id name value key_type metadata iv id now s)
  run v user_id name iv now (updates value) s = update_secret c t v user_id name value iv now s
  run v user_id name iv now deletes s = delete_secret c t user_id name s

module _ (c : Crypto) (lawful : Records.Lawful c) (t : Table Secret)
    (law : Gorm.Lawful secrets t) where
  open t use {Store, first, save, create, rows}

  -- After a change that succeeds: the secret reads `answer`, and the others read as before.
  abbrev Updates : Vault → ℕ → Text → Text → Outcome Error Text → Store → Store → Type 0
  Updates v later user_id name answer s s' =
      (user_id' name' : Text)
      → reads c t v later user_id' name' s' ≡ (
          if same_secret user_id name user_id' name'
          then answer
          else reads c t v later user_id' name' s)

  Updates-from :
      (v : Vault) (later : ℕ) (user_id name : Text) (answer : Outcome Error Text) (s s' : Store)
      → reads c t v later user_id name s' ≡ answer
      → ((user_id' name' : Text)
          → same_secret user_id name user_id' name' ≡ false
          → keep (is_named user_id' name') (rows s') ≡ keep (is_named user_id' name') (rows s))
      → Updates v later user_id name answer s s'
  Updates-from v later user_id name answer s s' here there user_id' name' =
      elim (Bool-cases (same_secret user_id name user_id' name')) [
        | inl same ↦
            let (is_user, is_name) = same_secret_eq user_id name user_id' name' same in
            rw same (
              subst (λ u. reads c t v later u name' s' ≡ answer) is_user
                (subst (λ n. reads c t v later user_id n s' ≡ answer) is_name here))
        | inr other ↦
            rw other
              (reads_same c lawful t law v later user_id' name' s s' (there user_id' name' other))
      ]

  store-Updates :
      (v : Vault) (later : ℕ) (user_id name value : Text) (key_type : SecretType)
      (metadata : Option (Option Text)) (iv : Outcome Text Text) (id : Text) (now : ℕ) (x : Secret)
      (s s' : Store)
      → store c t v user_id name value key_type metadata iv id now s ≡ (s', ok x)
      → Updates v later user_id name (ok value) s s'
  unfolding store
  store-Updates v later user_id name value key_type metadata iv id now x s s' h =
      let make = λ (sealed nonce : Text).
        new_secret c t id user_id name key_type sealed nonce (metadata_of metadata) now in
      let (free, ((nonce, sealed), parts, fine, is_s')) =
        store_sealed_ok c lawful t law make (absent (first (is_named user_id name) s))
          (seal_value c t v user_id name value iv) x s s' h in
      let (key, derived_lem, made) =
        seal_value-IsSealed c lawful t law v user_id name value iv (nonce, sealed) parts in
      let y = make sealed nonce in
      let added : rows s' ≡ Gorm.placed secrets.id y (rows s) =
        ap rows (sym is_s') ∙ law.create_rows y s fine in
      let alone : keep (is_named user_id name) (rows s') ≡ y ∷ [] =
        ap (keep (is_named user_id name)) added
        ∙ keep-placed_new secrets.id (is_named user_id name) y (rows s)
            (same_secret_self user_id name)
            (absent_none c lawful t law (is_named user_id name) s free) in
      Updates-from v later user_id name (ok value) s s'
        (reads_sealed c lawful t law v later user_id name value key nonce sealed y s'
          (ap first_of alone) refl refl refl derived_lem made)
        (λ user_id' name' other.
          ap (keep (is_named user_id' name')) added
          ∙ keep-placed_other secrets.id (is_named user_id' name') y (rows s) other)

  update-Updates :
      (v : Vault) (later : ℕ) (user_id name value : Text) (iv : Outcome Text Text) (now : ℕ)
      (s s' : Store)
      → update_secret c t v user_id name value iv now s ≡ (s', ok tt)
      → All (λ x. unexpired later x.expires_at ≡ ok tt) (keep (is_named user_id name) (rows s))
      → Updates v later user_id name (ok value) s s'
  unfolding update_secret
  update-Updates v later user_id name value iv now s s' h fresh =
      let p = is_named user_id name in
      let (x, reply, ((nonce, sealed), parts, is_s')) =
        update_sealed_ok c lawful t law now (known c t (first p s))
          (seal_value c t v user_id name value iv) s s' h in
      let (key, derived_lem, made) =
        seal_value-IsSealed c lawful t law v user_id name value iv (nonce, sealed) parts in
      let found_lem = known_ok c lawful t law p x s reply in
      let y = resealed c t sealed nonce now x in
      let (fine, (at, replaced_lem)) =
        law.save_rows y s (first-has_key secrets.id p (rows s) x found_lem) in
      let z = record y { updated_at = at } in
      let after : rows s' ≡ replaced secrets.id z (rows s) = ap rows (sym is_s') ∙ replaced_lem in
      let keyed = law.keyed s in
      let hit =
        first_of-All (λ y. p y ≡ true) (keep p (rows s)) x found_lem (keep-All p (rows s)) in
      let live =
        first_of-All (λ y. unexpired later y.expires_at ≡ ok tt) (keep p (rows s)) x found_lem
          fresh in
      let miss : (user_id' name' : Text)
          → same_secret user_id name user_id' name' ≡ false
          → is_named user_id' name' x ≡ false =
        λ user_id' name' other. named_once user_id name user_id' name' x hit other in
      Updates-from v later user_id name (ok value) s s'
        (reads_sealed c lawful t law v later user_id name value key nonce sealed z s'
          (ap (λ xs. first_of (keep p xs)) after
            ∙ first-replaced secrets.id p z x (rows s) keyed found_lem refl hit)
          live refl refl derived_lem made)
        (λ user_id' name' other.
          ap (keep (is_named user_id' name')) after
          ∙ keep-replaced_other secrets.id p (is_named user_id' name') z x (rows s) keyed found_lem
              refl (miss user_id' name' other) (miss user_id' name' other))

  delete-Updates :
      (v : Vault) (later : ℕ) (user_id name : Text) (s s' : Store)
      → delete_secret c t user_id name s ≡ (s', ok tt)
      → Updates v later user_id name (err secret_not_found) s s'
  unfolding delete_secret
  delete-Updates v later user_id name s s' h =
      let p = is_named user_id name in
      let gone = (law.delete_rows p s).1 in
      let is_s' : (t.delete p s).0 ≡ s' =
        sym (affected_state c lawful t law (t.delete p s)) ∙ ap (λ o. o.0) h in
      let after : rows s' ≡ removed p (rows s) = ap rows (sym is_s') ∙ gone in
      Updates-from v later user_id name (err secret_not_found) s s'
        (reads_none c lawful t law v later user_id name s'
          (ap (keep p) after ∙ keep-removed_all secrets.id p (rows s)))
        (λ user_id' name' other.
          ap (keep (is_named user_id' name')) after
          ∙ keep-removed secrets.id p (is_named user_id' name') (rows s)
              (λ x hit. named_apart user_id name user_id' name' x hit other))

  forget_ok :
      {A : Type 0} (o : Store × Outcome Error A) (s' : Store)
      → forget c t o ≡ (s', ok tt)
      → (a : A) × (o ≡ (s', ok a))
  forget_ok (s, ok a) s' h = (a, ground (arith, h))
  forget_ok (s, err e) s' h = cc

  -- A change that succeeds is an update of the map from users and names to values: afterwards the
  -- secret reads as the change says, and every other secret, of any user, reads as before; at a
  -- time when no secret that was stored for this user and name has expired.
  pub change_updates_map :
      (v : Vault) (user_id name : Text) (iv : Outcome Text Text) (now later : ℕ) (change : Change)
      (s s' : Store)
      → run c t v user_id name iv now change s ≡ (s', ok tt)
      → All (λ x. unexpired later x.expires_at ≡ ok tt) (keep (is_named user_id name) (rows s))
      → (user_id' name' : Text)
      → reads c t v later user_id' name' s' ≡ (
          if same_secret user_id name user_id' name'
          then reading_after change
          else reads c t v later user_id' name' s)
  unfolding run
  change_updates_map v user_id name iv now later (stores value key_type metadata id) s s' h fresh =
      let (x, done) =
        forget_ok (store c t v user_id name value key_type metadata iv id now s) s' h in
      store-Updates v later user_id name value key_type metadata iv id now x s s' done
  change_updates_map v user_id name iv now later (updates value) s s' h fresh =
      update-Updates v later user_id name value iv now s s' h fresh
  change_updates_map v user_id name iv now later deletes s s' h fresh =
      delete-Updates v later user_id name s s' h
