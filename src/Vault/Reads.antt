-- ===== src/Vault/Reads.antt =====
-- What a retrieval reads, and when it reads the same.
use web3airdrop_os.Base.{
  ℕ, ◌≡◌, refl, sym, ap, ◌∙◌, Bool, true, false, ◌&&◌, [], arith, Outcome, ok, err, lift-IsSteady,
  IsSteady, Outcome-cases, inl, inr, keep,
}
use web3airdrop_os.Base.Text.{Text, text_eq, text_eq_iff, text_eq_self}
use web3airdrop_os.Gorm as Gorm
use web3airdrop_os.Gorm.{DbError, Table, first_of, replaced, removed}
use web3airdrop_os.Vault.Records as Records
use web3airdrop_os.Vault.Records.{
  SecretType, Error, secret_not_found, secret_exists, iv_failed, encryption_failed, Secret, secrets,
  Crypto, Vault, encrypt, decrypt, derive_secret_key,
}
use web3airdrop_os.Vault.Secrets.{is_named, found, unexpired, or_failed, retrieve_found, retrieve}

abbrev pub same_secret : Text → Text → Text → Text → Bool
same_secret user_id name user_id' name' = text_eq user_id user_id' && text_eq name name'

pub same_secret_eq :
    (user_id name user_id' name' : Text)
    → same_secret user_id name user_id' name' ≡ true
    → (user_id ≡ user_id') × (name ≡ name')
same_secret_eq user_id name user_id' name' h =
    ground (arith, text_eq_iff user_id user_id', text_eq_iff name name')

pub same_secret_self : (user_id name : Text) → same_secret user_id name user_id name ≡ true
same_secret_self user_id name = ground (arith, text_eq_self user_id, text_eq_self name)

pub named_once :
    (user_id name user_id' name' : Text) (x : Secret)
    → is_named user_id name x ≡ true
    → same_secret user_id name user_id' name' ≡ false
    → is_named user_id' name' x ≡ false
named_once user_id name user_id' name' x hit other = ground (
  arith,
  hit,
  other,
  text_eq_iff x.user_id user_id,
  text_eq_iff x.name name,
  text_eq_iff x.user_id user_id',
  text_eq_iff x.name name',
  text_eq_iff user_id user_id',
  text_eq_iff name name',
)

pub named_apart :
    (user_id name user_id' name' : Text) (x : Secret)
    → is_named user_id' name' x ≡ true
    → same_secret user_id name user_id' name' ≡ false
    → is_named user_id name x ≡ false
named_apart user_id name user_id' name' x hit other = ground (
  arith,
  hit,
  other,
  text_eq_iff x.user_id user_id,
  text_eq_iff x.name name,
  text_eq_iff x.user_id user_id',
  text_eq_iff x.name name',
  text_eq_iff user_id user_id',
  text_eq_iff name name',
)

module _ (c : Crypto) (t : Table Secret) where
  -- What a retrieval at the time `now` gives.
  abbrev pub reads : Vault → ℕ → Text → Text → t.Store → Outcome Error Text
  reads v now user_id name s = (retrieve c t v user_id name now s).1

module _ (c : Crypto) (lawful : Records.Lawful c) (t : Table Secret)
    (law : Gorm.Lawful secrets t) where
  open t use {Store, first, save, create, rows}

  pub decrypt-encrypt :
      (plain key nonce sealed : Text)
      → encrypt c plain key nonce ≡ ok sealed
      → decrypt c sealed key nonce ≡ ok plain
  unfolding encrypt decrypt
  decrypt-encrypt plain key nonce sealed h = elim (Outcome-cases (c.new_cipher key)) [
    | inr (e, bad) ↦ let clash : err e ≡ ok sealed = rw bad at h in cc
    | inl (block, made) ↦ elim (Outcome-cases (c.new_gcm block)) [
      | inr (e, bad) ↦ let clash : err e ≡ ok sealed = rw (made, bad) at h in cc
      | inl (g, ready) ↦
          let same : ok (c.seal g nonce plain) ≡ ok sealed = rw (made, ready) at h in
          let is_sealed : c.seal g nonce plain ≡ sealed = cc in
          rw (made, ready, sym is_sealed) (lawful.open-seal g nonce plain)
    ]
  ]

  pub retrieve_found-IsSteady :
      (v : Vault) (user_id name : Text) (now : ℕ) (reply : Outcome DbError Secret)
      → IsSteady (retrieve_found c t v user_id name now reply)
  retrieve_found-IsSteady v user_id name now reply = lift-IsSteady (found reply) _ (λ x.
      lift-IsSteady (unexpired now x.expires_at) _ (λ u.
        lift-IsSteady (or_failed (c.hex_decode x.iv)) _ (λ nonce.
          lift-IsSteady (or_failed (c.base64_decode x.encrypted_value)) _ (λ sealed.
            lift-IsSteady (derive_secret_key v user_id name) _ (λ key.
              lift-IsSteady (or_failed (decrypt c sealed key nonce)) _ (λ plain s s'. refl))))))

  -- A retrieval depends on the rows of its user and name only.
  pub reads_same :
      (v : Vault) (now : ℕ) (user_id name : Text) (s s' : Store)
      → keep (is_named user_id name) (rows s') ≡ keep (is_named user_id name) (rows s)
      → reads c t v now user_id name s' ≡ reads c t v now user_id name s
  unfolding retrieve
  reads_same v now user_id name s s' h =
      let same : first (is_named user_id name) s' ≡ first (is_named user_id name) s =
        law.first_reply (is_named user_id name) s'
        ∙ ap first_of h
        ∙ sym (law.first_reply (is_named user_id name) s) in
      ap (λ o. (retrieve_found c t v user_id name now o s').1) same
      ∙ retrieve_found-IsSteady v user_id name now (first (is_named user_id name) s) s' s

  pub reads_none :
      (v : Vault) (now : ℕ) (user_id name : Text) (s : Store)
      → keep (is_named user_id name) (rows s) ≡ []
      → reads c t v now user_id name s ≡ err secret_not_found
  unfolding retrieve
  reads_none v now user_id name s h =
      ap (λ o. (retrieve_found c t v user_id name now o s).1)
        (law.first_reply (is_named user_id name) s ∙ ap first_of h)

  -- A row that is sealed for its user and name is read back.
  pub reads_sealed :
      (v : Vault) (now : ℕ) (user_id name value key nonce sealed : Text) (x : Secret) (s : Store)
      → first_of (keep (is_named user_id name) (rows s)) ≡ ok x
      → unexpired now x.expires_at ≡ ok tt
      → x.iv ≡ c.hex_encode nonce
      → x.encrypted_value ≡ c.base64_encode sealed
      → derive_secret_key v user_id name ≡ ok key
      → encrypt c value key nonce ≡ ok sealed
      → reads c t v now user_id name s ≡ ok value
  unfolding retrieve
  reads_sealed v now user_id name value key nonce sealed x s here fresh iv_lem value_lem derived_lem
        sealed_lem =
      let reply = law.first_reply (is_named user_id name) s ∙ here in
      let iv_back : c.hex_decode x.iv ≡ ok nonce =
        ap c.hex_decode iv_lem ∙ lawful.hex_decode-encode nonce in
      let sealed_back : c.base64_decode x.encrypted_value ≡ ok sealed =
        ap c.base64_decode value_lem ∙ lawful.base64_decode-encode sealed in
      let plain_back = decrypt-encrypt value key nonce sealed sealed_lem in
      ground (arith, reply, fresh, iv_back, sealed_back, derived_lem, plain_back)
