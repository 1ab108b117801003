-- ===== src/Vault/Secrets.antt =====
-- The operations of the vault on its table.
use web3airdrop_os.Base.{
  ℕ, zero, suc, ◌+◌, Bool, false, ◌&&◌, Option, none, some, List, [], map, Outcome, ok, err, Call,
  ◌>>=◌, return, lift, ask, ltb, if◌then◌else◌,
}
use web3airdrop_os.Base.Text.{Text, text_eq}
use web3airdrop_os.Gorm.{DbError, record_not_found, Table}
use web3airdrop_os.Vault.Records.{
  SecretType, Error, secret_not_found, decryption_failed, secret_exists, secret_expired, iv_failed,
  encryption_failed, database, Secret, Crypto, Vault, encrypt, decrypt, derive_secret_key,
}

abbrev pub is_named : Text → Text → Secret → Bool
is_named user_id name x = text_eq x.user_id user_id && text_eq x.name name

abbrev pub is_of : Text → Secret → Bool
is_of user_id x = text_eq x.user_id user_id

abbrev pub has_id : Text → Secret → Bool
has_id id x = text_eq x.id id

abbrev pub absent : Outcome DbError Secret → Outcome Error (Unit {0})
absent (ok x) = err secret_exists
absent (err e) = ok tt

abbrev pub found : Outcome DbError Secret → Outcome Error Secret
found (ok x) = ok x
found (err record_not_found) = err secret_not_found
found (err e) = err (database e)

abbrev pub unexpired : ℕ → Option ℕ → Outcome Error (Unit {0})
unexpired now none = ok tt
unexpired now (some t) = if ltb t now then err secret_expired else ok tt

abbrev pub or_failed : {A : Type 0} → Outcome Text A → Outcome Error A
or_failed (ok a) = ok a
or_failed (err e) = err decryption_failed

-- Where `json.Marshal` fails, the metadata stay as they are.
abbrev pub metadata_of : Option (Option Text) → Text
metadata_of (some (some json)) = json
metadata_of other = []

abbrev pub accessed : ℕ → Secret → Secret
accessed now x = record x { last_accessed_at = some now; access_count = x.access_count + 1 }

abbrev pub hidden : Secret → Secret
hidden x = record x { encrypted_value = []; iv = [] }

abbrev pub listed : Outcome DbError (List Secret) → Outcome Error (List Secret)
listed (ok xs) = ok (map hidden xs)
listed (err e) = err (database e)

abbrev pub counted : Outcome DbError ℕ → Outcome Error Bool
counted (ok n) = ok (ltb 0 n)
counted (err e) = err (database e)

module _ (c : Crypto) (t : Table Secret) where
  open c use {hex_encode, hex_decode, base64_encode, base64_decode}
  open t use {Store, first, find, count, create, save, update, delete}

  abbrev pub created : Secret → Store × Option DbError → Store × Outcome Error Secret
  created x (s, none) = (s, ok x)
  created x (s, some e) = (s, err (database e))

  abbrev pub saved : Store × Option DbError → Store × Outcome Error (Unit {0})
  saved (s, none) = (s, ok tt)
  saved (s, some e) = (s, err (database e))

  -- No row affected is reported as a secret that is not there, whatever the error.
  abbrev pub affected : Store × (ℕ × Option DbError) → Store × Outcome Error (Unit {0})
  affected (s, (zero, e)) = (s, err secret_not_found)
  affected (s, (suc n, none)) = (s, ok tt)
  affected (s, (suc n, some e)) = (s, err (database e))

  abbrev pub unchecked : Store × (ℕ × Option DbError) → Store × Outcome Error (Unit {0})
  unchecked (s, reply) = (s, ok tt)

  abbrev pub new_secret : Text → Text → Text → SecretType → Text → Text → Text → ℕ → Secret
  new_secret id user_id name key_type sealed iv metadata now = record {
    id = id;
    user_id = user_id;
    name = name;
    key_type = key_type;
    encrypted_value = base64_encode sealed;
    iv = hex_encode iv;
    metadata = metadata;
    expires_at = none;
    last_accessed_at = none;
    access_count = 0;
    created_at = now;
    updated_at = now;
  }

  abbrev pub with_nonce : Text → Outcome Text Text → Outcome Error (Text × Text)
  with_nonce nonce (ok sealed) = ok (nonce, sealed)
  with_nonce nonce (err e) = err (encryption_failed e)

  abbrev pub seal_with : Text → Outcome Text Text → Outcome Error Text → Outcome Error (Text × Text)
  seal_with value (err e) key = err (iv_failed e)
  seal_with value (ok nonce) (err e) = err e
  seal_with value (ok nonce) (ok key) = with_nonce nonce (encrypt c value key nonce)

  -- The steps that `Store` and `Update` share: a nonce, the secret's own key, the encryption. `iv` is
  -- what `rand.Reader` gives: 12 bytes or an error.
  unfoldable pub seal_value :
      Vault → Text → Text → Text → Outcome Text Text → Outcome Error (Text × Text)
  seal_value v user_id name value iv = seal_with value iv (derive_secret_key v user_id name)

  abbrev pub store_sealed :
      (Text → Text → Secret)
      → Outcome Error (Unit {0})
      → Outcome Error (Text × Text)
      → Call Store Error Secret
  store_sealed make (err e) o s = (s, err e)
  store_sealed make (ok _) (err e) s = (s, err e)
  store_sealed make (ok _) (ok (nonce, sealed)) s =
      created (make sealed nonce) (create (make sealed nonce) s)

  -- `metadata` is its JSON, if it is given.
  unfoldable pub store :
      Vault
      → Text
      → Text
      → Text
      → SecretType
      → Option (Option Text)
      → Outcome Text Text
      → Text
      → ℕ
      → Call Store Error Secret
  store v user_id name value key_type metadata iv id now s =
      store_sealed
        (λ sealed nonce.
          new_secret id user_id name key_type sealed nonce (metadata_of metadata) now)
        (absent (first (is_named user_id name) s)) (seal_value v user_id name value iv) s

  -- The update of the access statistics is not checked.
  abbrev pub retrieve_found :
      Vault → Text → Text → ℕ → Outcome DbError Secret → Call Store Error Text
  retrieve_found v user_id name now reply = do
    x ← lift (found reply)
    _ ← lift (unexpired now x.expires_at)
    nonce ← lift (or_failed (hex_decode x.iv))
    sealed ← lift (or_failed (base64_decode x.encrypted_value))
    key ← lift (derive_secret_key v user_id name)
    plain ← lift (or_failed (decrypt c sealed key nonce))
    _ ← λ s. unchecked (update (has_id x.id) (accessed now) s)
    return plain

  unfoldable pub retrieve : Vault → Text → Text → ℕ → Call Store Error Text
  retrieve v user_id name now s =
      retrieve_found v user_id name now (first (is_named user_id name) s) s

  unfoldable pub retrieve_by_id : Vault → Text → Text → ℕ → Call Store Error (Text × Secret)
  unfolding retrieve
  retrieve_by_id v user_id id now = do
    x ← ask (λ s. found (first (λ y. text_eq y.id id && text_eq y.user_id user_id) s))
    value ← retrieve v user_id x.name now
    return (value, x)

  -- Any error of the query is reported as a secret that is not there.
  abbrev pub known : Outcome DbError Secret → Outcome Error Secret
  known (ok x) = ok x
  known (err e) = err secret_not_found

  abbrev pub resealed : Text → Text → ℕ → Secret → Secret
  resealed sealed iv now x = record x {
    encrypted_value = base64_encode sealed;
    iv = hex_encode iv;
    updated_at = now;
  }

  abbrev pub update_sealed :
      ℕ → Outcome Error Secret → Outcome Error (Text × Text) → Call Store Error (Unit {0})
  update_sealed now (err e) o s = (s, err e)
  update_sealed now (ok x) (err e) s = (s, err e)
  update_sealed now (ok x) (ok (nonce, sealed)) s = saved (save (resealed sealed nonce now x) s)

  unfoldable pub update_secret :
      Vault → Text → Text → Text → Outcome Text Text → ℕ → Call Store Error (Unit {0})
  update_secret v user_id name value iv now s =
      update_sealed now (known (first (is_named user_id name) s))
        (seal_value v user_id name value iv) s

  unfoldable pub delete_secret : Text → Text → Call Store Error (Unit {0})
  delete_secret user_id name s = affected (delete (is_named user_id name) s)

  unfoldable pub list_secrets : Text → Store → Outcome Error (List Secret)
  list_secrets user_id s = listed (find (is_of user_id) s)

  -- `same_type` compares with the type asked for.
  unfoldable pub list_by_type : Text → (SecretType → Bool) → Store → Outcome Error (List Secret)
  list_by_type user_id same_type s = listed (find (λ x. is_of user_id x && same_type x.key_type) s)

  unfoldable pub secret_exists? : Text → Text → Store → Outcome Error Bool
  secret_exists? user_id name s = counted (count (is_named user_id name) s)

  unfoldable pub set_expiration : Text → Text → ℕ → Call Store Error (Unit {0})
  set_expiration user_id name at s =
      affected (update (is_named user_id name) (λ x. record x { expires_at = some at }) s)

  abbrev pub has_expired : ℕ → Option ℕ → Bool
  has_expired now none = false
  has_expired now (some at) = ltb at now

  unfoldable pub cleanup_expired : ℕ → Store → Store × (ℕ × Option DbError)
  cleanup_expired now s = delete (λ x. has_expired now x.expires_at) s
