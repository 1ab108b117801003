-- ===== src/Vault/Records.antt =====
-- The stored secrets, and the ciphers and encodings that the vault calls (crypto/aes, crypto/cipher,
-- golang.org/x/crypto/argon2, encoding/hex, encoding/base64), which are parameters.
use web3airdrop_os.Base.{
  ℕ, ◌≡◌, ◌==◌, Option, none, some, Outcome, ok, err, length, ◌++◌, if◌then◌else◌,
}
use web3airdrop_os.Base.Text.{Text, codes}
use web3airdrop_os.Gorm.{DbError, Model}

pub data SecretType : Type 0 where
  api_key token password private_key certificate credentials : SecretType

pub data Error : Type 0 where
  secret_not_found decryption_failed secret_exists secret_expired : Error
  iv_failed encryption_failed : Text → Error
  cannot_decrypt : (name message : Text) → Error
  database : DbError → Error
  -- A call of the nil function, which panics.
  nil_call : Error

-- `user_id` is the identifier's 16 bytes. Metadata is a JSON text. A secret that is deleted softly
-- is not among the rows of the table.
pub record Secret : Type 0 where
  pub id : Text
  pub user_id : Text
  pub name : Text
  pub key_type : SecretType
  pub encrypted_value : Text
  pub iv : Text
  pub metadata : Text
  pub expires_at : Option ℕ
  pub last_accessed_at : Option ℕ
  pub access_count : ℕ
  pub created_at : ℕ
  pub updated_at : ℕ

abbrev pub secrets : Model Secret
secrets = record { id = λ x. x.id; stamp = λ t x. record x { updated_at = t } }

pub record Crypto : Type 1 where
  pub Block : Type 0
  pub Gcm : Type 0
  pub new_cipher : Text → Outcome Text Block
  pub new_gcm : Block → Outcome Text Gcm
  pub seal : Gcm → Text → Text → Text
  pub open_sealed : Gcm → Text → Text → Outcome Text Text
  pub argon2_id_key : Text → Text → Text
  pub hex_encode : Text → Text
  pub hex_decode : Text → Outcome Text Text
  pub base64_encode : Text → Text
  pub base64_decode : Text → Outcome Text Text
  -- The bytes that the decoders return, also beside an error.
  pub hex_bytes : Text → Text
  pub base64_bytes : Text → Text

-- What is sealed can be opened with the same cipher and nonce, and what is encoded can be decoded.
module _ (c : Crypto) where
  open c use {
    Block, Gcm, new_cipher, new_gcm, seal, open_sealed, argon2_id_key, hex_encode, hex_decode,
    base64_encode, base64_decode,
  }

  pub record Lawful : Type 0 where
    pub open-seal :
        (g : Gcm) (nonce plain : Text) → open_sealed g nonce (seal g nonce plain) ≡ ok plain
    pub hex_decode-encode : (t : Text) → hex_decode (hex_encode t) ≡ ok t
    pub base64_decode-encode : (t : Text) → base64_decode (base64_encode t) ≡ ok t

-- `keyDeriver` is nil in a vault that is not made by `NewVault`.
pub record Vault : Type 0 where
  pub master_key : Text
  pub key_deriver : Option (Text → Text → Text)

abbrev pub fixed_salt : Text
fixed_salt = codes "web3airdropos-vault-salt"

module _ (c : Crypto) where
  open c use {new_cipher, new_gcm, seal, open_sealed, argon2_id_key, hex_decode}

  -- A master key of 32 bytes in hexadecimal is taken as it is, any other text is a password.
  abbrev pub master_key_of : Text → Outcome Text Text → Text
  master_key_of text (err e) = argon2_id_key text fixed_salt
  master_key_of text (ok key) = if length key == 32 then key else argon2_id_key text fixed_salt

  unfoldable pub new_vault : Text → Vault
  new_vault text = record {
    master_key = master_key_of text (hex_decode text);
    key_deriver = some argon2_id_key;
  }

  abbrev pub with_gcm : {A : Type 0} → Outcome Text A → (A → Outcome Text Text) → Outcome Text Text
  with_gcm (err e) f = err e
  with_gcm (ok a) f = f a

  unfoldable pub encrypt : Text → Text → Text → Outcome Text Text
  encrypt plain key nonce =
      with_gcm (new_cipher key) (λ block. with_gcm (new_gcm block) (λ g. ok (seal g nonce plain)))

  unfoldable pub decrypt : Text → Text → Text → Outcome Text Text
  decrypt sealed key nonce =
      with_gcm (new_cipher key)
        (λ block. with_gcm (new_gcm block) (λ g. open_sealed g nonce sealed))

abbrev pub derived : Option (Text → Text → Text) → Text → Text → Outcome Error Text
derived none key salt = err nil_call
derived (some f) key salt = ok (f key salt)

unfoldable pub derive_secret_key : Vault → Text → Text → Outcome Error Text
derive_secret_key v user_id name = derived v.key_deriver v.master_key (user_id ++ name)
