-- ===== src/Vault/Tests.antt =====
-- A secret's life in a table in memory.
use web3airdrop_os.Base.{
  ℕ, ◌≡◌, ◌⊎◌, refl, Bool, true, false, none, List, [], ◌∷◌, ◌++◌, arith, Outcome, ok, err, keep,
  length, All, ◌&&◌,
}
use web3airdrop_os.Base.Text.{Text, codes, text_eq, text_lt}
use web3airdrop_os.Gorm as Gorm
use web3airdrop_os.Gorm.{Table, IsKeyed}
use web3airdrop_os.Gorm.Memory.{Rows, table, table-Lawful}
use web3airdrop_os.Vault.Records as Records
use web3airdrop_os.Vault.Records.{
  SecretType, token, Error, Secret, secrets, Crypto, Vault, new_vault, encrypt, decrypt,
  derive_secret_key, secret_expired,
}
use web3airdrop_os.Vault.Secrets.{
  retrieve, store, update_secret, seal_value, set_expiration, is_of, list_secrets, list_by_type,
}
use web3airdrop_os.Vault.Reads.{reads}
use web3airdrop_os.Vault.Map.{Change, stores, updates, run, change_updates_map}
use web3airdrop_os.Vault.Expiry.{IsHidden, expired_never_read, lists-IsHidden}
use web3airdrop_os.Vault.Rotation.{rotate_key, rotate_key_never_rotates}

-- A cipher that does not hide, with the laws of one that does.
abbrev plain : Crypto
plain = record {
  Block = Text;
  Gcm = Text;
  new_cipher = ok;
  new_gcm = ok;
  seal = λ g nonce value. value;
  open_sealed = λ g nonce sealed. ok sealed;
  argon2_id_key = λ key salt. salt ++ key;
  hex_encode = λ t. t;
  hex_decode = ok;
  base64_encode = λ t. t;
  base64_decode = ok;
  hex_bytes = λ t. t;
  base64_bytes = λ t. t;
}

plain-Lawful : Records.Lawful plain
plain-Lawful = record {
  open-seal = λ g nonce value. refl;
  hex_decode-encode = λ t. refl;
  base64_decode-encode = λ t. refl;
}

abbrev db : Table Secret
db = table secrets (λ t r. refl)

abbrev db-Lawful : Gorm.Lawful secrets db
db-Lawful = table-Lawful secrets (λ t r. refl)

abbrev vault : Vault
vault = new_vault plain (codes "master")

abbrev ann : Text
ann = codes "ann"

abbrev bob : Text
bob = codes "bob"

abbrev name : Text
name = codes "key"

abbrev start : Rows secrets (λ t r. refl)
start = ([], tt)

abbrev nonce : Outcome Text Text
nonce = ok (codes "n")

abbrev storing : Change
storing = stores (codes "v") token none (codes "2")

abbrev stored : Rows secrets (λ t r. refl)
stored = (run plain db vault ann name nonce 5 storing start).0

abbrev changed : Rows secrets (λ t r. refl)
changed = (run plain db vault ann name nonce 6 (updates (codes "w")) stored).0

change_updates_map_example : reads plain db vault 9 ann name changed ≡ ok (codes "w")
unfolding run store update_secret seal_value encrypt derive_secret_key new_vault text_eq text_lt
change_updates_map_example =
    change_updates_map plain plain-Lawful db db-Lawful vault ann name nonce 6 9
      (updates (codes "w")) stored changed refl (refl, tt) ann name

abbrev expiring : Rows secrets (λ t r. refl)
expiring = (set_expiration plain db ann name 7 stored).0

expired_never_read_example :
    retrieve plain db vault ann name 8 expiring ≡ (expiring, err secret_expired)
unfolding run store seal_value encrypt derive_secret_key new_vault set_expiration text_eq text_lt
expired_never_read_example =
    expired_never_read plain db db-Lawful vault ann name 7 8 stored expiring refl (omega arith)

abbrev is_token : SecretType → Bool
is_token token = true
is_token _ = false

lists-IsHidden_example :
    ((xs : List Secret) × (list_secrets plain db ann stored ≡ ok xs)
      × All (IsHidden plain db db-Lawful (is_of ann)) xs
      × (length xs ≡ length (keep (is_of ann) stored.0)))
    × ((xs : List Secret) × (list_by_type plain db ann is_token stored ≡ ok xs)
        × All (IsHidden plain db db-Lawful (λ x. is_of ann x && is_token x.key_type)) xs
        × (length xs ≡ length (keep (λ x. is_of ann x && is_token x.key_type) stored.0)))
lists-IsHidden_example = lists-IsHidden plain db db-Lawful ann is_token stored

abbrev no_draws : ℕ → Outcome Text Text × ℕ
no_draws n = (nonce, n)

rotate_key_never_rotates_example :
    ((x : Secret) × (xs : List Secret) × (keep (is_of ann) stored.0 ≡ x ∷ xs)
      × ((e : Error) × (rotate_key plain db vault ann (codes "k") no_draws stored
            ≡ (stored, (vault, err e)))))
    ⊎ ((keep (is_of ann) stored.0 ≡ [])
        × (rotate_key plain db vault ann (codes "k") no_draws stored
            ≡ (stored, (record vault { master_key = codes "k" }, ok tt))))
rotate_key_never_rotates_example =
    rotate_key_never_rotates plain db db-Lawful vault ann (codes "k") no_draws stored
