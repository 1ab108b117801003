-- ===== src/Auth/Records.antt =====
-- The records of users, tokens and claims, and the libraries that make tokens and hashes
-- (github.com/golang-jwt/jwt, golang.org/x/crypto/bcrypt, crypto/sha256), which are parameters.
use web3airdrop_os.Base.{ℕ, ◌*◌, ◌≤◌, ◌<◌, ◌≡◌, Bool, true, Option, Outcome, ok}
use web3airdrop_os.Base.Text.{Text, codes}
use web3airdrop_os.Gorm.{DbError, Model}

pub data Error : Type 0 where
  invalid_credentials user_not_found email_exists invalid_token token_family_compromised : Error
  hashing_failed signing_failed : Text → Error
  database : DbError → Error

abbrev pub TokenType : Type 0
TokenType = Text

unfoldable pub token_type_access : TokenType
token_type_access = codes "access"

unfoldable pub token_type_refresh : TokenType
token_type_refresh = codes "refresh"

-- Times are nanoseconds since the epoch, those of claims whole seconds.
pub record RegisteredClaims : Type 0 where
  pub subject : Text
  pub expires_at : ℕ
  pub issued_at : ℕ
  pub not_before : ℕ
  pub jti : Text

pub record Claims : Type 0 where
  pub user_id : Text
  pub email : Text
  pub token_type : TokenType
  pub session_id : Text
  pub registered : RegisteredClaims

pub record RefreshTokenClaims : Type 0 where
  pub user_id : Text
  pub token_type : TokenType
  pub family_id : Text
  pub registered : RegisteredClaims

pub record RefreshToken : Type 0 where
  pub id : Text
  pub user_id : Text
  pub token_hash : Text
  pub family_id : Text
  pub expires_at : ℕ
  pub revoked_at : Option ℕ
  pub replaced_by : Option Text
  pub created_at : ℕ
  pub ip_address : Text
  pub user_agent : Text

pub record TokenPair : Type 0 where
  pub access_token : Text
  pub refresh_token : Text
  pub expires_at : ℕ
  pub token_type : Text

-- The related tables, which these operations do not load, are left out. A user that is deleted
-- softly is not among the rows.
pub record User : Type 0 where
  pub id : Text
  pub email : Text
  pub password_hash : Text
  pub name : Text
  pub settings : Text
  pub open_ai_key : Text
  pub is_active : Bool
  pub last_login_at : Option ℕ
  pub created_at : ℕ
  pub updated_at : ℕ

-- A refresh token has no time of its last change.
abbrev pub refresh_tokens : Model RefreshToken
refresh_tokens = record { id = λ x. x.id; stamp = λ t x. x }

abbrev pub users : Model User
users = record { id = λ x. x.id; stamp = λ t x. record x { updated_at = t } }

pub record RegisterRequest : Type 0 where
  pub email : Text
  pub password : Text
  pub name : Text

pub record LoginRequest : Type 0 where
  pub email : Text
  pub password : Text

pub record AuthResponse : Type 0 where
  pub user : User
  pub tokens : TokenPair

pub record AuthService : Type 0 where
  pub jwt_secret : Text
  pub access_token_duration : ℕ
  pub refresh_token_duration : ℕ

abbrev pub second : ℕ
second = 1000000000

unfoldable pub new_auth_service : Text → AuthService
new_auth_service jwt_secret = record {
  jwt_secret = jwt_secret;
  access_token_duration = 15 * 60 * second;
  refresh_token_duration = 7 * 24 * 3600 * second;
}

-- The signature takes the secret, the reading of a token the secret and the time; it fails on a
-- token with another signature, or outside its time. `generate_from_password` takes its salt.
pub record Crypto : Type 0 where
  pub sign_access : Text → Claims → Outcome Text Text
  pub sign_refresh : Text → RefreshTokenClaims → Outcome Text Text
  pub parse_access : Text → ℕ → Text → Outcome Text Claims
  pub parse_refresh : Text → ℕ → Text → Outcome Text RefreshTokenClaims
  pub generate_from_password : Text → Text → Outcome Text Text
  pub compare_hash_and_password : Text → Text → Bool
  pub sha256 : Text → Text
  pub hex_encode : Text → Text

unfoldable pub hash_token : Crypto → Text → Text
hash_token c token = c.hex_encode (c.sha256 token)

abbrev pub IsTimely : RegisteredClaims → ℕ → Type 0
IsTimely r now = (r.not_before * second ≤ now) × (now < r.expires_at * second)

-- A token reads back as its claims while it is valid. As claims of the other kind it has the same
-- fields where their names agree.
module _ (c : Crypto) where
  open c use {
    sign_access, sign_refresh, parse_access, parse_refresh, generate_from_password,
    compare_hash_and_password,
  }

  pub record Lawful : Type 0 where
    pub access_read :
        (secret token : Text) (x : Claims) (now : ℕ)
        → sign_access secret x ≡ ok token
        → IsTimely x.registered now
        → parse_access secret now token ≡ ok x
    pub refresh_read :
        (secret token : Text) (x : RefreshTokenClaims) (now : ℕ)
        → sign_refresh secret x ≡ ok token
        → IsTimely x.registered now
        → parse_refresh secret now token ≡ ok x
    pub refresh_as_access :
        (secret token : Text) (x : RefreshTokenClaims) (now : ℕ) (y : Claims)
        → sign_refresh secret x ≡ ok token
        → parse_access secret now token ≡ ok y
        → y.token_type ≡ x.token_type
    pub access_as_refresh :
        (secret token : Text) (x : Claims) (now : ℕ) (y : RefreshTokenClaims)
        → sign_access secret x ≡ ok token
        → parse_refresh secret now token ≡ ok y
        → y.token_type ≡ x.token_type
    pub password_accepted :
        (salt password hash : Text)
        → generate_from_password salt password ≡ ok hash
        → compare_hash_and_password hash password ≡ true
