-- ===== src/Auth/Tokens.antt =====
-- How a pair of tokens is made, and how an access token is checked.
use web3airdrop_os.Base.{
  ℕ, ◌+◌, ◌/◌, Option, none, [], some, Outcome, ok, err, Call, map_err, if◌then◌else◌,
}
use web3airdrop_os.Base.Text.{Text, codes, text_eq}
use web3airdrop_os.Gorm.{DbError, Table}
use web3airdrop_os.Auth.Records.{
  Error, invalid_token, signing_failed, database, token_type_access, token_type_refresh, Claims,
  RefreshTokenClaims, RefreshToken, TokenPair, User, AuthService, second, Crypto, hash_token,
}

-- What the request says of its sender, and the identifiers that are drawn.
pub record Origin : Type 0 where
  pub ip_address : Text
  pub user_agent : Text
  pub family_id : Text
  pub session_id : Text

-- Claims hold whole seconds.
abbrev pub numeric_date : ℕ → ℕ
numeric_date t = t / second

unfoldable pub access_claims : AuthService → User → Text → ℕ → Claims
access_claims a user session_id now = record {
  user_id = user.id;
  email = user.email;
  token_type = token_type_access;
  session_id = session_id;
  registered = record {
    subject = user.id;
    expires_at = numeric_date (now + a.access_token_duration);
    issued_at = numeric_date now;
    not_before = numeric_date now;
    jti = [];
  };
}

unfoldable pub refresh_claims : AuthService → User → Text → Text → ℕ → RefreshTokenClaims
refresh_claims a user family_id session_id now = record {
  user_id = user.id;
  token_type = token_type_refresh;
  family_id = family_id;
  registered = record {
    subject = user.id;
    expires_at = numeric_date (now + a.refresh_token_duration);
    issued_at = numeric_date now;
    not_before = numeric_date now;
    jti = session_id;
  };
}

unfoldable pub stored_token :
    Crypto → AuthService → User → Text → Text → Text → Text → ℕ → Text → RefreshToken
stored_token c a user family_id ip_address user_agent session_id now token = record {
  id = session_id;
  user_id = user.id;
  token_hash = hash_token c token;
  family_id = family_id;
  expires_at = now + a.refresh_token_duration;
  revoked_at = none;
  replaced_by = none;
  created_at = now;
  ip_address = ip_address;
  user_agent = user_agent;
}

abbrev pub token_pair : AuthService → ℕ → Text → Text → TokenPair
token_pair a now access_token refresh_token = record {
  access_token = access_token;
  refresh_token = refresh_token;
  expires_at = now + a.access_token_duration;
  token_type = codes "Bearer";
}

abbrev pub of_type : {A : Type 0} → (A → Text) → Text → Outcome Text A → Outcome Error A
of_type type_of expected (err e) = err invalid_token
of_type type_of expected (ok x) = if text_eq (type_of x) expected then ok x else err invalid_token

module _ (c : Crypto) where
  open c use {sign_access, sign_refresh, parse_access, parse_refresh}

  unfoldable pub validate_access_token : AuthService → Text → ℕ → Outcome Error Claims
  validate_access_token a token now =
      of_type (λ x. x.token_type) token_type_access (parse_access a.jwt_secret now token)

  -- The claims of a refresh token that `RefreshToken` goes on with.
  unfoldable pub read_refresh_token : AuthService → Text → ℕ → Outcome Error RefreshTokenClaims
  read_refresh_token a token now =
      of_type (λ x. x.token_type) token_type_refresh (parse_refresh a.jwt_secret now token)

  module _ (tokens : Table RefreshToken) where
    open tokens use {Store, create}

    abbrev pub stored :
        TokenPair
        → RefreshToken
        → Store × Option DbError
        → Store × Outcome Error (TokenPair × RefreshToken)
    stored pair x (s, none) = (s, ok (pair, x))
    stored pair x (s, some e) = (s, err (database e))

    abbrev pub signed : Outcome Text Text → Outcome Error Text
    signed = map_err signing_failed

    abbrev pub store_signed :
        (Text → Text → TokenPair)
        → (Text → RefreshToken)
        → Outcome Error Text
        → Outcome Error Text
        → Call Store Error (TokenPair × RefreshToken)
    store_signed pair row (err e) o s = (s, err e)
    store_signed pair row (ok access) (err e) s = (s, err e)
    store_signed pair row (ok access) (ok refresh) s =
        stored (pair access refresh) (row refresh) (create (row refresh) s)

    unfoldable pub generate_token_pair_with_family :
        AuthService
        → User
        → Text
        → Text
        → Text
        → Text
        → ℕ
        → Call Store Error (TokenPair × RefreshToken)
    generate_token_pair_with_family a user family_id ip_address user_agent session_id now =
        store_signed (token_pair a now)
          (stored_token c a user family_id ip_address user_agent session_id now)
          (signed (sign_access a.jwt_secret (access_claims a user session_id now)))
          (signed (sign_refresh a.jwt_secret (refresh_claims a user family_id session_id now)))
