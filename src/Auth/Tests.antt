-- ===== src/Auth/Tests.antt =====
-- A login, a refresh and a logout on tables in memory.
use web3airdrop_os.Base.{ℕ, ◌*◌, ◌≡◌, refl, true, none, [], ◌∷◌, arith, Outcome, ok, err}
use web3airdrop_os.Base.Text.{Text, codes, text_eq, text_lt, take, drop}
use web3airdrop_os.Gorm as Gorm
use web3airdrop_os.Gorm.{Table}
use web3airdrop_os.Gorm.Memory.{Rows, table, table-Lawful}
use web3airdrop_os.Auth.Records.{
  Error, invalid_token, token_family_compromised, token_type_access, token_type_refresh, Claims,
  RefreshTokenClaims, RefreshToken, TokenPair, User, LoginRequest, AuthResponse, AuthService,
  second, hash_token, new_auth_service, refresh_tokens, users,
}
use web3airdrop_os.Auth.Tokens.{
  Origin, access_claims, refresh_claims, stored_token, generate_token_pair_with_family,
  validate_access_token, read_refresh_token,
}
use web3airdrop_os.Auth.Accounts.{login, generate_token_pair}
use web3airdrop_os.Auth.Sessions.{Clock, refresh_token, logout}
use web3airdrop_os.Auth.Plain.{plain, plain-Lawful, split}
use web3airdrop_os.Auth.Validity.{login_reads_back}
use web3airdrop_os.Auth.Replay.{replay_revokes_family}
use web3airdrop_os.Auth.Logout.{logout_leaves_access}

abbrev people : Table User
people = table users (λ t r. refl)

abbrev tokens : Table RefreshToken
tokens = table refresh_tokens (λ t r. refl)

abbrev tokens-Lawful : Gorm.Lawful refresh_tokens tokens
tokens-Lawful = table-Lawful refresh_tokens (λ t r. refl)

abbrev service : AuthService
service = new_auth_service (codes "s")

abbrev ann : User
ann = record {
  id = codes "1";
  email = codes "a";
  password_hash = codes "p";
  name = codes "ann";
  settings = [];
  open_ai_key = [];
  is_active = true;
  last_login_at = none;
  created_at = 0;
  updated_at = 0;
}

abbrev start : Rows users (λ t r. refl) × Rows refresh_tokens (λ t r. refl)
start = ((ann ∷ [], (tt, tt)), ([], tt))

abbrev request : LoginRequest
request = record { email = codes "a"; password = codes "p" }

abbrev origin : Text → Origin
origin session_id = record {
  ip_address = codes "h";
  user_agent = [];
  family_id = codes "f";
  session_id = session_id;
}

abbrev clock : ℕ → Clock
clock t = record { parsed_at = t; checked_at = t; revoked_at = t; issued_at = t }

abbrev no_pair : TokenPair
no_pair = record { access_token = []; refresh_token = []; expires_at = 0; token_type = [] }

abbrev answer : Outcome Error AuthResponse → AuthResponse
answer (ok x) = x
answer (err e) = record { user = ann; tokens = no_pair }

abbrev pair_of : Outcome Error TokenPair → TokenPair
pair_of (ok x) = x
pair_of (err e) = no_pair

abbrev logging_in :
    (Rows users (λ t r. refl) × Rows refresh_tokens (λ t r. refl)) × Outcome Error AuthResponse
logging_in = login plain people tokens service request (origin (codes "7")) second second start

abbrev opened : Rows users (λ t r. refl) × Rows refresh_tokens (λ t r. refl)
opened = logging_in.0

abbrev ann_in : AuthResponse
ann_in = answer logging_in.1

login_reads_back_example :
    ((claims : Claims) × (validate_access_token plain service ann_in.tokens.access_token
          (2 * second)
        ≡ ok claims)
      × (claims.user_id ≡ ann_in.user.id)
      × (claims.email ≡ ann_in.user.email))
    × (validate_access_token plain service ann_in.tokens.refresh_token second ≡ err invalid_token)
    × (refresh_token plain people tokens service ann_in.tokens.access_token
          (origin (codes "8"))
          (clock second)
          opened
        ≡ (opened, err invalid_token))
unfolding login generate_token_pair generate_token_pair_with_family access_claims refresh_claims
    stored_token hash_token token_type_access token_type_refresh new_auth_service text_eq text_lt
login_reads_back_example =
    login_reads_back plain plain-Lawful people tokens service request (origin (codes "7"))
      (origin (codes "8")) second second (2 * second) second (clock second) start opened opened
      ann_in refl (omega arith) (omega arith)

abbrev token : Text
token = ann_in.tokens.refresh_token

abbrev refreshing :
    (Rows users (λ t r. refl) × Rows refresh_tokens (λ t r. refl)) × Outcome Error TokenPair
refreshing =
    refresh_token plain people tokens service token (origin (codes "8")) (clock (2 * second)) opened

abbrev refreshed : Rows users (λ t r. refl) × Rows refresh_tokens (λ t r. refl)
refreshed = refreshing.0

abbrev renewed : TokenPair
renewed = pair_of refreshing.1

abbrev claims : RefreshTokenClaims
claims = refresh_claims service ann (codes "f") (codes "7") second

replay_revokes_family_example :
    let (s, reply) =
      refresh_token plain people tokens service token
        (origin (codes "9"))
        (clock (3 * second))
        refreshed in
    (reply ≡ err token_family_compromised)
    × ((refresh_token plain people tokens service renewed.refresh_token
          (origin (codes "9"))
          (clock (4 * second))
          s).1
        ≡ err token_family_compromised)
unfolding login generate_token_pair generate_token_pair_with_family access_claims refresh_claims
    stored_token hash_token token_type_access token_type_refresh new_auth_service text_eq text_lt
    refresh_token read_refresh_token split take drop
replay_revokes_family_example =
    replay_revokes_family plain people tokens tokens-Lawful plain-Lawful service token
      (origin (codes "8")) (origin (codes "9")) (origin (codes "9")) (clock (2 * second))
      (clock (3 * second)) (clock (4 * second)) opened refreshed renewed claims refl refl refl
      (omega arith) (omega arith)

abbrev closed : Rows refresh_tokens (λ t r. refl)
closed = (logout plain people tokens ann_in.user.id (2 * second) opened.1).0

logout_leaves_access_example :
    ((refresh_token plain people tokens service token
        (origin (codes "8"))
        (clock (3 * second))
        (opened.0, closed)).1
      ≡ err token_family_compromised)
    × ((claims : Claims) × (validate_access_token plain service ann_in.tokens.access_token
            (3 * second)
          ≡ ok claims)
        × (claims.user_id ≡ ann_in.user.id))
unfolding login generate_token_pair generate_token_pair_with_family access_claims refresh_claims
    stored_token hash_token token_type_access token_type_refresh new_auth_service text_eq text_lt
    logout
logout_leaves_access_example =
    logout_leaves_access plain plain-Lawful people tokens tokens-Lawful service request
      (origin (codes "7")) (origin (codes "8")) second second (2 * second) (3 * second)
      (clock (3 * second)) start opened closed ann_in refl refl refl (omega arith) (omega arith)
      (omega arith) (omega arith)
