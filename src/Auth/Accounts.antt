-- ===== src/Auth/Accounts.antt =====
-- Register and Login, on the tables of users and refresh tokens.
use web3airdrop_os.Base.{
  ℕ, Bool, true, ◌&&◌, Option, none, some, [], Outcome, ok, err, Call, map_err, if◌then◌else◌,
}
use web3airdrop_os.Base.Text.{Text, text_eq}
use web3airdrop_os.Gorm.{DbError, Table}
use web3airdrop_os.Auth.Records.{
  Error, invalid_credentials, email_exists, hashing_failed, database, RefreshToken, TokenPair, User,
  RegisterRequest, LoginRequest, AuthResponse, AuthService, Crypto,
}
use web3airdrop_os.Auth.Tokens.{Origin, generate_token_pair_with_family}

abbrev pub has_email : Text → User → Bool
has_email email x = text_eq x.email email

abbrev pub is_user : Text → User → Bool
is_user id x = text_eq x.id id

abbrev pub vacant : {A : Type 0} → Outcome DbError A → Outcome Error (Unit {0})
vacant (ok x) = err email_exists
vacant (err e) = ok tt

abbrev pub new_user : Text → RegisterRequest → Text → ℕ → User
new_user id request hash now = record {
  id = id;
  email = request.email;
  password_hash = hash;
  name = request.name;
  settings = [];
  open_ai_key = [];
  is_active = true;
  last_login_at = none;
  created_at = now;
  updated_at = now;
}

abbrev pub response : User → TokenPair → AuthResponse
response user pair = record { user = record user { password_hash = [] }; tokens = pair }

-- GORM writes a changed column also to the record at hand.
abbrev pub logged_in : ℕ → User → User
logged_in now user = record user { last_login_at = some now; updated_at = now }

module _ (c : Crypto) (people : Table User) (tokens : Table RefreshToken) where
  abbrev pub Store : Type 0
  Store = people.Store × tokens.Store

  unfoldable pub generate_token_pair :
      AuthService → User → Origin → ℕ → Call tokens.Store Error (TokenPair × RefreshToken)
  generate_token_pair a user o now =
      generate_token_pair_with_family c tokens a user o.family_id o.ip_address o.user_agent
        o.session_id now

  abbrev pub answered :
      User
      → people.Store
      → tokens.Store × Outcome Error (TokenPair × RefreshToken)
      → Store × Outcome Error AuthResponse
  answered user u (t, err e) = ((u, t), err e)
  answered user u (t, ok (pair, x)) = ((u, t), ok (response user pair))

  abbrev pub register_created :
      AuthService
      → User
      → Origin
      → ℕ
      → people.Store × Option DbError
      → tokens.Store
      → Store × Outcome Error AuthResponse
  register_created a user o now (u, some e) t = ((u, t), err (database e))
  register_created a user o now (u, none) t = answered user u (generate_token_pair a user o now t)

  abbrev pub register_hashed :
      AuthService
      → (Text → User)
      → Origin
      → ℕ
      → Outcome Error (Unit {0})
      → Outcome Error Text
      → Call Store Error AuthResponse
  register_hashed a user o now (err e) hash s = (s, err e)
  register_hashed a user o now (ok _) (err e) s = (s, err e)
  register_hashed a user o now (ok _) (ok hash) s =
      register_created a (user hash) o now (people.create (user hash) s.0) s.1

  unfoldable pub register :
      AuthService → RegisterRequest → Text → Text → Origin → ℕ → ℕ → Call Store Error AuthResponse
  register a request salt user_id o created_at now s =
      register_hashed a (λ hash. new_user user_id request hash created_at) o now
        (vacant (people.first (has_email request.email) s.0))
        (map_err hashing_failed (c.generate_from_password salt request.password)) s

  -- The three checks of a login have one error.
  abbrev pub authenticated : Text → Outcome DbError User → Outcome Error User
  authenticated password (err e) = err invalid_credentials
  authenticated password (ok user) =
      if user.is_active && c.compare_hash_and_password user.password_hash password
      then ok user
      else err invalid_credentials

  abbrev pub set_last_login : Text → ℕ → people.Store → people.Store
  set_last_login id now u =
      (people.update (is_user id) (λ x. record x { last_login_at = some now }) u).0

  abbrev pub login_authenticated :
      AuthService → Origin → ℕ → ℕ → Outcome Error User → Call Store Error AuthResponse
  login_authenticated a o logged_in_at now (err e) s = (s, err e)
  login_authenticated a o logged_in_at now (ok user) s =
      let user' = logged_in logged_in_at user in
      answered user' (set_last_login user.id logged_in_at s.0)
        (generate_token_pair a user' o now s.1)

  unfoldable pub login : AuthService → LoginRequest → Origin → ℕ → ℕ → Call Store Error AuthResponse
  login a request o logged_in_at now s =
      login_authenticated a o logged_in_at now
        (authenticated request.password (people.first (has_email request.email) s.0)) s
