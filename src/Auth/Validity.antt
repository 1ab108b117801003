-- ===== src/Auth/Validity.antt =====
-- What tokens read back as, and that one kind does not pass for the other.
use web3airdrop_os.Base.{
  ℕ, ◌+◌, ◌*◌, ◌≤◌, ◌<◌, ◌≡◌, refl, sym, ap, ◌∙◌, false, arith, Outcome, ok, err,
}
use web3airdrop_os.Base.Text.{Text, text_eq, text_eq_self}
use web3airdrop_os.Gorm.{Table}
use web3airdrop_os.Auth.Records.{
  invalid_token, Claims, RefreshToken, TokenPair, User, LoginRequest, AuthResponse, AuthService,
  Crypto, Lawful, second, token_type_access, token_type_refresh, hash_token,
}
use web3airdrop_os.Auth.Tokens.{
  Origin, numeric_date, access_claims, refresh_claims, of_type, validate_access_token,
  read_refresh_token,
}
use web3airdrop_os.Auth.Accounts.{logged_in, login}
use web3airdrop_os.Auth.Sessions.{Clock, rotate, refresh_token, has_hash}
use web3airdrop_os.Auth.Inversion.{IsMade, login-IsLogin}

started : (now t : ℕ) → now ≤ t → numeric_date now * second ≤ t
started now t h = omega arith

unended : (end t : ℕ) → t + second ≤ end → t < numeric_date end * second
unended end t h = omega arith

of_type_refused :
    {A : Type 0} (type_of : A → Text) (expected other : Text) (o : Outcome Text A)
    → ((x : A) → o ≡ ok x → type_of x ≡ other)
    → text_eq other expected ≡ false
    → of_type type_of expected o ≡ err invalid_token
of_type_refused type_of expected other (err e) h apart = refl
of_type_refused type_of expected other (ok x) h apart =
    let wrong : text_eq (type_of x) expected ≡ false =
      ap (λ k. text_eq k expected) (h x refl) ∙ apart in
    rw wrong refl

of_type_kept : {A : Type 0} (type_of : A → Text) (x : A) → of_type type_of (type_of x) (ok x) ≡ ok x
of_type_kept type_of x = let same = text_eq_self (type_of x) in rw same refl

types_apart :
    (text_eq token_type_refresh token_type_access ≡ false)
    × (text_eq token_type_access token_type_refresh ≡ false)
unfolding token_type_access token_type_refresh text_eq
types_apart = (refl, refl)

module _ (c : Crypto) (lawful : Lawful c) where
  module _ (tokens : Table RefreshToken) where
    pub access_read_back :
        (a : AuthService) (user : User) (o : Origin) (family_id : Text) (now t : ℕ)
        (s s' : tokens.Store) (pair : TokenPair) (y : RefreshToken)
        → IsMade c tokens a user o family_id now s s' pair y
        → now ≤ t
        → t + second ≤ now + a.access_token_duration
        → validate_access_token c a pair.access_token t ≡ ok (access_claims a user o.session_id now)
    unfolding validate_access_token access_claims
    access_read_back a user o family_id now t s s' pair y made l m =
        let claims = access_claims a user o.session_id now in
        ap (of_type (λ x. x.token_type) token_type_access) (
          lawful.access_read a.jwt_secret pair.access_token claims t made.access_signed
            (started now t l, unended (now + a.access_token_duration) t m))
        ∙ of_type_kept (λ x. x.token_type) claims

    pub refresh_read_back :
        (a : AuthService) (user : User) (o : Origin) (family_id : Text) (now t : ℕ)
        (s s' : tokens.Store) (pair : TokenPair) (y : RefreshToken)
        → IsMade c tokens a user o family_id now s s' pair y
        → now ≤ t
        → t + second ≤ now + a.refresh_token_duration
        → read_refresh_token c a pair.refresh_token t
          ≡ ok (refresh_claims a user family_id o.session_id now)
    unfolding read_refresh_token refresh_claims
    refresh_read_back a user o family_id now t s s' pair y made l m =
        let claims = refresh_claims a user family_id o.session_id now in
        ap (of_type (λ x. x.token_type) token_type_refresh) (
          lawful.refresh_read a.jwt_secret pair.refresh_token claims t made.refresh_signed
            (started now t l, unended (now + a.refresh_token_duration) t m))
        ∙ of_type_kept (λ x. x.token_type) claims

    pub refresh_is_no_access :
        (a : AuthService) (user : User) (o : Origin) (family_id : Text) (now t : ℕ)
        (s s' : tokens.Store) (pair : TokenPair) (y : RefreshToken)
        → IsMade c tokens a user o family_id now s s' pair y
        → validate_access_token c a pair.refresh_token t ≡ err invalid_token
    unfolding validate_access_token refresh_claims
    refresh_is_no_access a user o family_id now t s s' pair y made =
        of_type_refused (λ x. x.token_type) token_type_access token_type_refresh _
          (λ x h.
            lawful.refresh_as_access a.jwt_secret pair.refresh_token
              (refresh_claims a user family_id o.session_id now) t x made.refresh_signed h)
          types_apart.0

    pub access_is_no_refresh :
        (a : AuthService) (user : User) (o : Origin) (family_id : Text) (now t : ℕ)
        (s s' : tokens.Store) (pair : TokenPair) (y : RefreshToken)
        → IsMade c tokens a user o family_id now s s' pair y
        → read_refresh_token c a pair.access_token t ≡ err invalid_token
    unfolding read_refresh_token access_claims
    access_is_no_refresh a user o family_id now t s s' pair y made =
        of_type_refused (λ x. x.token_type) token_type_refresh token_type_access _
          (λ x h.
            lawful.access_as_refresh a.jwt_secret pair.access_token
              (access_claims a user o.session_id now) t x made.access_signed h)
          types_apart.1

  -- The access token of a login reads back, until a second before its end, as claims of the user and
  -- email of the answer. The refresh token never passes for an access token, and a refresh with the
  -- access token is refused and changes nothing.
  pub login_reads_back :
      (people : Table User) (tokens : Table RefreshToken) (a : AuthService) (request : LoginRequest)
      (o o' : Origin) (at now t t' : ℕ) (clock : Clock) (s s' s'' : people.Store × tokens.Store)
      (x : AuthResponse)
      → login c people tokens a request o at now s ≡ (s', ok x)
      → now ≤ t
      → t + second ≤ now + a.access_token_duration
      → ((claims : Claims) × (validate_access_token c a x.tokens.access_token t ≡ ok claims)
          × (claims.user_id ≡ x.user.id)
          × (claims.email ≡ x.user.email))
        × (validate_access_token c a x.tokens.refresh_token t' ≡ err invalid_token)
        × (refresh_token c people tokens a x.tokens.access_token o' clock s''
            ≡ (s'', err invalid_token))
  unfolding refresh_token access_claims
  login_reads_back people tokens a request o o' at now t t' clock s s' s'' x h l m =
      let (user, (y, is_login)) = login-IsLogin c people tokens a request o at now s s' x h in
      let made = is_login.made in
      let user' = logged_in at user in
      (
        (
          access_claims a user' o.session_id now,
          access_read_back tokens a user' o o.family_id now t s.1 s'.1 x.tokens y made l m,
          sym is_login.is_user,
          sym is_login.is_email,
        ),
        refresh_is_no_access tokens a user' o o.family_id now t' s.1 s'.1 x.tokens y made,
        ap
            (λ r.
              rotate c people tokens a o' clock r
                (tokens.first (has_hash (hash_token c x.tokens.access_token)) s''.1) s'')
            (access_is_no_refresh tokens a user' o o.family_id now clock.parsed_at s.1 s'.1 x.tokens
              y made),
      )
