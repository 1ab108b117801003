-- ===== src/Auth/Inversion.antt =====
-- What a successful login has done.
use web3airdrop_os.Base.{
  ℕ, ◌≡◌, refl, sym, ap, ◌∙◌, Bool, true, false, Option, none, some, Outcome, ok, err, map_err_ok,
  Outcome-cases, inl, inr, if◌then◌else◌, subst,
}
use web3airdrop_os.Base.Text.{Text}
use web3airdrop_os.Gorm.{DbError, Table}
use web3airdrop_os.Auth.Records.{
  Error, invalid_credentials, signing_failed, RefreshToken, TokenPair, User, LoginRequest,
  AuthResponse, AuthService, Crypto,
}
use web3airdrop_os.Auth.Tokens.{
  Origin, access_claims, refresh_claims, stored_token, token_pair, stored, store_signed,
  generate_token_pair_with_family,
}
use web3airdrop_os.Auth.Accounts.{
  has_email, response, logged_in, answered, authenticated, set_last_login, login_authenticated,
  login, generate_token_pair,
}

pub if_ok : (b : Bool) (x y : User) (e : Error) → (if b then ok x else err e) ≡ ok y → x ≡ y
if_ok true x y e h = cc
if_ok false x y e h = cc

module _ (c : Crypto) (tokens : Table RefreshToken) where
  -- The pair holds the signed claims, and the table is given the row of the refresh token.
  pub record IsMade (a : AuthService) (user : User) (o : Origin) (family_id : Text) (now : ℕ)
      (t t' : tokens.Store) (pair : TokenPair) (y : RefreshToken) : Type 0 where
    pub access_signed :
        c.sign_access a.jwt_secret (access_claims a user o.session_id now) ≡ ok pair.access_token
    pub refresh_signed :
        c.sign_refresh a.jwt_secret (refresh_claims a user family_id o.session_id now)
        ≡ ok pair.refresh_token
    pub is_row :
        y
        ≡ stored_token c a user family_id o.ip_address o.user_agent o.session_id now
            pair.refresh_token
    pub accepted : (tokens.create y t).1 ≡ none
    pub is_after : (tokens.create y t).0 ≡ t'

  stored_ok :
      (pair pair' : TokenPair) (x y : RefreshToken) (r : tokens.Store × Option DbError)
      (t' : tokens.Store)
      → stored c tokens pair x r ≡ (t', ok (pair', y))
      → (r.1 ≡ none) × (r.0 ≡ t') × (pair ≡ pair') × (x ≡ y)
  stored_ok pair pair' x y (t, none) t' h = (refl, cc, cc, cc)
  stored_ok pair pair' x y (t, some e) t' h = cc

  store_signed_ok :
      (make : Text → Text → TokenPair) (row : Text → RefreshToken) (o o' : Outcome Error Text)
      (t t' : tokens.Store) (pair : TokenPair) (y : RefreshToken)
      → store_signed c tokens make row o o' t ≡ (t', ok (pair, y))
      → (access : Text) × ((refresh : Text) × (o ≡ ok access)
          × (o' ≡ ok refresh)
          × (make access refresh ≡ pair)
          × (row refresh ≡ y)
          × ((tokens.create y t).1 ≡ none)
          × ((tokens.create y t).0 ≡ t'))
  store_signed_ok make row (err e) o' t t' pair y h = cc
  store_signed_ok make row (ok access) (err e) t t' pair y h = cc
  store_signed_ok make row (ok access) (ok refresh) t t' pair y h =
      let (accepted, is_after, is_pair, is_row) =
        stored_ok (make access refresh) pair (row refresh) y (tokens.create (row refresh) t) t' h in
      (
        access,
        (
          refresh,
          refl,
          refl,
          is_pair,
          is_row,
          subst (λ x. (tokens.create x t).1 ≡ none) is_row accepted,
          subst (λ x. (tokens.create x t).0 ≡ t') is_row is_after,
        ),
      )

  pub generate-IsMade :
      (a : AuthService) (user : User) (o : Origin) (family_id : Text) (now : ℕ)
      (t t' : tokens.Store) (pair : TokenPair) (y : RefreshToken)
      → generate_token_pair_with_family c tokens a user family_id o.ip_address o.user_agent
          o.session_id now t
        ≡ (t', ok (pair, y))
      → IsMade a user o family_id now t t' pair y
  unfolding generate_token_pair_with_family
  generate-IsMade a user o family_id now t t' pair y h =
      let (access, (refresh, signed, signed', is_pair, is_row, accepted, is_after)) =
        store_signed_ok (token_pair a now)
          (stored_token c a user family_id o.ip_address o.user_agent o.session_id now) _ _ t t' pair
          y h in
      let is_access : access ≡ pair.access_token = ap (λ p. p.access_token) is_pair in
      let is_refresh : refresh ≡ pair.refresh_token = ap (λ p. p.refresh_token) is_pair in
      record {
        access_signed = map_err_ok signing_failed _ access signed ∙ ap ok is_access;
        refresh_signed = map_err_ok signing_failed _ refresh signed' ∙ ap ok is_refresh;
        is_row =
            sym is_row
            ∙ ap (stored_token c a user family_id o.ip_address o.user_agent o.session_id now)
                is_refresh;
        accepted = accepted;
        is_after = is_after;
      }

module _ (c : Crypto) (people : Table User) (tokens : Table RefreshToken) where
  abbrev Stores : Type 0
  Stores = people.Store × tokens.Store

  answered_ok :
      (user : User) (u : people.Store) (r : tokens.Store × Outcome Error (TokenPair × RefreshToken))
      (s' : Stores) (x : AuthResponse)
      → answered c people tokens user u r ≡ (s', ok x)
      → (pair : TokenPair) × ((y : RefreshToken) × (r ≡ (s'.1, ok (pair, y)))
          × (response user pair ≡ x)
          × (u ≡ s'.0))
  answered_ok user u (t, err e) s' x h = cc
  answered_ok user u (t, ok (pair, y)) s' x h = (pair, (y, cc, cc, cc))

  authenticated_ok :
      (password : Text) (o : Outcome DbError User) (user : User)
      → authenticated c people tokens password o ≡ ok user
      → o ≡ ok user
  authenticated_ok password (err e) user h = cc
  authenticated_ok password (ok x) user h = ap ok (if_ok _ x user invalid_credentials h)

  -- A login gives tokens for the user of the request's email, whose password is accepted.
  pub record IsLogin (a : AuthService) (request : LoginRequest) (o : Origin) (at now : ℕ)
      (s s' : Stores) (x : AuthResponse) (user : User) (y : RefreshToken) : Type 0 where
    pub found : people.first (has_email request.email) s.0 ≡ ok user
    pub is_user : x.user.id ≡ user.id
    pub is_email : x.user.email ≡ user.email
    pub made : IsMade c tokens a (logged_in at user) o o.family_id now s.1 s'.1 x.tokens y

  pub login-IsLogin :
      (a : AuthService) (request : LoginRequest) (o : Origin) (at now : ℕ) (s s' : Stores)
      (x : AuthResponse)
      → login c people tokens a request o at now s ≡ (s', ok x)
      → (user : User) × ((y : RefreshToken) × IsLogin a request o at now s s' x user y)
  unfolding login generate_token_pair
  login-IsLogin a request o at now s s' x h =
      let reply = people.first (has_email request.email) s.0 in
      elim (Outcome-cases (authenticated c people tokens request.password reply)) [
        | inr (e, wrong) ↦
            let clash : err e ≡ ok x =
              ap (λ r. (login_authenticated c people tokens a o at now r s).1) (sym wrong)
              ∙ ap (λ r. r.1) h in
            cc
        | inl (user, fine) ↦
            let h' : login_authenticated c people tokens a o at now (ok user) s ≡ (s', ok x) =
              ap (λ r. login_authenticated c people tokens a o at now r s) (sym fine) ∙ h in
            let user' = logged_in at user in
            let (pair, (y, made, is_x, _)) =
              answered_ok user' (set_last_login c people tokens user.id at s.0)
                (generate_token_pair c people tokens a user' o now s.1) s' x h' in
            (
              user,
              (
                y,
                record {
                  found = authenticated_ok request.password reply user fine;
                  is_user = ap (λ z. z.user.id) (sym is_x);
                  is_email = ap (λ z. z.user.email) (sym is_x);
                  made =
                      subst (λ p. IsMade c tokens a user' o o.family_id now s.1 s'.1 p y)
                        (ap (λ z. z.tokens) is_x)
                        (generate-IsMade c tokens a user' o o.family_id now s.1 s'.1 pair y made);
                },
              ),
            )
      ]
