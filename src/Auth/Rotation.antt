-- ===== src/Auth/Rotation.antt =====
-- What a successful refresh has done.
use web3airdrop_os.Base.{ℕ, ◌≡◌, refl, ap, Option, none, some, Outcome, ok, err}
use web3airdrop_os.Base.Text.{Text}
use web3airdrop_os.Gorm.{DbError, Table}
use web3airdrop_os.Auth.Records.{
  Error, invalid_credentials, RefreshTokenClaims, RefreshToken, TokenPair, User, AuthService,
  Crypto, hash_token,
}
use web3airdrop_os.Auth.Tokens.{Origin, read_refresh_token, generate_token_pair_with_family}
use web3airdrop_os.Auth.Accounts.{is_user}
use web3airdrop_os.Auth.Sessions.{
  has_hash, current, Clock, replace_token, rotated, active, rotate_found, rotate, refresh_token,
}
use web3airdrop_os.Auth.Inversion.{IsMade, generate-IsMade, if_ok}

module _ (c : Crypto) (people : Table User) (tokens : Table RefreshToken) where
  abbrev Stores : Type 0
  Stores = people.Store × tokens.Store

  replace_token_ok :
      (now : ℕ) (x : RefreshToken) (u : people.Store)
      (r : tokens.Store × Outcome Error (TokenPair × RefreshToken)) (s' : Stores) (pair : TokenPair)
      → replace_token c people tokens now x u r ≡ (s', ok pair)
      → (t : tokens.Store) × ((y : RefreshToken) × (r ≡ (t, ok (pair, y)))
          × ((tokens.save (rotated c people tokens now y.id x) t).0 ≡ s'.1)
          × (u ≡ s'.0))
  replace_token_ok now x u (t, err e) s' pair h = cc
  replace_token_ok now x u (t, ok (pair', y)) s' pair h =
      (t, (y, cc, ap (λ r. r.0.1) h, ap (λ r. r.0.0) h))

  active_ok :
      (o : Outcome DbError User) (user : User) → active c people tokens o ≡ ok user → o ≡ ok user
  active_ok (err e) user h = cc
  active_ok (ok x) user h = ap ok (if_ok x.is_active x user invalid_credentials h)

  -- A refresh spends a stored, unrevoked token of the hash, and makes a pair of its family.
  pub record IsRotation (a : AuthService) (token : Text) (o : Origin) (clock : Clock)
      (s s' : Stores) (pair : TokenPair) (claims : RefreshTokenClaims) (x y : RefreshToken)
      (user : User) (t : tokens.Store) : Type 0 where
    pub read : read_refresh_token c a token clock.parsed_at ≡ ok claims
    pub found : tokens.first (has_hash (hash_token c token)) s.1 ≡ ok x
    pub live : x.revoked_at ≡ none
    pub known : people.first (is_user claims.user_id) s.0 ≡ ok user
    pub made : IsMade c tokens a user o x.family_id clock.issued_at s.1 t pair y
    pub spent : (tokens.save (rotated c people tokens clock.revoked_at y.id x) t).0 ≡ s'.1

  rotate_found_ok :
      (a : AuthService) (o : Origin) (clock : Clock) (x : RefreshToken) (at : Option ℕ)
      (fresh : Outcome Error (Unit {0})) (owner : Outcome Error User) (s s' : Stores)
      (pair : TokenPair)
      → rotate_found c people tokens a o clock x at fresh owner s ≡ (s', ok pair)
      → (at ≡ none)
        × ((user : User) × (owner ≡ ok user)
            × ((t : tokens.Store) × ((y : RefreshToken) × IsMade c tokens a user o x.family_id
                    clock.issued_at s.1 t pair y
                  × ((tokens.save (rotated c people tokens clock.revoked_at y.id x) t).0 ≡ s'.1))))
  rotate_found_ok a o clock x (some at) fresh owner s s' pair h = cc
  rotate_found_ok a o clock x none (err e) owner s s' pair h = cc
  rotate_found_ok a o clock x none (ok _) (err e) s s' pair h = cc
  rotate_found_ok a o clock x none (ok _) (ok user) s s' pair h =
      let (t, (y, made, spent, _)) =
        replace_token_ok clock.revoked_at x s.0
          (generate_token_pair_with_family c tokens a user x.family_id o.ip_address o.user_agent
            o.session_id clock.issued_at s.1)
          s' pair h in
      (
        refl,
        (
          user,
          refl,
          (
            t,
            (
              y,
              generate-IsMade c tokens a user o x.family_id clock.issued_at s.1 t pair y made,
              spent,
            ),
          ),
        ),
      )

  rotate_ok :
      (a : AuthService) (o : Origin) (clock : Clock) (r : Outcome Error RefreshTokenClaims)
      (row : Outcome DbError RefreshToken) (s s' : Stores) (pair : TokenPair)
      → rotate c people tokens a o clock r row s ≡ (s', ok pair)
      → (claims : RefreshTokenClaims) × ((x : RefreshToken) × (r ≡ ok claims)
          × (row ≡ ok x)
          × (rotate_found c people tokens a o clock x x.revoked_at
                (current clock.checked_at x.expires_at)
                (active c people tokens (people.first (is_user claims.user_id) s.0))
                s
              ≡ (s', ok pair)))
  rotate_ok a o clock (err e) row s s' pair h = cc
  rotate_ok a o clock (ok claims) (err e) s s' pair h = cc
  rotate_ok a o clock (ok claims) (ok x) s s' pair h = (claims, (x, refl, refl, h))

  pub refresh_token-IsRotation :
      (a : AuthService) (token : Text) (o : Origin) (clock : Clock) (s s' : Stores)
      (pair : TokenPair)
      → refresh_token c people tokens a token o clock s ≡ (s', ok pair)
      → (claims : RefreshTokenClaims) × ((x : RefreshToken) × ((y : RefreshToken) × ((user : User)
              × ((t : tokens.Store) × IsRotation a token o clock s s' pair claims x y user t))))
  unfolding refresh_token
  refresh_token-IsRotation a token o clock s s' pair h =
      let (claims, (x, read, found, h')) = rotate_ok a o clock _ _ s s' pair h in
      let (live, (user, known, (t, (y, made, spent)))) =
        rotate_found_ok a o clock x x.revoked_at _ _ s s' pair h' in
      (
        claims,
        (
          x,
          (
            y,
            (
              user,
              (
                t,
                record {
                  read = read;
                  found = found;
                  live = live;
                  known = active_ok _ user known;
                  made = made;
                  spent = spent;
                },
              ),
            ),
          ),
        ),
      )
