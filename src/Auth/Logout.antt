-- ===== src/Auth/Logout.antt =====
-- What a logout ends and what it leaves.
use web3airdrop_os.Base.{ℕ, ◌+◌, ◌≤◌, ◌≡◌, refl, sym, ap, ◌∙◌, true, ◌&&◌, [], ◌∷◌, ok, err, keep}
use web3airdrop_os.Base.Text.{Text, text_eq, text_eq_self}
use web3airdrop_os.Gorm as Gorm
use web3airdrop_os.Gorm.{Table, first_of, changed}
use web3airdrop_os.Gorm.Rows.{keep-changed, changed_one}
use web3airdrop_os.Auth.Records.{
  token_family_compromised, Claims, RefreshToken, User, LoginRequest, AuthResponse, AuthService,
  Crypto, Lawful, second, hash_token, refresh_tokens,
}
use web3airdrop_os.Auth.Tokens.{
  Origin, stored_token, refresh_claims, access_claims, validate_access_token,
}
use web3airdrop_os.Auth.Accounts.{logged_in, login}
use web3airdrop_os.Auth.Sessions.{has_hash, is_live_of, revoked, Clock, refresh_token, logout}
use web3airdrop_os.Auth.Inversion.{login-IsLogin}
use web3airdrop_os.Auth.Validity.{refresh_read_back, access_read_back}
use web3airdrop_os.Auth.Replay.{made_row, spent_refused, updated_state}

module _ (c : Crypto) (lawful : Lawful c) (people : Table User) (tokens : Table RefreshToken)
    (law : Gorm.Lawful refresh_tokens tokens) where
  logout_rows :
      (user_id : Text) (now : ℕ) (t t' : tokens.Store)
      → logout c people tokens user_id now t ≡ (t', ok tt)
      → tokens.rows t' ≡ changed (is_live_of user_id) (revoked now) (tokens.rows t)
  unfolding logout
  logout_rows user_id now t t' h =
      let (_, (_, rows_lem)) = law.update_rows (is_live_of user_id) (revoked now) t (λ x. refl) in
      ap tokens.rows (
        ap (λ r. r.0) (sym h)
        ∙ updated_state c people tokens law (tokens.update (is_live_of user_id) (revoked now) t))
      ∙ rows_lem

  -- After a login and a logout of the same user, the refresh token of the login is refused, until a
  -- second before its end, as a compromised family. The access token of the login stays valid until
  -- a second before its own end. This is where the hash of the refresh token was new to the table.
  pub logout_leaves_access :
      (a : AuthService) (request : LoginRequest) (o o' : Origin) (at now out t : ℕ) (clock : Clock)
      (s s' : people.Store × tokens.Store) (t' : tokens.Store) (x : AuthResponse)
      → login c people tokens a request o at now s ≡ (s', ok x)
      → keep (has_hash (hash_token c x.tokens.refresh_token)) (tokens.rows s.1) ≡ []
      → logout c people tokens x.user.id out s'.1 ≡ (t', ok tt)
      → now ≤ clock.parsed_at
      → clock.parsed_at + second ≤ now + a.refresh_token_duration
      → now ≤ t
      → t + second ≤ now + a.access_token_duration
      → ((refresh_token c people tokens a x.tokens.refresh_token o' clock (s'.0, t')).1
          ≡ err token_family_compromised)
        × ((claims : Claims) × (validate_access_token c a x.tokens.access_token t ≡ ok claims)
            × (claims.user_id ≡ x.user.id))
  unfolding stored_token access_claims
  logout_leaves_access a request o o' at now out t clock s s' t' x h new ended l m l' m' =
      let (user, (y, is_login)) = login-IsLogin c people tokens a request o at now s s' x h in
      let made = is_login.made in
      let user' = logged_in at user in
      let q = has_hash (hash_token c x.tokens.refresh_token) in
      let p = is_live_of x.user.id in
      let (_, only) =
        made_row c people tokens law a user' o o.family_id now s.1 s'.1 x.tokens y made new in
      let live : p y ≡ true =
        ap p made.is_row
        ∙ ap (λ k. text_eq user.id k && true) is_login.is_user
        ∙ ap (λ b. b && true) (text_eq_self user.id) in
      let after : keep q (tokens.rows t') ≡ revoked out y ∷ [] =
        ap (keep q) (logout_rows x.user.id out s'.1 t' ended)
        ∙ keep-changed refresh_tokens.id p q (revoked out) (tokens.rows s'.1) (λ z. refl)
        ∙ ap (changed p (revoked out)) only
        ∙ changed_one p (revoked out) y live in
      let read =
        refresh_read_back c lawful tokens a user' o o.family_id now clock.parsed_at s.1 s'.1
          x.tokens y made l m in
      (
        ap (λ r. r.1)
            (spent_refused c people tokens law a x.tokens.refresh_token o' clock (s'.0, t')
              (refresh_claims a user' o.family_id o.session_id now) (revoked out y) out read
              (ap first_of after) refl),
        (
          access_claims a user' o.session_id now,
          access_read_back c lawful tokens a user' o o.family_id now t s.1 s'.1 x.tokens y made l'
              m',
          sym is_login.is_user,
        ),
      )
