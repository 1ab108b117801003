-- ===== src/Auth/Sessions.antt =====
-- RefreshToken, the logouts and the removal of expired tokens.
use web3airdrop_os.Base.{
  ℕ, Bool, true, false, ◌&&◌, Option, none, some, Outcome, ok, err, Call, ltb, if◌then◌else◌,
}
use web3airdrop_os.Base.Text.{Text, text_eq}
use web3airdrop_os.Gorm.{DbError, Table}
use web3airdrop_os.Auth.Records.{
  Error, invalid_credentials, user_not_found, invalid_token, token_family_compromised, database,
  RefreshToken, TokenPair, User, AuthService, Crypto, hash_token, RefreshTokenClaims,
}
use web3airdrop_os.Auth.Accounts.{is_user}
use web3airdrop_os.Auth.Tokens.{Origin, read_refresh_token, generate_token_pair_with_family}

abbrev pub has_hash : Text → RefreshToken → Bool
has_hash hash x = text_eq x.token_hash hash

abbrev pub is_live : Option ℕ → Bool
is_live none = true
is_live (some at) = false

abbrev pub is_live_of : Text → RefreshToken → Bool
is_live_of user_id x = text_eq x.user_id user_id && is_live x.revoked_at

abbrev pub is_live_in : Text → RefreshToken → Bool
is_live_in family_id x = text_eq x.family_id family_id && is_live x.revoked_at

abbrev pub revoked : ℕ → RefreshToken → RefreshToken
revoked now x = record x { revoked_at = some now }

abbrev pub current : ℕ → ℕ → Outcome Error (Unit {0})
current now expires_at = if ltb expires_at now then err invalid_token else ok tt

-- The readings of the clock in a refresh, in their order.
pub record Clock : Type 0 where
  pub parsed_at : ℕ
  pub checked_at : ℕ
  pub revoked_at : ℕ
  pub issued_at : ℕ

module _ (c : Crypto) (people : Table User) (tokens : Table RefreshToken) where
  abbrev pub Store : Type 0
  Store = people.Store × tokens.Store

  abbrev pub updated : {S : Type 0} → S × (ℕ × Option DbError) → S × Outcome Error (Unit {0})
  updated (s, (n, none)) = (s, ok tt)
  updated (s, (n, some e)) = (s, err (database e))

  unfoldable pub revoke_token_family : Text → ℕ → Call tokens.Store Error (Unit {0})
  revoke_token_family family_id now s =
      updated (tokens.update (is_live_in family_id) (revoked now) s)

  abbrev pub rotated : ℕ → Text → RefreshToken → RefreshToken
  rotated now new_id x = record x { revoked_at = some now; replaced_by = some new_id }

  -- The error of the save is dropped.
  abbrev pub replace_token :
      ℕ
      → RefreshToken
      → people.Store
      → tokens.Store × Outcome Error (TokenPair × RefreshToken)
      → Store × Outcome Error TokenPair
  replace_token now x u (t, err e) = ((u, t), err e)
  replace_token now x u (t, ok (pair, y)) = ((u, (tokens.save (rotated now y.id x) t).0), ok pair)

  abbrev pub active : Outcome DbError User → Outcome Error User
  active (err e) = err user_not_found
  active (ok user) = if user.is_active then ok user else err invalid_credentials

  -- The row's revocation, whether it is current, and its user. A revoked token is used again: the
  -- whole family is revoked, and the error of that is dropped.
  abbrev pub rotate_found :
      AuthService
      → Origin
      → Clock
      → RefreshToken
      → Option ℕ
      → Outcome Error (Unit {0})
      → Outcome Error User
      → Call Store Error TokenPair
  rotate_found a o clock x (some at) fresh user s = (
    (s.0, (revoke_token_family x.family_id clock.checked_at s.1).0),
    err token_family_compromised,
  )
  rotate_found a o clock x none (err e) user s = (s, err e)
  rotate_found a o clock x none (ok _) (err e) s = (s, err e)
  rotate_found a o clock x none (ok _) (ok user) s = replace_token clock.revoked_at x s.0 (
      generate_token_pair_with_family c tokens a user x.family_id o.ip_address o.user_agent
        o.session_id clock.issued_at s.1)

  abbrev pub rotate :
      AuthService
      → Origin
      → Clock
      → Outcome Error RefreshTokenClaims
      → Outcome DbError RefreshToken
      → Call Store Error TokenPair
  rotate a o clock (err e) row s = (s, err e)
  rotate a o clock (ok claims) (err e) s = (s, err invalid_token)
  rotate a o clock (ok claims) (ok x) s =
      rotate_found a o clock x x.revoked_at (current clock.checked_at x.expires_at)
        (active (people.first (is_user claims.user_id) s.0)) s

  unfoldable pub refresh_token : AuthService → Text → Origin → Clock → Call Store Error TokenPair
  refresh_token a token o clock s =
      rotate a o clock (read_refresh_token c a token clock.parsed_at)
        (tokens.first (has_hash (hash_token c token)) s.1) s

  unfoldable pub logout : Text → ℕ → Call tokens.Store Error (Unit {0})
  logout user_id now s = updated (tokens.update (is_live_of user_id) (revoked now) s)

  abbrev pub revoke_family_of :
      ℕ → Outcome DbError RefreshToken → Call tokens.Store Error (Unit {0})
  revoke_family_of now (err e) s = (s, err (database e))
  revoke_family_of now (ok x) s = revoke_token_family x.family_id now s

  unfoldable pub logout_session : Text → Text → ℕ → Call tokens.Store Error (Unit {0})
  logout_session user_id session_id now s =
      revoke_family_of now
        (tokens.first (λ x. text_eq x.id session_id && text_eq x.user_id user_id) s) s

  unfoldable pub cleanup_expired_tokens : ℕ → tokens.Store → tokens.Store × (ℕ × Option DbError)
  cleanup_expired_tokens now s = tokens.delete (λ x. ltb x.expires_at now) s
