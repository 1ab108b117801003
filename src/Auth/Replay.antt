-- ===== src/Auth/Replay.antt =====
-- What becomes of the other tokens of a family when a spent refresh token is used again.
use web3airdrop_os.Base.{
  ℕ, ◌+◌, ◌≤◌, ◌≡◌, refl, sym, ap, ◌∙◌, true, false, ◌&&◌, Option, none, some, [], ◌∷◌, ok, err,
  keep, Bool-cases, inl, inr,
}
use web3airdrop_os.Base.Text.{Text, text_eq, text_eq_iff, text_eq_self}
use web3airdrop_os.Gorm as Gorm
use web3airdrop_os.Gorm.{Table, first_of, placed, changed, replaced}
use web3airdrop_os.Gorm.Rows.{
  All-first, first-has_key, first-replaced, keep-placed_new, keep-placed_other, keep-replaced_other,
  keep-changed, keep-none, changed_one,
}
use web3airdrop_os.Auth.Records.{
  token_family_compromised, RefreshTokenClaims, RefreshToken, TokenPair, User, AuthService, Crypto,
  Lawful, second, hash_token, refresh_tokens,
}
use web3airdrop_os.Auth.Tokens.{Origin, read_refresh_token, stored_token, refresh_claims}
use web3airdrop_os.Auth.Accounts.{is_user}
use web3airdrop_os.Auth.Sessions.{
  has_hash, is_live_in, revoked, rotated, Clock, revoke_token_family, rotate, rotate_found,
  refresh_token, updated, current, active,
}
use web3airdrop_os.Auth.Inversion.{IsMade}
use web3airdrop_os.Auth.Rotation.{refresh_token-IsRotation}
use web3airdrop_os.Auth.Validity.{refresh_read_back}

hashes_apart : (x h k : Text) → text_eq x h ≡ true → text_eq x k ≡ false → text_eq k h ≡ false
hashes_apart x h k hit miss = elim (Bool-cases (text_eq k h)) [
  | inl same ↦
      let x_is_k : x ≡ k = (text_eq_iff x h).0 hit ∙ sym ((text_eq_iff k h).0 same) in
      let clash : true ≡ false = sym ((text_eq_iff x k).1 x_is_k) ∙ miss in cc
  | inr apart ↦ apart
]

module _ (c : Crypto) (people : Table User) (tokens : Table RefreshToken)
    (law : Gorm.Lawful refresh_tokens tokens) where
  abbrev Stores : Type 0
  Stores = people.Store × tokens.Store

  pub updated_state :
      (r : tokens.Store × (ℕ × Option Gorm.DbError)) → (updated c people tokens r).0 ≡ r.0
  updated_state (t, (n, none)) = refl
  updated_state (t, (n, some e)) = refl

  -- A new row is the only one of its hash.
  pub made_row :
      (a : AuthService) (user : User) (o : Origin) (family_id : Text) (now : ℕ)
      (t t' : tokens.Store) (pair : TokenPair) (y : RefreshToken)
      → IsMade c tokens a user o family_id now t t' pair y
      → keep (has_hash (hash_token c pair.refresh_token)) (tokens.rows t) ≡ []
      → (tokens.rows t' ≡ placed refresh_tokens.id y (tokens.rows t))
        × (keep (has_hash (hash_token c pair.refresh_token)) (tokens.rows t') ≡ y ∷ [])
  unfolding stored_token
  made_row a user o family_id now t t' pair y made new =
      let q = has_hash (hash_token c pair.refresh_token) in
      let added = ap tokens.rows (sym made.is_after) ∙ law.create_rows y t made.accepted in
      let hit : q y ≡ true = ap q made.is_row ∙ text_eq_self (hash_token c pair.refresh_token) in
      (added, ap (keep q) added ∙ keep-placed_new refresh_tokens.id q y (tokens.rows t) hit new)

  -- A token whose row is revoked gives no tokens, and its family is revoked.
  pub spent_refused :
      (a : AuthService) (token : Text) (o : Origin) (clock : Clock) (s : Stores)
      (claims : RefreshTokenClaims) (x : RefreshToken) (at : ℕ)
      → read_refresh_token c a token clock.parsed_at ≡ ok claims
      → first_of (keep (has_hash (hash_token c token)) (tokens.rows s.1)) ≡ ok x
      → x.revoked_at ≡ some at
      → refresh_token c people tokens a token o clock s ≡ (
        (s.0, (revoke_token_family c people tokens x.family_id clock.checked_at s.1).0),
        err token_family_compromised,
      )
  unfolding refresh_token
  spent_refused a token o clock s claims x at read found spent =
      let p = has_hash (hash_token c token) in
      ap (λ r. rotate c people tokens a o clock r (tokens.first p s.1) s) read
      ∙ ap (λ r. rotate c people tokens a o clock (ok claims) r s) (law.first_reply p s.1 ∙ found)
      ∙ ap
          (λ r.
            rotate_found c people tokens a o clock x r (current clock.checked_at x.expires_at)
              (active c people tokens (people.first (is_user claims.user_id) s.0)) s)
          spent

  pub revoked_rows :
      (family_id : Text) (now : ℕ) (t : tokens.Store)
      → tokens.rows (revoke_token_family c people tokens family_id now t).0
        ≡ changed (is_live_in family_id) (revoked now) (tokens.rows t)
  unfolding revoke_token_family
  revoked_rows family_id now t =
      let (_, (_, rows_lem)) = law.update_rows (is_live_in family_id) (revoked now) t (λ x. refl) in
      ap tokens.rows (updated_state (tokens.update (is_live_in family_id) (revoked now) t))
      ∙ rows_lem

  -- After a refresh: the old token's row is spent, and the new token's row is the only one of its
  -- hash.
  after_refresh :
      (a : AuthService) (token : Text) (o : Origin) (clock : Clock) (s s' : Stores)
      (pair : TokenPair)
      → refresh_token c people tokens a token o clock s ≡ (s', ok pair)
      → keep (has_hash (hash_token c pair.refresh_token)) (tokens.rows s.1) ≡ []
      → (x : RefreshToken) × ((y : RefreshToken) × ((user : User) × ((t : tokens.Store) × IsMade c
                tokens a user o x.family_id clock.issued_at s.1 t pair y
              × (first_of (keep (has_hash (hash_token c token)) (tokens.rows s'.1))
                  ≡ ok (rotated c people tokens clock.revoked_at y.id x))
              × (keep (has_hash (hash_token c pair.refresh_token)) (tokens.rows s'.1) ≡ y ∷ []))))
  unfolding stored_token
  after_refresh a token o clock s s' pair h new =
      let (claims, (x, (y, (user, (t, is_rotation))))) =
        refresh_token-IsRotation c people tokens a token o clock s s' pair h in
      let made = is_rotation.made in
      let p = has_hash (hash_token c token) in
      let q = has_hash (hash_token c pair.refresh_token) in
      let x' = rotated c people tokens clock.revoked_at y.id x in
      let found : first_of (keep p (tokens.rows s.1)) ≡ ok x =
        sym (law.first_reply p s.1) ∙ is_rotation.found in
      let (miss, hit) =
        All-first refresh_tokens.id (λ z. q z ≡ false) p (tokens.rows s.1) x found
          (keep-none q (tokens.rows s.1) new) in
      let hash_y : y.token_hash ≡ hash_token c pair.refresh_token =
        ap (λ z. z.token_hash) made.is_row in
      let miss_y : p y ≡ false =
        ap (λ k. text_eq k (hash_token c token)) hash_y
        ∙ hashes_apart x.token_hash (hash_token c token) (hash_token c pair.refresh_token) hit
            miss in
      let (added, only) = made_row a user o x.family_id clock.issued_at s.1 t pair y made new in
      let still : first_of (keep p (tokens.rows t)) ≡ ok x =
        ap (λ xs. first_of (keep p xs)) added
        ∙ ap first_of (keep-placed_other refresh_tokens.id p y (tokens.rows s.1) miss_y)
        ∙ found in
      let keyed = law.keyed t in
      let (_, (_, saved)) =
        law.save_rows x' t (first-has_key refresh_tokens.id p (tokens.rows t) x still) in
      let after : tokens.rows s'.1 ≡ replaced refresh_tokens.id x' (tokens.rows t) =
        ap tokens.rows (sym is_rotation.spent) ∙ saved in
      (
        x,
        (
          y,
          (
            user,
            (
              t,
              made,
              ap (λ xs. first_of (keep p xs)) after
                  ∙ first-replaced refresh_tokens.id p x' x (tokens.rows t) keyed still refl hit,
              ap (keep q) after
                  ∙ keep-replaced_other refresh_tokens.id p q x' x (tokens.rows t) keyed still refl
                      miss miss
                  ∙ only,
            ),
          ),
        ),
      )

  module _ (lawful : Lawful c) where
    -- If a refresh token is used again after a refresh, by whoever, while it has not ended, the use
    -- is refused as a compromised family, and so is the next use of the token that the refresh gave,
    -- until a second before its end; where the hash of that token was new to the table.
    pub replay_revokes_family :
        (a : AuthService) (token : Text) (o o' o'' : Origin) (clock clock' clock'' : Clock)
        (s s' : Stores) (pair : TokenPair) (claims : RefreshTokenClaims)
        → refresh_token c people tokens a token o clock s ≡ (s', ok pair)
        → keep (has_hash (hash_token c pair.refresh_token)) (tokens.rows s.1) ≡ []
        → read_refresh_token c a token clock'.parsed_at ≡ ok claims
        → clock.issued_at ≤ clock''.parsed_at
        → clock''.parsed_at + second ≤ clock.issued_at + a.refresh_token_duration
        → let (s'', reply) = refresh_token c people tokens a token o' clock' s' in
          (reply ≡ err token_family_compromised)
          × ((refresh_token c people tokens a pair.refresh_token o'' clock'' s'').1
              ≡ err token_family_compromised)
    unfolding stored_token
    replay_revokes_family a token o o' o'' clock clock' clock'' s s' pair claims h new read l m =
        let (x, (y, (user, (t, made, spent, only)))) =
          after_refresh a token o clock s s' pair h new in
        let q = has_hash (hash_token c pair.refresh_token) in
        let p = is_live_in x.family_id in
        let x' = rotated c people tokens clock.revoked_at y.id x in
        let refused =
          spent_refused a token o' clock' s' claims x' clock.revoked_at read spent refl in
        let t' = (revoke_token_family c people tokens x.family_id clock'.checked_at s'.1).0 in
        let live : p y ≡ true = ap p made.is_row ∙ ap (λ b. b && true) (text_eq_self x.family_id) in
        let after : keep q (tokens.rows t') ≡ revoked clock'.checked_at y ∷ [] =
          ap (keep q) (revoked_rows x.family_id clock'.checked_at s'.1)
          ∙ keep-changed refresh_tokens.id p q (revoked clock'.checked_at) (tokens.rows s'.1)
              (λ z. refl)
          ∙ ap (changed p (revoked clock'.checked_at)) only
          ∙ changed_one p (revoked clock'.checked_at) y live in
        let claims' = refresh_claims a user x.family_id o.session_id clock.issued_at in
        let read' =
          refresh_read_back c lawful tokens a user o x.family_id clock.issued_at clock''.parsed_at
            s.1 t pair y made l m in
        let refused' =
          spent_refused a pair.refresh_token o'' clock'' (s'.0, t') claims'
            (revoked clock'.checked_at y) clock'.checked_at read' (ap first_of after) refl in
        (
          ap (λ r. r.1) refused,
          ap (λ r. (refresh_token c people tokens a pair.refresh_token o'' clock'' r.0).1) refused
              ∙ ap (λ r. r.1) refused',
        )
