-- ===== src/Vault/Expiry.antt =====
-- Secrets with an expiration time.
use web3airdrop_os.Base.{
  ℕ, zero, suc, ◌<◌, ◌≡◌, refl, sym, ap, ◌∙◌, Bool, true, Option, none, some, ◌&&◌, subst, List, [],
  ◌∷◌, arith, ok, err, keep, length, lt→ltb, ltb, List-cases, inl, inr, if◌then◌else◌, All, map,
}
use web3airdrop_os.Base.Text.{Text}
use web3airdrop_os.Gorm as Gorm
use web3airdrop_os.Gorm.{DbError, Table, first_of, changed, removed}
use web3airdrop_os.Gorm.Rows.{keep-changed, keep-All}
use web3airdrop_os.Vault.Records.{SecretType, secret_expired, Secret, secrets, Crypto, Vault}
use web3airdrop_os.Vault.Secrets.{
  is_named, is_of, hidden, listed, affected, retrieve, set_expiration, list_secrets, list_by_type,
}

module _ (c : Crypto) (t : Table Secret) (law : Gorm.Lawful secrets t) where
  open t use {Store, first, find, update, delete, rows}

  affected_ok :
      (o : Store × (ℕ × Option DbError)) (s' : Store)
      → affected c t o ≡ (s', ok tt)
      → (o.0 ≡ s') × ((n : ℕ) × (o.1.0 ≡ suc n))
  affected_ok (s, (zero, e)) s' h = cc
  affected_ok (s, (suc n, none)) s' h = (cc, (n, refl))
  affected_ok (s, (suc n, some e)) s' h = cc

  first-changed :
      (p : Secret → Bool) (f : Secret → Secret) (xs : List Secret) (n : ℕ)
      → ((x : Secret) → p (f x) ≡ p x)
      → length (keep p xs) ≡ suc n
      → (x : Secret) × (first_of (keep p (changed p f xs)) ≡ ok (f x))
  first-changed p f xs n same some_kept = elim (List-cases (keep p xs)) [
    | inl empty ↦
        let clash : zero ≡ suc n = ap length (sym empty) ∙ some_kept in absurd (omega arith)
    | inr (x, (ys, kept)) ↦
        let all : All (λ z. p z ≡ true) (x ∷ ys) =
          subst (All (λ z. p z ≡ true)) kept (keep-All p xs) in
        (
          x,
          ap first_of (keep-changed (λ z. z.id) p p f xs same ∙ ap (changed p f) kept)
              ∙ ap (λ b. ok (if b then f x else x)) all.0,
        )
  ]

  -- Once an expiration time is set, every later retrieval after that time is refused as expired, and
  -- leaves the table as it is.
  pub expired_never_read :
      (v : Vault) (user_id name : Text) (at later : ℕ) (s s' : Store)
      → set_expiration c t user_id name at s ≡ (s', ok tt)
      → at < later
      → retrieve c t v user_id name later s' ≡ (s', err secret_expired)
  unfolding set_expiration retrieve
  expired_never_read v user_id name at later s s' h late =
      let p = is_named user_id name in
      let f = λ (x : Secret). record x { expires_at = some at } in
      let (is_s', (n, hit)) = affected_ok (update p f s) s' h in
      let (reply, (now, rows_lem)) = law.update_rows p f s (λ x. refl) in
      let g = λ (x : Secret). record x { expires_at = some at; updated_at = now } in
      let (x, is_first) =
        first-changed p g (rows s) n (λ y. refl) (sym (ap (λ r. r.0) reply) ∙ hit) in
      let there : first p s' ≡ ok (g x) =
        law.first_reply p s'
        ∙ ap (λ z. first_of (keep p (rows z))) (sym is_s')
        ∙ ap (λ ys. first_of (keep p ys)) rows_lem
        ∙ is_first in
      let over : ltb at later ≡ true = lt→ltb at later late in ground (arith, there, over)

  -- A list shows neither ciphertexts nor nonces, and secrets of the user only: one for each that is
  -- stored, or of the type that is asked for.
  abbrev pub IsHidden : (Secret → Bool) → Secret → Type 0
  IsHidden p x = (x.encrypted_value ≡ []) × (x.iv ≡ []) × (p x ≡ true)

  map-hidden :
      (p : Secret → Bool) (xs : List Secret)
      → ((x : Secret) → p (hidden x) ≡ p x)
      → All (λ x. p x ≡ true) xs
      → All (IsHidden p) (map hidden xs) × (length (map hidden xs) ≡ length xs)
  map-hidden p [] same h = (tt, refl)
  map-hidden p (x ∷ xs) same h =
      let (rest, count) = map-hidden p xs same h.1 in
      (((refl, refl, same x ∙ h.0), rest), omega (arith, count))

  pub lists-IsHidden :
      (user_id : Text) (same_type : SecretType → Bool) (s : Store)
      → ((xs : List Secret) × (list_secrets c t user_id s ≡ ok xs)
          × All (IsHidden (is_of user_id)) xs
          × (length xs ≡ length (keep (is_of user_id) (rows s))))
        × ((xs : List Secret) × (list_by_type c t user_id same_type s ≡ ok xs)
            × All (IsHidden (λ x. is_of user_id x && same_type x.key_type)) xs
            × (length xs ≡ length (keep (λ x. is_of user_id x && same_type x.key_type) (rows s))))
  unfolding list_secrets list_by_type
  lists-IsHidden user_id same_type s =
      let p = is_of user_id in
      let q = λ (x : Secret). is_of user_id x && same_type x.key_type in
      let (all, count) = map-hidden p (keep p (rows s)) (λ x. refl) (keep-All p (rows s)) in
      let (all', count') = map-hidden q (keep q (rows s)) (λ x. refl) (keep-All q (rows s)) in
      (
        (map hidden (keep p (rows s)), ap listed (law.find_reply p s), all, count),
        (map hidden (keep q (rows s)), ap listed (law.find_reply q s), all', count'),
      )
