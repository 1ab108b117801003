-- ===== src/Auth/Plain.antt =====
-- Tokens that hold their secret and claims as they are. They show that the laws of the token library
-- can be had, and stand in for it in the tests alone.
use web3airdrop_os.Base.{
  ℕ, zero, suc, ◌*◌, ◌≡◌, refl, sym, ap, ◌∙◌, Bool, true, false, ◌&&◌, List, [], ◌∷◌, ◌++◌, arith,
  Outcome, ok, err, length, ltb, not, if◌then◌else◌,
}
use web3airdrop_os.Base.Text.{Text, take, drop, take-length, drop-length, text_eq, text_eq_self}
use web3airdrop_os.Auth.Records.{
  RegisteredClaims, Claims, RefreshTokenClaims, Crypto, Lawful, IsTimely, second,
}

abbrev pub joined : List Text → Text
joined [] = []
joined (t ∷ ts) = length t ∷ (t ++ joined ts)

unfoldable pub split : ℕ → Text → List Text
split zero u = []
split (suc k) [] = []
split (suc k) (n ∷ u) = take n u ∷ split k (drop n u)

split-joined : (ts : List Text) → split (length ts) (joined ts) ≡ ts
unfolding split
split-joined [] = refl
split-joined (t ∷ ts) =
    ap (λ x. x ∷ split (length ts) (drop (length t) (t ++ joined ts))) (take-length t (joined ts))
    ∙ ap (λ u. t ∷ split (length ts) u) (drop-length t (joined ts))
    ∙ ap (λ xs. t ∷ xs) (split-joined ts)

pub record Fields : Type 0 where
  pub user_id : Text
  pub email : Text
  pub token_type : Text
  pub session_id : Text
  pub family_id : Text
  pub registered : RegisteredClaims

abbrev encoded : Text → Fields → Text
encoded secret f =
    f.registered.expires_at
    ∷ f.registered.issued_at
    ∷ f.registered.not_before
    ∷ joined (
        secret ∷ f.registered.subject ∷ f.registered.jti ∷ f.user_id ∷ f.email ∷ f.token_type
        ∷ f.session_id ∷ f.family_id ∷ [])

abbrev accepted : Text → ℕ → Text → Fields → Outcome Text Fields
accepted secret now other f =
    if text_eq other secret
      && (not (ltb now (f.registered.not_before * second))
          && ltb now (f.registered.expires_at * second))
    then ok f
    else err []

abbrev fields : Text → ℕ → ℕ → ℕ → ℕ → List Text → Outcome Text Fields
fields secret now e i n (other ∷ subject ∷ jti ∷ user_id ∷ email ∷ kind ∷ session ∷ family ∷ []) =
    accepted secret now other record {
      user_id = user_id;
      email = email;
      token_type = kind;
      session_id = session;
      family_id = family;
      registered = record {
        subject = subject;
        expires_at = e;
        issued_at = i;
        not_before = n;
        jti = jti;
      };
    }
fields secret now e i n _ = err []

abbrev decoded : Text → ℕ → Text → Outcome Text Fields
decoded secret now (e ∷ i ∷ n ∷ u) = fields secret now e i n (split 8 u)
decoded secret now _ = err []

decoded-encoded :
    (secret : Text) (now : ℕ) (f : Fields)
    → decoded secret now (encoded secret f) ≡ accepted secret now secret f
decoded-encoded secret now f =
    let r = f.registered in
    ap (fields secret now r.expires_at r.issued_at r.not_before) (
      split-joined (
        secret ∷ r.subject ∷ r.jti ∷ f.user_id ∷ f.email ∷ f.token_type ∷ f.session_id ∷ f.family_id
        ∷ []))

accepted_timely :
    (secret : Text) (now : ℕ) (f : Fields)
    → IsTimely f.registered now
    → accepted secret now secret f ≡ ok f
accepted_timely secret now f (l, m) = ground (arith, text_eq_self secret, l, m)

kept :
    (b : Bool) (f g : Fields)
    → ◌≡◌ {A = Outcome Text Fields} (if b then ok f else err []) (ok g)
    → f ≡ g
kept true f g h = cc
kept false f g h = cc

accepted_ok : (secret : Text) (now : ℕ) (f g : Fields) → accepted secret now secret f ≡ ok g → f ≡ g
accepted_ok secret now f g h = kept _ f g h

abbrev mapped : {A : Type 0} → (Fields → A) → Outcome Text Fields → Outcome Text A
mapped k (ok f) = ok (k f)
mapped k (err e) = err e

mapped_ok :
    {A : Type 0} (k : Fields → A) (o : Outcome Text Fields) (a : A)
    → mapped k o ≡ ok a
    → (f : Fields) × (o ≡ ok f) × (k f ≡ a)
mapped_ok k (ok f) a h = (f, refl, cc)
mapped_ok k (err e) a h = cc

abbrev of_access : Claims → Fields
of_access x = record {
  user_id = x.user_id;
  email = x.email;
  token_type = x.token_type;
  session_id = x.session_id;
  family_id = [];
  registered = x.registered;
}

abbrev of_refresh : RefreshTokenClaims → Fields
of_refresh x = record {
  user_id = x.user_id;
  email = [];
  token_type = x.token_type;
  session_id = [];
  family_id = x.family_id;
  registered = x.registered;
}

abbrev to_access : Fields → Claims
to_access f = record {
  user_id = f.user_id;
  email = f.email;
  token_type = f.token_type;
  session_id = f.session_id;
  registered = f.registered;
}

abbrev to_refresh : Fields → RefreshTokenClaims
to_refresh f = record {
  user_id = f.user_id;
  token_type = f.token_type;
  family_id = f.family_id;
  registered = f.registered;
}

abbrev pub plain : Crypto
plain = record {
  sign_access = λ secret x. ok (encoded secret (of_access x));
  sign_refresh = λ secret x. ok (encoded secret (of_refresh x));
  parse_access = λ secret now token. mapped to_access (decoded secret now token);
  parse_refresh = λ secret now token. mapped to_refresh (decoded secret now token);
  generate_from_password = λ salt password. ok password;
  compare_hash_and_password = λ hash password. text_eq hash password;
  sha256 = λ t. t;
  hex_encode = λ t. t;
}

signed_same :
    (secret token : Text) (f : Fields)
    → ◌≡◌ {A = Outcome Text Text} (ok (encoded secret f)) (ok token)
    → encoded secret f ≡ token
signed_same secret token f h = ground (arith, h)

decoded_timely :
    (secret token : Text) (f : Fields) (now : ℕ)
    → encoded secret f ≡ token
    → IsTimely f.registered now
    → decoded secret now token ≡ ok f
decoded_timely secret token f now same timely =
    ap (decoded secret now) (sym same)
    ∙ decoded-encoded secret now f
    ∙ accepted_timely secret now f timely

decoded_ok :
    (secret token : Text) (f g : Fields) (now : ℕ)
    → encoded secret f ≡ token
    → decoded secret now token ≡ ok g
    → f ≡ g
decoded_ok secret token f g now same h =
    accepted_ok secret now f g
      (sym (decoded-encoded secret now f) ∙ ap (decoded secret now) same ∙ h)

the_hash :
    (password hash : Text) → ◌≡◌ {A = Outcome Text Text} (ok password) (ok hash) → password ≡ hash
the_hash password hash h = ground (arith, h)

pub plain-Lawful : Lawful plain
plain-Lawful = record {
  access_read = λ secret token x now h timely. ap (mapped to_access) (
      decoded_timely secret token (of_access x) now (signed_same secret token (of_access x) h)
        timely);
  refresh_read = λ secret token x now h timely. ap (mapped to_refresh) (
      decoded_timely secret token (of_refresh x) now (signed_same secret token (of_refresh x) h)
        timely);
  refresh_as_access = λ secret token x now y h r.
      let (f, e, same) = mapped_ok to_access (decoded secret now token) y r in
      sym (ap (λ z. z.token_type) same)
      ∙ sym (
          ap (λ z. z.token_type)
            (decoded_ok secret token (of_refresh x) f now
              (signed_same secret token (of_refresh x) h) e));
  access_as_refresh = λ secret token x now y h r.
      let (f, e, same) = mapped_ok to_refresh (decoded secret now token) y r in
      sym (ap (λ z. z.token_type) same)
      ∙ sym (
          ap (λ z. z.token_type)
            (decoded_ok secret token (of_access x) f now (signed_same secret token (of_access x) h)
              e));
  password_accepted = λ salt password hash h.
      ap (λ k. text_eq k password) (sym (the_hash password hash h)) ∙ text_eq_self password;
}
