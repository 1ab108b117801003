-- ===== src/Throttle/Overshoot.antt =====
-- A check reserves nothing: callers that check before any of them records are all let through.
use web3airdrop_os.Base.{
  ℕ, zero, suc, ◌+◌, ◌*◌, ◌-◌, ◌<◌, ◌≡◌, ◌≢◌, refl, sym, ap, ◌∙◌, subst, Bool, true, false, some,
  List, [], ◌∷◌, arith, ltb, lt→ltb, Outcome, ok, All, length, Bool-cases, inl, inr,
}
use web3airdrop_os.Base.Text.{Text, text_eq, text_eq_iff, text_eq_self}
use web3airdrop_os.Redis.Keyspace.{Cmd, Item, apply, apply_all, z_insert, z_put}
use web3airdrop_os.Redis.SortedSets.{
  length-z_insert, All-z_insert, IsNew, z_without_new, trim_items,
}
use web3airdrop_os.Redis.{Redis, Lawful}
use web3airdrop_os.Throttle.Locking.{Error}
use web3airdrop_os.Throttle.Quota.{
  default_rate_limits, quota_key, max_allowed, check_rate_limit, record_action,
}

some_window : (platform : Text) → 0 < (default_rate_limits platform).window
unfolding default_rate_limits
some_window platform = ground arith

abbrev pub AllDistinct : List ℕ → Type 0
AllDistinct [] = Unit {0}
AllDistinct (t ∷ ts) = All (λ t'. t ≢ t') ts × AllDistinct ts

module _ (r : Redis) (decimal : ℕ → Text) (platform account_id : Text) where
  open r use {Store, view, write}

  abbrev pub log : Store → List Item
  log s = ((view s).zsets (quota_key platform account_id)).items

  -- Callers that check at `now`, one after another, and what each is told.
  unfoldable pub checks : ℕ → ℕ → Store → Store × List (Outcome Error Bool)
  checks now zero s = (s, [])
  checks now (suc n) s =
      let (s1, reply) = check_rate_limit r decimal platform account_id now s in
      let (s2, replies) = checks now n s1 in (s2, reply ∷ replies)

  -- Callers that record their actions, at these times.
  unfoldable pub records : List ℕ → Store → Store
  records [] s = s
  records (t ∷ ts) s = records ts (record_action r decimal platform account_id t s).0

  module _ (law : Lawful r) (decimal_inj : (m n : ℕ) → decimal m ≡ decimal n → m ≡ n) where
    abbrev max : ℕ
    max = max_allowed (default_rate_limits platform)

    check_empty :
        (now : ℕ) (s : Store)
        → log s ≡ []
        → ((check_rate_limit r decimal platform account_id now s).1 ≡ ok (ltb 0 max))
          × (log (check_rate_limit r decimal platform account_id now s).0 ≡ [])
    unfolding check_rate_limit apply
    check_empty now s h =
        let key = quota_key platform account_id in
        let c = Cmd.zrem_range key (now - (default_rate_limits platform).window) in
        let s1 = (write c s).0 in
        let left : log s1 ≡ [] = ground (arith, law.write_view c s, text_eq_self key, h) in
        ground (arith, law.write_reply c s, law.zcard_reply key s1, left)

    checks_empty :
        (now n : ℕ) (s : Store)
        → log s ≡ []
        → 0 < max
        → All (λ o. o ≡ ok true) (checks now n s).1
          × (length (checks now n s).1 ≡ n)
          × (log (checks now n s).0 ≡ [])
    unfolding checks
    checks_empty now zero s h positive = (tt, refl, h)
    checks_empty now (suc n) s h positive =
        let (reply, left) = check_empty now s h in
        let (all, count, last) =
          checks_empty now n (check_rate_limit r decimal platform account_id now s).0 left
            positive in
        ((reply ∙ ap ok (lt→ltb 0 max positive), all), omega (arith, count), last)

    record_log :
        (t : ℕ) (s : Store)
        → log (record_action r decimal platform account_id t s).0 ≡ z_put (decimal t) t (log s)
    unfolding record_action apply apply_all
    record_log t s =
        let key = quota_key platform account_id in
        let window = (default_rate_limits platform).window * 2 in
        let cs = Cmd.zadd key t (decimal t) ∷ Cmd.pexpire key window ∷ [] in
        ap (λ w. (w.zsets key).items) (law.pipeline_view cs s)
        ∙ ground (
          arith,
          some_window platform,
          text_eq_self key,
          trim_items (z_put (decimal t) t (log s)) (some window),
        )

    apart : (t u : ℕ) → t ≢ u → text_eq (decimal t) (decimal u) ≡ false
    apart t u differ = elim (Bool-cases (text_eq (decimal t) (decimal u))) [
      | inl same ↦ absurd (differ (decimal_inj t u ((text_eq_iff _ _).0 same)))
      | inr other ↦ other
    ]

    still-IsNew :
        (t : ℕ) (ts : List ℕ) (xs : List Item)
        → All (λ u. t ≢ u) ts
        → All (λ u. IsNew (decimal u) xs) ts
        → All (λ u. IsNew (decimal u) (z_insert (record { member = decimal t; score = t }) xs)) ts
    still-IsNew t [] xs differ fresh = tt
    still-IsNew t (u ∷ ts) xs differ fresh =
        let i : Item = record { member = decimal t; score = t } in
        (
          All-z_insert (λ x. text_eq x.member (decimal u) ≡ false) i xs (apart t u differ.0)
              fresh.0,
          still-IsNew t ts xs differ.1 fresh.1,
        )

    records-length :
        (ts : List ℕ) (s : Store)
        → AllDistinct ts
        → All (λ t. IsNew (decimal t) (log s)) ts
        → length (log (records ts s)) ≡ length ts + length (log s)
    unfolding records
    records-length [] s distinct fresh = omega arith
    records-length (t ∷ ts) s distinct fresh =
        let s1 = (record_action r decimal platform account_id t s).0 in
        let i : Item = record { member = decimal t; score = t } in
        let added : log s1 ≡ z_insert i (log s) =
          record_log t s ∙ ap (z_insert i) (z_without_new (decimal t) (log s) fresh.0) in
        let fresh' =
          subst (λ xs. All (λ u. IsNew (decimal u) xs) ts) (sym added)
            (still-IsNew t ts (log s) distinct.0 fresh.1) in
        let count : length (log s1) ≡ suc (length (log s)) =
          ap length added ∙ length-z_insert i (log s) in
        omega (arith, count, records-length ts s1 distinct.1 fresh')

    All-IsNew : (ts : List ℕ) (xs : List Item) → xs ≡ [] → All (λ t. IsNew (decimal t) xs) ts
    All-IsNew [] xs h = tt
    All-IsNew (t ∷ ts) xs h = (subst (IsNew (decimal t)) (sym h) tt, All-IsNew ts xs h)

    -- From an empty log, any number of callers that check before any of them records are all let
    -- through, and once they have recorded, at distinct times, the log holds as many actions, whatever
    -- the limit.
    pub checks_reserve_nothing :
        (now : ℕ) (ts : List ℕ) (s : Store)
        → log s ≡ []
        → 0 < max_allowed (default_rate_limits platform)
        → AllDistinct ts
        → let (checked, replies) = checks now (length ts) s in
          All (λ o. o ≡ ok true) replies
          × (length replies ≡ length ts)
          × (length (log (records ts checked)) ≡ length ts)
    checks_reserve_nothing now ts s empty positive distinct =
        let (all, count, left) = checks_empty now (length ts) s empty positive in
        let checked = (checks now (length ts) s).0 in
        let recorded = records-length ts checked distinct (All-IsNew ts (log checked) left) in
        let none_before : length (log checked) ≡ 0 = ap length left in
        (all, count, omega (arith, recorded, none_before))
