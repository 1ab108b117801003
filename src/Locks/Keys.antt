-- ===== src/Locks/Keys.antt =====
-- The Redis keys of distinct resources are distinct.
use web3airdrop_os.Base.{◌≡◌, refl, ◌++◌, [], ◌∷◌, ap, ℕ, arith}
use web3airdrop_os.Base.Text.{Text, append_cancel, codes}
use web3airdrop_os.Locks.{
  ResourceType, account, wallet, task, browser, campaign, lock_key, resource_text, key_prefix,
}

-- The first byte tells the resource types apart.
abbrev first : Text → ℕ
first [] = 0
first (x ∷ xs) = x

body :
    (t u : ResourceType) (a b : Text)
    → resource_text t ++ (codes ":" ++ a) ≡ resource_text u ++ (codes ":" ++ b)
    → (t ≡ u) × (a ≡ b)
unfolding resource_text
body account account a b h = (refl, append_cancel (codes "account:") a b h)
body wallet wallet a b h = (refl, append_cancel (codes "wallet:") a b h)
body task task a b h = (refl, append_cancel (codes "task:") a b h)
body browser browser a b h = (refl, append_cancel (codes "browser:") a b h)
body campaign campaign a b h = (refl, append_cancel (codes "campaign:") a b h)
body _ _ a b h = absurd (omega (arith, ap first h))

pub lock_key_injective :
    (t u : ResourceType) (a b : Text) → lock_key t a ≡ lock_key u b → (t ≡ u) × (a ≡ b)
unfolding lock_key
lock_key_injective t u a b h = body t u a b (append_cancel key_prefix _ _ h)
