-- ===== src/Redis/SortedSets.antt =====
-- Facts on the lists that stand for sorted sets.
use web3airdrop_os.Base.{
  ℕ, suc, ◌≡◌, refl, ap, Bool, false, Option, List, [], ◌∷◌, arith, keep, length, All, Bool-cases,
  inl, inr,
}
use web3airdrop_os.Base.Text.{Text, text_eq}
use web3airdrop_os.Redis.Keyspace.{Item, item_lt, z_insert, z_without, trim}

pub length-keep-z_insert :
    (p : Item → Bool) (i : Item) (xs : List Item)
    → length (keep p (z_insert i xs)) ≡ length (keep p (i ∷ xs))
unfolding z_insert
length-keep-z_insert p i [] = refl
length-keep-z_insert p i (x ∷ xs) = elim (Bool-cases (item_lt i x)) [
  | inl before ↦ rw before
  | inr after ↦ rw after (ground (arith, length-keep-z_insert p i xs))
]

pub length-z_insert : (i : Item) (xs : List Item) → length (z_insert i xs) ≡ suc (length xs)
unfolding z_insert
length-z_insert i [] = refl
length-z_insert i (x ∷ xs) = elim (Bool-cases (item_lt i x)) [
  | inl before ↦ rw before
  | inr after ↦ rw after (ap suc (length-z_insert i xs))
]

pub All-z_insert {ℓ} :
    (P : Item → Type ℓ) (i : Item) (xs : List Item) → P i → All P xs → All P (z_insert i xs)
unfolding z_insert
All-z_insert P i [] h hs = (h, tt)
All-z_insert P i (x ∷ xs) h hs = elim (Bool-cases (item_lt i x)) [
  | inl before ↦ rw before (h, hs)
  | inr after ↦ rw after (hs.0, All-z_insert P i xs h hs.1)
]

abbrev pub IsNew : Text → List Item → Type 0
IsNew m = All λ i. text_eq i.member m ≡ false

pub z_without_new : (m : Text) (xs : List Item) → IsNew m xs → z_without m xs ≡ xs
z_without_new m [] h = refl
z_without_new m (x ∷ xs) h = rw h.0 (ap (◌∷◌ x) (z_without_new m xs h.1))

pub trim-z_insert :
    (i : Item) (xs : List Item) (l : Option ℕ)
    → trim (z_insert i xs) l ≡ record { items = z_insert i xs; left = l }
unfolding z_insert
trim-z_insert i [] l = refl
trim-z_insert i (x ∷ xs) l = elim (Bool-cases (item_lt i x)) [
  | inl before ↦ rw before
  | inr after ↦ rw after
]

pub trim_items : (xs : List Item) (l : Option ℕ) → (trim xs l).items ≡ xs
trim_items [] l = refl
trim_items (x ∷ xs) l = refl
