-- ===== src/Hub/Maps.antt =====
-- Go maps from texts to lists of clients. A key that is missing reads as the empty list.
use web3airdrop_os.Base.{
  ℕ, ◌≤◌, suc, ◌+◌, ◌-◌, ◌≡◌, refl, sym, ap, ◌∙◌, Bool, true, false, not, List, [], ◌∷◌, ◌++◌,
  arith, keep, ◌==◌, if◌then◌else◌, Bool-cases, inl, inr, map,
}
use web3airdrop_os.Base.Text.{Text, text_eq, text_eq_iff}

abbrev pub Dict : Type 0
Dict = List (Text × List ℕ)

abbrev pub lookup : Text → Dict → List ℕ
lookup k [] = []
lookup k ((j, v) ∷ d) = if text_eq j k then v else lookup k d

abbrev pub put : Text → List ℕ → Dict → Dict
put k v [] = (k, v) ∷ []
put k v ((j, w) ∷ d) = if text_eq j k then (j, v) ∷ d else (j, w) ∷ put k v d

-- A change of the value at a key that is there.
abbrev pub alter : Text → (List ℕ → List ℕ) → Dict → Dict
alter k f [] = []
alter k f ((j, w) ∷ d) = if text_eq j k then (j, f w) ∷ d else (j, w) ∷ alter k f d

abbrev pub keys : Dict → List Text
keys d = map (λ e. e.0) d

abbrev pub mem : ℕ → List ℕ → Bool
mem x [] = false
mem x (y ∷ ys) = if y == x then true else mem x ys

abbrev pub mem_text : Text → List Text → Bool
mem_text x [] = false
mem_text x (y ∷ ys) = if text_eq y x then true else mem_text x ys

abbrev pub count : ℕ → List ℕ → ℕ
count x [] = 0
count x (y ∷ ys) = if y == x then suc (count x ys) else count x ys

abbrev pub without : ℕ → List ℕ → List ℕ
without x = keep (λ y. not (y == x))

abbrev pub without_text : Text → List Text → List Text
without_text x = keep (λ y. not (text_eq y x))

abbrev pub remove_first : ℕ → List ℕ → List ℕ
remove_first x [] = []
remove_first x (y ∷ ys) = if y == x then ys else y ∷ remove_first x ys

abbrev pub insert : ℕ → List ℕ → List ℕ
insert x ys = if mem x ys then ys else x ∷ ys

abbrev pub insert_text : Text → List Text → List Text
insert_text x ys = if mem_text x ys then ys else x ∷ ys

swapped : (j k : Text) → text_eq j k ≡ text_eq k j
swapped j k = ground (arith, text_eq_iff j k, text_eq_iff k j)

trans_eq : (i j k : Text) → text_eq i j ≡ true → text_eq i k ≡ text_eq j k
trans_eq i j k h = ap (λ x. text_eq x k) ((text_eq_iff i j).0 h)

pub lookup-put :
    (j k : Text) (v : List ℕ) (d : Dict)
    → lookup j (put k v d) ≡ (if text_eq k j then v else lookup j d)
lookup-put j k v [] = ground arith
lookup-put j k v ((i, w) ∷ d) =
    ground (arith, trans_eq i k j, trans_eq i j k, swapped j k, lookup-put j k v d)

pub lookup-alter :
    (j k : Text) (f : List ℕ → List ℕ) (d : Dict)
    → f [] ≡ []
    → lookup j (alter k f d) ≡ (if text_eq k j then f (lookup j d) else lookup j d)
lookup-alter j k f [] h = ground (arith, h)
lookup-alter j k f ((i, w) ∷ d) h =
    ground (arith, trans_eq i k j, trans_eq i j k, swapped j k, lookup-alter j k f d h)

pub count-append : (x : ℕ) (ys zs : List ℕ) → count x (ys ++ zs) ≡ count x ys + count x zs
count-append x [] zs = omega arith
count-append x (y ∷ ys) zs = ground (arith, count-append x ys zs)

pub count-remove_first :
    (x y : ℕ) (ys : List ℕ)
    → count x (remove_first y ys) ≡ (if y == x then count x ys - 1 else count x ys)
count-remove_first x y [] = ground arith
count-remove_first x y (z ∷ zs) = ground (arith, count-remove_first x y zs)

pub mem-without :
    (x y : ℕ) (ys : List ℕ) → mem x (without y ys) ≡ (if y == x then false else mem x ys)
mem-without x y [] = ground arith
mem-without x y (z ∷ zs) = ground (arith, mem-without x y zs)

pub mem-insert : (x y : ℕ) (ys : List ℕ) → mem x (insert y ys) ≡ (if y == x then true else mem x ys)
mem-insert x y ys = elim (Bool-cases (y == x)) [
  | inl same ↦
      let is : y ≡ x = ground (arith, same) in
      elim (Bool-cases (mem y ys)) [
        | inl there ↦ rw (there, same) (ap (λ z. mem z ys) (sym is) ∙ there)
        | inr new ↦ rw (new, same) refl
      ]
  | inr other ↦ elim (Bool-cases (mem y ys)) [
    | inl there ↦ rw (there, other) refl
    | inr new ↦ rw (new, other) refl
  ]
]

pub mem_text-without :
    (x y : Text) (ys : List Text)
    → mem_text x (without_text y ys) ≡ (if text_eq y x then false else mem_text x ys)
mem_text-without x y [] = ground arith
mem_text-without x y (z ∷ zs) =
    ground (arith, trans_eq z y x, trans_eq z x y, swapped x y, mem_text-without x y zs)

pub mem_text-insert :
    (x y : Text) (ys : List Text)
    → mem_text x (insert_text y ys) ≡ (if text_eq y x then true else mem_text x ys)
mem_text-insert x y ys = elim (Bool-cases (text_eq y x)) [
  | inl same ↦
      let is : y ≡ x = (text_eq_iff y x).0 same in
      elim (Bool-cases (mem_text y ys)) [
        | inl there ↦ rw (there, same) (ap (λ z. mem_text z ys) (sym is) ∙ there)
        | inr new ↦ rw (new, same) refl
      ]
  | inr other ↦ elim (Bool-cases (mem_text y ys)) [
    | inl there ↦ rw (there, other) refl
    | inr new ↦ rw (new, other) refl
  ]
]

pub absent_count : (x : ℕ) (ys : List ℕ) → mem x ys ≡ false → count x ys ≡ 0
absent_count x [] h = refl
absent_count x (y ∷ ys) h = ground (arith, h, absent_count x ys)

pub counted_once : (x : ℕ) (ys : List ℕ) → suc (count x ys) ≤ 1 → mem x ys ≡ false
counted_once x [] h = refl
counted_once x (y ∷ ys) h = ground (arith, h, counted_once x ys)

count-without_le : (x y : ℕ) (ys : List ℕ) → count x (without y ys) ≤ count x ys
count-without_le x y [] = omega arith
count-without_le x y (z ∷ zs) = ground (arith, count-without_le x y zs)

pub count-without : (x y : ℕ) (ys : List ℕ) → count x ys ≤ 1 → count x (without y ys) ≤ 1
count-without x y ys h = omega (arith, count-without_le x y ys, h)

pub count-insert : (x y : ℕ) (ys : List ℕ) → count x ys ≤ 1 → count x (insert y ys) ≤ 1
count-insert x y ys h = ground (arith, absent_count x ys, h)

pub mem_count : (x : ℕ) (ys : List ℕ) → mem x ys ≡ true → suc 0 ≤ count x ys
mem_count x [] h = cc
mem_count x (y ∷ ys) h = ground (arith, h, mem_count x ys)
