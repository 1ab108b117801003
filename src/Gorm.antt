-- ===== src/Gorm.antt =====
-- The database tables behind the backend (gorm.io/gorm on PostgreSQL), which the source only calls.
-- A `Table` has the statements that the backend sends; `Lawful` is their documented effect on the
-- rows, for a server that answers.
pub mod Rows
pub mod Memory
use web3airdrop_os.Base.{
  ℕ, ◌≡◌, Bool, true, false, not, Option, none, some, List, [], ◌∷◌, Outcome, ok, err, keep, All,
  length, if◌then◌else◌,
}
use web3airdrop_os.Base.Text.{Text, text_eq, text_lt}

pub data DbError : Type 0 where
  record_not_found unique_violation failure : DbError

-- A table's primary key, and the record as GORM writes it: `updated_at` is set to the time.
pub record Model (R : Type 0) : Type 0 where
  pub id : R → Text
  pub stamp : ℕ → R → R

module _ {R : Type 0} where
  abbrev pub first_of : List R → Outcome DbError R
  first_of [] = err record_not_found
  first_of (x ∷ xs) = ok x

  -- A new row among the others, in the order of the primary key.
  abbrev pub placed : (R → Text) → R → List R → List R
  placed id r [] = r ∷ []
  placed id r (x ∷ xs) = if text_lt (id r) (id x) then r ∷ x ∷ xs else x ∷ placed id r xs

  abbrev pub changed : (R → Bool) → (R → R) → List R → List R
  changed p f [] = []
  changed p f (x ∷ xs) = (if p x then f x else x) ∷ changed p f xs

  -- The row of the same primary key gives way.
  abbrev pub replaced : (R → Text) → R → List R → List R
  replaced id r = changed (λ x. text_eq (id x) (id r)) (λ x. r)

  abbrev pub removed : (R → Bool) → List R → List R
  removed p = keep (λ x. not (p x))

  -- Rows of pairwise distinct primary keys.
  abbrev pub IsKeyed : (R → Text) → List R → Type 0
  IsKeyed id [] = Unit {0}
  IsKeyed id (x ∷ xs) = All (λ y. text_eq (id x) (id y) ≡ false) xs × IsKeyed id xs

  abbrev pub has_key : (R → Text) → Text → List R → Bool
  has_key id k [] = false
  has_key id k (x ∷ xs) = if text_eq k (id x) then true else has_key id k xs

-- The conditions of the statements are the arguments of type `R → Bool`. A row that is deleted
-- softly is no row to any statement.
pub record Table (R : Type 0) : Type 1 where
  pub Store : Type 0
  pub rows : Store → List R
  pub first : (R → Bool) → Store → Outcome DbError R
  pub find : (R → Bool) → Store → Outcome DbError (List R)
  pub count : (R → Bool) → Store → Outcome DbError ℕ
  pub create : R → Store → Store × Option DbError
  pub save : R → Store → Store × Option DbError
  pub update : (R → Bool) → (R → R) → Store → Store × (ℕ × Option DbError)
  pub delete : (R → Bool) → Store → Store × (ℕ × Option DbError)

-- A server that answers. `create` may still be refused by a constraint; it then changes nothing.
module _ {R : Type 0} (m : Model R) (t : Table R) where
  open m use {id, stamp}
  open t use {Store, rows, first, find, count, create, save, update, delete}

  pub record Lawful : Type 0 where
    pub keyed : (s : Store) → IsKeyed id (rows s)
    pub first_reply : (p : R → Bool) (s : Store) → first p s ≡ first_of (keep p (rows s))
    pub find_reply : (p : R → Bool) (s : Store) → find p s ≡ ok (keep p (rows s))
    pub count_reply : (p : R → Bool) (s : Store) → count p s ≡ ok (length (keep p (rows s)))
    pub create_rows :
        (r : R) (s : Store) → (create r s).1 ≡ none → rows (create r s).0 ≡ placed id r (rows s)
    pub create_refused :
        (r : R) (e : DbError) (s : Store) → (create r s).1 ≡ some e → rows (create r s).0 ≡ rows s
    pub save_rows :
        (r : R) (s : Store)
        → has_key id (id r) (rows s) ≡ true
        → ((save r s).1 ≡ none)
          × ((now : ℕ) × (rows (save r s).0 ≡ replaced id (stamp now r) (rows s)))
    pub update_rows :
        (p : R → Bool) (f : R → R) (s : Store)
        → ((x : R) → id (f x) ≡ id x)
        → ((update p f s).1 ≡ (length (keep p (rows s)), none))
          × ((now : ℕ) × (rows (update p f s).0 ≡ changed p (λ x. stamp now (f x)) (rows s)))
    pub delete_rows :
        (p : R → Bool) (s : Store)
        → ((delete p s).1 ≡ (length (keep p (rows s)), none))
          × (rows (delete p s).0 ≡ removed p (rows s))
