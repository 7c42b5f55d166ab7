-- ===== src/Store.antt =====
-- The database as the services see it through TypeORM: a table of rows under a primary key. The
-- database is no part of the repository, so a table is an interface that the services take as a
-- parameter: its operations, and the documented behaviour that the services rely on.
mod Sorting
pub mod Memory
use elchi_backend.Prelude.{
  ℕ, ◌≡◌, ◌≢◌, Bool, true, false, Option, none, some, List, [], ◌∷◌, ◌++◌, map_if, any, Occurs, All,
  Option-cases, not-any-Occurs, inl, inr, ◌≤◌, ◌<◌, arith, if◌then◌else◌,
}

-- The rows stand in ascending order of a column.
abbrev pub IsAscending : {Row : Type 0} → (Row → ℕ) → List Row → Type 0
IsAscending column [] = Unit
IsAscending column (x ∷ xs) = All (λ y. column x ≤ column y) xs × IsAscending column xs

-- `rows` lists the rows of a state in an order that no operation promises.
pub record Table (Row : Type 0) (key : Row → ℕ) : Type 1 where
  pub State : Type 0
  pub rows : State → List Row
  -- `findOne({ where })`
  pub find_one : State → (Row → Bool) → Option Row
  -- `find({ where, order: { column: 'ASC' } })`, with the column as a number
  pub find_by : State → (Row → Bool) → (Row → ℕ) → List Row
  -- The primary key that the next insert is given.
  pub next_key : State → ℕ
  -- `save` of a new entity
  pub insert : State → Row → State
  -- `update ... where`, and `save` of a loaded entity
  pub update : State → (Row → Bool) → (Row → Row) → State
  -- What `findOne` returns is a row of the table that meets the condition, and it returns null
  -- only when no row does.
  pub find_one-Occurs :
      (s : State) (q : Row → Bool) (r : Row) → find_one s q ≡ some r → Occurs r (rows s)
  pub find_one-meets : (s : State) (q : Row → Bool) (r : Row) → find_one s q ≡ some r → q r ≡ true
  pub find_one-none : (s : State) (q : Row → Bool) → find_one s q ≡ none → any q (rows s) ≡ false
  -- `find` returns the rows that meet the condition, all of them and no other, in ascending order.
  pub find_by-Occurs :
      (s : State) (q : Row → Bool) (column : Row → ℕ) (r : Row)
      → Occurs r (find_by s q column)
      → Occurs r (rows s) × (q r ≡ true)
  pub find_by-all :
      (s : State) (q : Row → Bool) (column : Row → ℕ) (r : Row)
      → Occurs r (rows s)
      → q r ≡ true
      → Occurs r (find_by s q column)
  pub find_by-IsAscending :
      (s : State) (q : Row → Bool) (column : Row → ℕ) → IsAscending column (find_by s q column)
  -- A sequence gives ascending keys.
  pub next_key-lt : (s : State) (r : Row) → Occurs r (rows s) → key r < next_key s
  pub rows-insert : (s : State) (r : Row) → rows (insert s r) ≡ rows s ++ r ∷ []
  pub rows-update :
      (s : State) (q : Row → Bool) (f : Row → Row) → rows (update s q f) ≡ map_if q f (rows s)

-- A row that meets a condition makes `findOne` return one.
pub find_one-some :
    {Row : Type 0} {key : Row → ℕ} (T : Table Row key) (s : T.State) (q : Row → Bool) (r : Row)
    → Occurs r (T.rows s)
    → q r ≡ true
    → (d : Row) × (T.find_one s q ≡ some d)
find_one-some T s q r o t = elim (Option-cases (T.find_one s q)) [
  | inl gone ↦ (r, (cc (not-any-Occurs q (T.rows s) r (T.find_one-none s q gone) o, t)))
  | inr (d, e) ↦ (d, e)
]

pub next_key-ne :
    {Row : Type 0} {key : Row → ℕ} (T : Table Row key) (s : T.State) (r : Row)
    → Occurs r (T.rows s)
    → key r ≢ T.next_key s
next_key-ne T s r o = omega (arith, T.next_key-lt s r o)
