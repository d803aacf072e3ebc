-- ===== src/Sql.antt =====
-- What the repositories rely on of PostgreSQL (through SQLAlchemy): ORDER BY, sequences and column values. The
-- database is not code of this repository, so these are parameters with their documented behaviour.
pub mod Order
pub mod Sorting
use Order.{IsTotal, IsTransitive, Ordering}
use z_apply_backend.Base.Int.{ℤ}
use z_apply_backend.Base.{ℕ, ◌<◌, ◌≡◌, Bool, Option, none, some, List}
use z_apply_backend.Json.{Value, null, int, float}

-- `int_column` and `float_column` are what the driver makes of a value for a nullable column; `none`
-- is an error.
-- `order_by` lists the selected rows by a test that says when one row may stand before another;
-- rows that may stand either way come in any order. `nextval` gives the number after the last one
-- that a sequence gave out: it grows, and may skip numbers.
pub record Postgres : Type 1 where
  pub order_by : {A : Type 0} → (A → A → Bool) → List A → List A
  pub order_by-Ordering :
      {A : Type 0} (le : A → A → Bool)
      → IsTotal le
      → IsTransitive le
      → (rows : List A) → Ordering le rows (order_by le rows)
  pub nextval : ℕ → ℕ
  pub nextval_grows : (last : ℕ) → last < nextval last
  pub int_column : Value → Option (Option ℤ)
  pub int_column-null : int_column null ≡ some none
  pub int_column-int : (n : ℤ) → int_column (int n) ≡ some (some n)
  pub float_column : Value → Option (Option ℕ)
  pub float_column-null : float_column null ≡ some none
  pub float_column-float : (bits : ℕ) → float_column (float bits) ≡ some (some bits)
