-- ===== src/Repo.antt =====
-- persistence/repositories.py and the transactions of persistence/database.py. A repository
-- function is an action on the tables inside a transaction: it gives a result and the new tables,
-- or an error, on which the transaction is rolled back.
pub mod Binds
pub mod Calls
pub mod Events
pub mod Failed
pub mod Records
pub mod Runs
pub mod Interrupt
pub mod Pages
pub mod Persist
pub mod Queries
pub mod Quiet
pub mod Restart
pub mod Totals
pub mod Upserts
pub mod Valid
mod Tests
use z_apply_backend.Base.{Option, none, some}
use z_apply_backend.Models.{Db}

-- A value that `UUID(...)` or `int(...)` rejects; a constraint of the schema that is violated.
pub data Error : Type 0 where
  value_error integrity_error : Error

pub data Result {ℓ} (A : Type ℓ) : Type ℓ where
  ok : A → Result A
  err : Error → Result A

abbrev pub Tx : Type 0 → Type 0
Tx A = Db → Result (A × Db)

abbrev pub pure : {A : Type 0} → A → Tx A
pure a db = ok (a, db)

infixl 5 ◌>>=◌ ◌>>◌
abbrev pub ◌>>=◌ : {A B : Type 0} → Tx A → (A → Tx B) → Tx B
◌>>=◌ m f db = elim (m db) [ err e ↦ err e | ok (a, db') ↦ f a db' ]

abbrev pub ◌>>◌ : {A B : Type 0} → Tx A → Tx B → Tx B
m >> k = m >>= λ _. k

abbrev pub tables : Tx Db
tables db = ok (db, db)

-- A value that the standard library may refuse.
abbrev pub accepted : {A : Type 0} → Option A → Tx A
accepted none db = err value_error
accepted (some a) db = ok (a, db)

-- `async with session_scope(sessions, begin=True)`: committed as a whole, or not at all.
unfoldable pub session_scope : {A : Type 0} → Tx A → Db → Result A × Db
session_scope body db = elim (body db) [ err e ↦ (err e, db) | ok (a, db') ↦ (ok a, db') ]
