-- ===== src/Database.antt =====
-- persistence/database.py: session_scope among the cancellations of the task that uses it.
mod Calm
pub mod Closed
mod Steps
mod Tests
mod Waits
use z_apply_backend.Base.{
  ℕ, ◌+◌, Bool, true, String, Option, none, some, List, [], ◌∷◌, if◌then◌else◌,
}
use z_apply_backend.Models.{Db}
use z_apply_backend.Repo.{Error, Result, ok, err, Tx, ◌>>◌, pure}

-- What is raised inside: a constraint or a value that is refused, or any other exception by its name.
pub data Exception : Type 0 where
  refused : Error → Exception
  other : String → Exception

-- How the `async with session_scope(…)` of a task ends: its body returned, an exception goes on,
-- or the CancelledError does.
pub data ScopeEnd : Type 0 where
  returned was_cancelled : ScopeEnd
  raised : Exception → ScopeEnd

-- Where the task waits: in `session.begin()` with the statements of the body to come, in the body,
-- in the commit or in the rollback of `__aexit__`, in `await asyncio.shield(…)`, or nowhere more.
pub data ScopePhase : Type 0 where
  entering within : List (Tx (Unit {0})) → ScopePhase
  committing : ScopePhase
  rolling_back closing ended : ScopeEnd → ScopePhase

-- The task of `session.close()`: not created yet, running, or at its end.
pub data CloseTask : Type 0 where
  idle running : CloseTask
  finished : Option Exception → CloseTask

-- The committed tables, what the transaction makes of them, and how often a close was begun.
pub record Scope : Type 0 where
  pub db : Db
  pub view : Db
  pub phase : ScopePhase
  pub close : CloseTask
  pub closings : ℕ

-- What happens next: what the task waits for is done; it raises; the task is cancelled; or the task
-- of the close ends. An interrupted commit may have reached the server or not.
pub data Awaited : Type 0 where
  resumes : Awaited
  fails : Bool → Exception → Awaited
  is_cancelled : Bool → Awaited
  closes : Option Exception → Awaited

-- `finally: await asyncio.shield(session.close())`: the task of the close is there before the await.
unfoldable pub finally : ScopeEnd → Scope → Scope
finally o w = record w { phase = closing o; close = running; closings = w.closings + 1 }

-- An exception leaves the body: `session.begin()` rolls back, if it was entered.
unfoldable pub leave : Bool → ScopeEnd → Scope → Scope
leave begin o w = if begin then record w { phase = rolling_back o } else finally o w

unfoldable pub executed : Bool → List (Tx (Unit {0})) → Result (Unit {0} × Db) → Scope → Scope
executed begin rest (ok (done', view)) w = record w { view = view; phase = within rest }
executed begin rest (err e) w = leave begin (raised (refused e)) w

unfoldable pub commit : Bool → Scope → Scope
commit landed w = record w { db = if landed then w.view else w.db }

unfoldable pub close_ends : Option Exception → CloseTask → Scope → Scope
close_ends e running w = record w { close = finished e }
close_ends e idle w = w
close_ends e (finished before) w = w

-- The shield is awaited until the close is at its end, whose exception goes on in the task.
unfoldable pub shielded : ScopeEnd → CloseTask → Scope → Scope
shielded o (finished none) w = record w { phase = ended o }
shielded o (finished (some e)) w = record w { phase = ended (raised e) }
shielded o idle w = w
shielded o running w = w

unfoldable pub resume : Bool → ScopePhase → Scope → Scope
unfolding executed
resume begin (entering statements) w = record w { phase = within statements }
resume begin (within []) w = if begin then record w { phase = committing } else finally returned w
resume begin (within (statement ∷ rest)) w = executed begin rest (statement w.view) w
resume begin committing w = finally returned (commit true w)
resume begin (rolling_back o) w = finally o w
resume begin (closing o) w = shielded o w.close w
resume begin (ended o) w = w

-- The await raises: `o` is the exception, and `landed` whether a commit was done nevertheless.
unfoldable pub interrupt : Bool → Bool → ScopeEnd → ScopePhase → Scope → Scope
interrupt begin landed o (entering statements) w = finally o w
interrupt begin landed o (within statements) w = leave begin o w
interrupt begin landed o committing w = finally o (commit landed w)
interrupt begin landed o (rolling_back before) w = finally o w
interrupt begin landed o (closing before) w = record w { phase = ended o }
interrupt begin landed o (ended before) w = w

-- While the shield is awaited nothing but the close and a cancellation can end the wait.
unfoldable pub fail : Bool → Bool → Exception → ScopePhase → Scope → Scope
fail begin landed e (closing o) w = w
fail begin landed e (entering statements) w =
    interrupt begin landed (raised e) (entering statements) w
fail begin landed e (within statements) w = interrupt begin landed (raised e) (within statements) w
fail begin landed e committing w = interrupt begin landed (raised e) committing w
fail begin landed e (rolling_back o) w = interrupt begin landed (raised e) (rolling_back o) w
fail begin landed e (ended o) w = w

unfoldable pub step : Bool → Awaited → Scope → Scope
step begin resumes w = resume begin w.phase w
step begin (fails landed e) w = fail begin landed e w.phase w
step begin (is_cancelled landed) w = interrupt begin landed was_cancelled w.phase w
step begin (closes e) w = close_ends e w.close w

-- Whatever happens, in whatever order.
unfoldable pub run : Bool → List Awaited → Scope → Scope
run begin [] w = w
run begin (event ∷ events) w = run begin events (step begin event w)

-- `session = sessions()` waits for nothing; without `begin` the body follows at once.
unfoldable pub open_scope : Bool → List (Tx (Unit {0})) → Db → Scope
open_scope begin statements db = record {
  db = db;
  view = db;
  phase = if begin then entering statements else within statements;
  close = idle;
  closings = 0;
}

-- The body as one transaction: its statements one after the other.
unfoldable pub all_of : List (Tx (Unit {0})) → Tx (Unit {0})
all_of [] = pure tt
all_of (statement ∷ rest) = statement >> all_of rest
