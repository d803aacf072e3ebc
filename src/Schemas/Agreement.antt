-- ===== src/Schemas/Agreement.antt =====
-- The two sources of a RunResponse: the Core's view and the stored row.
use z_apply_backend.Base.{ℕ, ◌≡◌, some}
use z_apply_backend.Json.{Python}
use z_apply_backend.Models.{CoreRunView, Datetime}
use z_apply_backend.Repo.Events.{run_values}
use z_apply_backend.Repo.Runs.{new_run}
use z_apply_backend.Schemas.{from_core_view, from_row}

-- A row that was created from one view of a run and then updated from another of the same creation
-- time, at whatever moments, is answered exactly as the second view is.
pub from_row-from_core_view :
    (py : Python) (first view : CoreRunView) (id : ℕ) (now : Datetime)
    → py.parse_uuid view.run_id ≡ some id
    → view.created_at ≡ first.created_at
    → from_row (record (run_values view (new_run id first)) { updated_at = now })
      ≡ from_core_view py view
unfolding from_row from_core_view run_values new_run
from_row-from_core_view py first view id now parsed created =
    rw created (rw (parsed, from_core_view))
