-- ===== src/Api/Forgotten.antt =====
-- GET /runs/{id} before and after the Core lets go of a run.
use z_apply_backend.Api.{get_run_detail, detail_answer, row_answer, view_answer, response_of}
use z_apply_backend.Base.{◌≡◌, sym, ap, ◌∙◌, none, some}
use z_apply_backend.Json.{Python}
use z_apply_backend.Models.{Uuid, Datetime, Db, CoreRunView}
use z_apply_backend.Repo.Events.{run_values}
use z_apply_backend.Repo.Runs.{get_run, new_run}
use z_apply_backend.Schemas.{from_core_view, from_row}
use z_apply_backend.Schemas.Agreement.{from_row-from_core_view}
use z_apply_backend.Store.{Core}

module _ (py : Python) (db : Db) (run_id : Uuid) where
  held :
      (core : Core) (handle : core.Handle) (view : CoreRunView)
      → core.get_run (py.print_uuid run_id) ≡ some handle
      → core.view handle ≡ some view
      → get_run_detail py core db run_id ≡ response_of (from_core_view py view)
  unfolding get_run_detail detail_answer view_answer
  held core handle view got seen =
      ap (detail_answer py core db run_id) got ∙ ap (view_answer py) seen

  -- While the Core holds a run, GET /runs/{id} answers from its view. When the Core has let go of
  -- it, the answer is the same, if the row was created from a view with the same creation time and
  -- last updated from this view.
  pub get_run_detail-forgotten :
      (before after : Core) (handle : before.Handle) (first view : CoreRunView) (now : Datetime)
      → before.get_run (py.print_uuid run_id) ≡ some handle
      → before.view handle ≡ some view
      → after.get_run (py.print_uuid run_id) ≡ none
      → get_run db run_id
        ≡ some (record (run_values view (new_run run_id first)) { updated_at = now })
      → py.parse_uuid view.run_id ≡ some run_id
      → view.created_at ≡ first.created_at
      → get_run_detail py before db run_id ≡ get_run_detail py after db run_id
  unfolding get_run_detail detail_answer row_answer
  get_run_detail-forgotten before after handle first view now got seen gone stored parsed created =
      held before handle view got seen
      ∙ sym (
          forgotten
          ∙ ap response_of (from_row-from_core_view py first view run_id now parsed created))
    where
      forgotten :
          get_run_detail py after db run_id
          ≡ response_of
              (from_row (record (run_values view (new_run run_id first)) { updated_at = now }))
      forgotten = ap (detail_answer py after db run_id) gone ∙ ap row_answer stored
