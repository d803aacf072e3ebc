-- ===== src/Database/Closed.antt =====
-- What is left when a scope ends, whatever was cancelled or raised on the way.
use z_apply_backend.Database.Steps.{resume-Waits, fail-Waits, interrupt-Waits, close_ends-Waits}
use z_apply_backend.Base.{inl, inr, Bool, true, false, if◌then◌else◌, arith}
use z_apply_backend.Repo.{ok, session_scope}
use z_apply_backend.Database.{all_of}
use z_apply_backend.Database.Waits.{Left-Whole, IsBegun, Left, After, Waits}
use z_apply_backend.Base.{
  ◌≡◌, refl, subst, Bool, true, false, Option, none, List, [], ◌∷◌, if◌then◌else◌,
}
use z_apply_backend.Models.{Db}
use z_apply_backend.Repo.{Tx}
use z_apply_backend.Database.{
  Exception, ScopeEnd, was_cancelled, entering, within, ended, CloseTask, idle, running, finished,
  Scope, Awaited, resumes, fails, is_cancelled, closes, close_ends, step, run, open_scope,
}

module _ (begin : Bool) (statements : List (Tx (Unit {0}))) (db : Db) where
  step-Waits :
      (event : Awaited) (w : Scope)
      → Waits begin statements db w.phase w
      → Waits begin statements db (step begin event w).phase (step begin event w)
  unfolding step
  step-Waits resumes w h = resume-Waits begin statements db w.phase w refl h
  step-Waits (fails landed x) w h = fail-Waits begin statements db landed x w.phase w refl h
  step-Waits (is_cancelled landed) w h =
      interrupt-Waits begin statements db landed was_cancelled w.phase w tt refl h
  step-Waits (closes x) w h = close_ends-Waits begin statements db x w.close w.phase w refl refl h

  run-Waits :
      (events : List Awaited) (w : Scope)
      → Waits begin statements db w.phase w
      → Waits begin statements db (run begin events w).phase (run begin events w)
  unfolding run
  run-Waits [] w h = h
  run-Waits (event ∷ events) w h = run-Waits events (step begin event w) (step-Waits event w h)

  opened-Waits : let w = open_scope begin statements db in Waits begin statements db w.phase w
  unfolding open_scope
  opened-Waits = opened begin
    where
      opened :
          (b : Bool)
          → Waits begin statements db
              (if b then entering statements else within statements)
              (record {
                db = db;
                view = db;
                phase = if b then entering statements else within statements;
                close = idle;
                closings = 0;
              })
      opened true = (record { same = refl; closings = refl }, refl)
      opened false = (record { same = refl; closings = refl }, refl)

  ends_finished :
      (close : CloseTask) (w : Scope)
      → w.close ≡ close
      → IsBegun close
      → (x : Option Exception) × (close_ends none close w).close ≡ finished x
  unfolding close_ends
  ends_finished idle w c h = absurd h
  ends_finished running w c h = (none, refl)
  ends_finished (finished x) w c h = (x, c)

  -- However its task is cancelled or fails on the way: when a scope has ended, the close of its
  -- session has been begun exactly once, and its task, which no cancellation reaches, needs only to
  -- go on to be at its end. If the body has returned, all of its statements have succeeded and, in
  -- a transaction, are committed; else the tables are those of before, or those of a transaction
  -- that was committed as a whole.
  pub closings-run :
      (events : List Awaited) (o : ScopeEnd)
      → let w = run begin events (open_scope begin statements db) in
        w.phase ≡ ended o
        → Left begin statements db o w.db
          × (w.closings ≡ 1)
          × ((x : Option Exception) × (step begin (closes none) w).close ≡ finished x)
  unfolding step
  closings-run events o e =
      let w = run begin events (open_scope begin statements db) in
      let h : After begin statements db o w =
        subst (λ p. Waits begin statements db p w) e
          (run-Waits events (open_scope begin statements db) opened-Waits) in
      (h.left, h.closings, ends_finished w.close w refl h.begun)

  session_scope-tables :
      (m : Tx (Unit {0})) (before after : Db)
      → m before ≡ ok (tt, after)
      → after ≡ (session_scope m before).1
  unfolding session_scope
  session_scope-tables m before after e = ground arith

  -- When a scope has ended, however it did, the tables are those that `session_scope` of the whole body
  -- gives, or those of before: a transaction that is cut short has landed or not.
  pub run-landed :
      (events : List Awaited) (o : ScopeEnd)
      → (run begin events (open_scope begin statements db)).phase ≡ ended o
      → (landed : Bool) × ((run begin events (open_scope begin statements db)).db
          ≡ (if landed then (session_scope (all_of statements) db).1 else db))
  run-landed events o e =
      let w = run begin events (open_scope begin statements db) in
      let (left, once, finished') = closings-run events o e in
      elim (Left-Whole begin statements db o w.db left) [
        | inl same ↦ (false, same)
        | inr (begun, done') ↦ (true, session_scope-tables (all_of statements) db w.db done')
      ]
