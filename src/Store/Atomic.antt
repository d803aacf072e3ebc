-- ===== src/Store/Atomic.antt =====
-- `EventStore.accept` as a whole, by its outcome.
use z_apply_backend.Base.{
  ◌≡◌, refl, sym, ap, ◌∙◌, subst, Option, none, some, List, [], ◌∷◌, ◌++◌, arith, str_eq, inl, inr,
  Bool-cases,
}
use z_apply_backend.Hub.{StoredEvent, publish}
use z_apply_backend.Hub.Laws.{publish-total}
use z_apply_backend.Base.Int.{pos}
use z_apply_backend.Json.{Python, field, int}
use z_apply_backend.Models.{
  Datetime, RunEventRow, Db, CoreRunView, CoreEvent, CoreHumanRequest, CoreArtifact,
}
use z_apply_backend.Repo.{Error, Result, ok, err, Tx, ◌>>◌, pure, session_scope}
use z_apply_backend.Repo.Events.{persist_event}
use z_apply_backend.Repo.Persist.{persist_event-Persisted}
use z_apply_backend.Repo.Quiet.{
  Quiet, >>=-eq-ok, Quiet-pure, Quiet-then, upsert_human_request-Quiet, upsert_artifact-Quiet,
  insert_model_call-Quiet, SameRuns-IsValid,
}
use z_apply_backend.Repo.Records.{upsert_human_request, upsert_artifact}
use z_apply_backend.Repo.Valid.{IsValid}
use z_apply_backend.Sql.{Postgres}
use z_apply_backend.Store.{
  Core, Backend, Outcome, publish_failed, stored, each, each_optional, ledger, write_event,
  stored_event, publish_row, published, accept_files, accept_humans, accept_handle, accept_view,
  accept,
}

each-Quiet :
    {A : Type 0} (f : A → Tx Unit) → ((a : A) → Quiet (f a)) → (xs : List A) → Quiet (each f xs)
unfolding each
each-Quiet f q [] = Quiet-pure tt
each-Quiet f q (x ∷ xs) = Quiet-then (q x) (each-Quiet f q xs)

each_optional-Quiet :
    {A : Type 0} (f : A → Tx Unit)
    → ((a : A) → Quiet (f a))
    → (xs : Option (List A)) → Quiet (each_optional f xs)
unfolding each_optional
each_optional-Quiet f q none = Quiet-pure tt
each_optional-Quiet f q (some xs) = each-Quiet f q xs

ledger-Quiet : (pg : Postgres) (py : Python) (event : CoreEvent) → Quiet (ledger pg py event)
unfolding ledger
ledger-Quiet pg py event = elim (Bool-cases (str_eq event.kind "model.call.metrics")) [
  | inl yes' ↦ rw yes' (insert_model_call-Quiet pg py event)
  | inr no' ↦ rw no' (Quiet-pure tt)
]

-- The events grow by the one row, which has every column from the event, but for the key, the next
-- number of the sequence; valid tables stay valid.
pub record Written (pg : Postgres) (py : Python) (event : CoreEvent) (db : Db) (row : RunEventRow)
    (db' : Db) : Type 0 where
  pub parsed : py.parse_uuid event.run_id ≡ some row.run_id
  pub sequence : row.run_sequence ≡ event.sequence
  pub kind : row.kind ≡ event.kind
  pub key : row.id ≡ pg.nextval db.last_event_id
  pub occurred_at : row.occurred_at ≡ event.occurred_at
  pub source : row.source ≡ event.source
  pub level : row.level ≡ event.level
  pub payload : row.payload ≡ event.payload
  pub appended : db'.events ≡ db.events ++ row ∷ []
  pub valid : IsValid db → IsValid db'

then-eq-ok :
    {A B : Type 0} (m : Tx A) (k : Tx B) (db db' : Db) (b : B)
    → (m >> k) db ≡ ok (b, db')
    → (mid : Db) × (k mid ≡ ok (b, db'))
then-eq-ok m k db db' b e =
    let (a, mid, first, rest) = >>=-eq-ok m (λ _. k) db db' b e in (mid, rest)

pure-eq-ok : {A : Type 0} (a b : A) (db db' : Db) → pure a db ≡ ok (b, db') → a ≡ b
pure-eq-ok a b db db' e = cc

module _ (pg : Postgres) (py : Python) (now : Datetime) (event : CoreEvent) (view : CoreRunView)
    (humans : Option (List CoreHumanRequest)) (files : Option (List CoreArtifact)) where
  -- The transaction after its first statement.
  abbrev after_row : RunEventRow → Tx RunEventRow
  after_row row =
      ledger pg py event
      >> (each_optional (upsert_human_request py) humans
          >> (each_optional (upsert_artifact py) files >> pure row))

  after_row-Quiet : (row : RunEventRow) → Quiet (after_row row)
  after_row-Quiet row = Quiet-then (ledger-Quiet pg py event) (
      Quiet-then (each_optional-Quiet _ (upsert_human_request-Quiet py) humans)
        (Quiet-then (each_optional-Quiet _ (upsert_artifact-Quiet py) files) (Quiet-pure row)))

  after_row-returns : (row r : RunEventRow) (db db' : Db) → after_row row db ≡ ok (r, db') → row ≡ r
  after_row-returns row r db db' e =
      let (m1, e1) = then-eq-ok (ledger pg py event) _ db db' r e in
      let (m2, e2) = then-eq-ok (each_optional (upsert_human_request py) humans) _ m1 db' r e1 in
      let (m3, e3) = then-eq-ok (each_optional (upsert_artifact py) files) _ m2 db' r e2 in
      pure-eq-ok row r m3 db' e3

  write_event-Written :
      (db db' : Db) (row : RunEventRow)
      → write_event pg py now event view humans files db ≡ ok (row, db')
      → Written pg py event db row db'
  unfolding write_event
  write_event-Written db db' row e =
      let (r, mid, first, rest) =
        >>=-eq-ok (persist_event pg py now event view) after_row db db' row e in
      let p = persist_event-Persisted pg py now event view db mid r first in
      let same = (after_row-Quiet r).same row mid db' rest in
      subst (λ x. Written pg py event db x db') (after_row-returns r row mid db' rest)
        (record {
          parsed = p.parsed;
          sequence = p.sequence;
          kind = p.kind;
          key = p.key;
          occurred_at = p.occurred_at;
          source = p.source;
          level = p.level;
          payload = p.payload;
          appended = same.1 ∙ p.appended;
          valid = λ v. SameRuns-IsValid mid db' same (p.valid v);
        })

module _ (pg : Postgres) (py : Python) (core : Core) (now : Datetime) (event : CoreEvent)
    (b : Backend) where
  -- What an outcome of `accept` says of the backend after it.
  abbrev pub Accepts : Outcome → Backend → Type 0
  Accepts (stored row) b' =
      Written pg py event b.db row b'.db
      × ((sent : StoredEvent) × (sent.id ≡ row.id)
          × (sent.event_type ≡ row.kind)
          × (sent.body ≡ field "database_id" (int (pos row.id)) (core.to_dict event))
          × (publish b.hub sent ≡ some b'.hub))
  Accepts publish_failed b' = ⊥
  Accepts _ b' = b' ≡ b

  sent_id : (row : RunEventRow) → (stored_event core event row).id ≡ row.id
  unfolding stored_event
  sent_id row = refl

  sent_kind :
      {db db' : Db} (row : RunEventRow)
      → Written pg py event db row db'
      → (stored_event core event row).event_type ≡ row.kind
  unfolding stored_event
  sent_kind row w = sym w.kind

  sent_body :
      (row : RunEventRow)
      → (stored_event core event row).body
        ≡ field "database_id" (int (pos row.id)) (core.to_dict event)
  unfolding stored_event
  sent_body row = refl

  publish_row-Accepts :
      (r : Result RunEventRow × Db)
      → ((row : RunEventRow) → r.0 ≡ ok row → Written pg py event b.db row r.1)
      → ((e : Error) → r.0 ≡ err e → r.1 ≡ b.db)
      → let (o, b') = publish_row pg py core now event b r in Accepts o b'
  unfolding publish_row published
  publish_row-Accepts (err e, db) good bad = ap (λ d. record b { db = d }) (bad e refl)
  publish_row-Accepts (ok row, db) good bad =
      let total = publish-total b.hub (stored_event core event row) in
      subst (λ r. let (o, b') = published row b.hub db r in Accepts o b') (sym total)
        (
          good row refl,
          (
            stored_event core event row,
            sent_id row,
            sent_kind row (good row refl),
            sent_body row,
            total,
          ),
        )

  scope-ok :
      (m : Tx RunEventRow) (row : RunEventRow)
      → (session_scope m b.db).0 ≡ ok row
      → m b.db ≡ ok (row, (session_scope m b.db).1)
  unfolding session_scope
  scope-ok m row e = ground arith

  scope-err :
      (m : Tx RunEventRow) (x : Error)
      → (session_scope m b.db).0 ≡ err x
      → (session_scope m b.db).1 ≡ b.db
  unfolding session_scope
  scope-err m x e = ground arith

  accept_files-Accepts :
      (view : CoreRunView) (humans : Option (List CoreHumanRequest))
      (files : Option (Option (List CoreArtifact)))
      → let (o, b') = accept_files pg py core now event b view humans files in Accepts o b'
  unfolding accept_files
  accept_files-Accepts view humans none = refl
  accept_files-Accepts view humans (some files) =
      let m = write_event pg py now event view humans files in
      publish_row-Accepts (session_scope m b.db)
        (λ row e.
          write_event-Written pg py now event view humans files b.db _ row (scope-ok m row e))
        (scope-err m)

  accept_humans-Accepts :
      (handle : core.Handle) (view : CoreRunView) (humans : Option (Option (List CoreHumanRequest)))
      → let (o, b') = accept_humans pg py core now event b handle view humans in Accepts o b'
  unfolding accept_humans
  accept_humans-Accepts handle view none = refl
  accept_humans-Accepts handle view (some humans) = accept_files-Accepts view humans _

  accept_view-Accepts :
      (handle : core.Handle) (view : Option CoreRunView)
      → let (o, b') = accept_view pg py core now event b handle view in Accepts o b'
  unfolding accept_view
  accept_view-Accepts handle none = refl
  accept_view-Accepts handle (some view) = accept_humans-Accepts handle view _

  accept_handle-Accepts :
      (handle : Option core.Handle)
      → let (o, b') = accept_handle pg py core now event b handle in Accepts o b'
  unfolding accept_handle
  accept_handle-Accepts none = refl
  accept_handle-Accepts (some handle) = accept_view-Accepts handle (core.view handle)

-- `accept` either writes the event as one row behind the others, with every column from the event
-- and the next key of the sequence, and publishes it with that key, its kind and, as the body, what
-- `to_dict` gives with the key in front as database_id; or it leaves the tables and every subscriber's queue as they
-- were: for an unknown run, an exception of the Core, or a failed transaction. Publishing never
-- raises after the commit.
pub accept_atomic :
    (pg : Postgres) (py : Python) (core : Core) (now : Datetime) (event : CoreEvent) (b : Backend)
    → let (o, b') = accept pg py core now event b in Accepts pg py core now event b o b'
unfolding accept
accept_atomic pg py core now event b =
    accept_handle-Accepts pg py core now event b (core.get_run event.run_id)
