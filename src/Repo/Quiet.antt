-- ===== src/Repo/Quiet.antt =====
-- Repository functions and the rows of runs and events: the upserts and the ledger.
use mathlib.Core.Path.{subst₂}
use z_apply_backend.Base.{
  String, true, ℕ, ◌≡◌, refl, ◌∙◌, subst, sym, All, ◌≤◌, ◌<◌, Option, none, some, arith,
}
use z_apply_backend.Json.{Python}
use z_apply_backend.Models.{
  RunEventRow, HumanRequestRow, ArtifactRow, ModelCallRow, Db, CoreEvent, CoreHumanRequest,
  CoreArtifact,
}
use z_apply_backend.Repo.{Result, ok, err, Tx, ◌>>=◌, ◌>>◌, pure, accepted}
use z_apply_backend.Repo.Calls.{insert_call, insert_model_call}
use z_apply_backend.Repo.Records.{
  store_human, parse_optional, upsert_human_request, store_artifact, upsert_artifact,
}
use z_apply_backend.Repo.Events.{has_run}
use z_apply_backend.Repo.Queries.{by_id}
use z_apply_backend.Repo.Valid.{IsValid, UniqueSequences, UniqueKeys}
use z_apply_backend.Sql.{Postgres}
use z_apply_backend.Sql.Order.{Strict}

-- The runs and events of the tables are as they were.
abbrev pub SameRuns : Db → Db → Type 0
SameRuns db db' =
    (db'.runs ≡ db.runs) × (db'.events ≡ db.events) × (db'.last_event_id ≡ db.last_event_id)

pub record Quiet {A : Type 0} (m : Tx A) : Type 0 where
  pub same : (a : A) (db db' : Db) → m db ≡ ok (a, db') → SameRuns db db'

-- What a successful action of two steps went through.
pub >>=-eq-ok :
    {A B : Type 0} (m : Tx A) (f : A → Tx B) (db db' : Db) (b : B)
    → (m >>= f) db ≡ ok (b, db')
    → (a : A) × (mid : Db) × (m db ≡ ok (a, mid)) × (f a mid ≡ ok (b, db'))
>>=-eq-ok {A} {B} m f db db' b e = go (m db) refl e
  where
    follow : Result (A × Db) → Result (B × Db)
    follow r = elim r [ err x ↦ err x | ok (a, mid) ↦ f a mid ]

    go :
        (r : Result (A × Db))
        → m db ≡ r
        → follow r ≡ ok (b, db')
        → (a : A) × (mid : Db) × (m db ≡ ok (a, mid)) × (f a mid ≡ ok (b, db'))
    go (ok (a, mid)) s h = (a, mid, s, h)
    go (err x) s h = cc

SameRuns-trans : (a b c : Db) → SameRuns a b → SameRuns b c → SameRuns a c
SameRuns-trans a b c p q = (q.0 ∙ p.0, q.1 ∙ p.1, q.2 ∙ p.2)

pub Quiet-pure : {A : Type 0} (x : A) → Quiet (pure x)
Quiet-pure x = record { same = λ a db db' e. ground arith }

pub Quiet-accepted : {A : Type 0} (x : Option A) → Quiet (accepted x)
Quiet-accepted none = record { same = λ a db db' e. cc }
Quiet-accepted (some x) = record { same = λ a db db' e. ground arith }

pub Quiet-bind :
    {A B : Type 0} {m : Tx A} {f : A → Tx B} → Quiet m → ((a : A) → Quiet (f a)) → Quiet (m >>= f)
Quiet-bind {m} {f} p q = record {
  same = λ b db db' e.
      let (a, mid, first, rest) = >>=-eq-ok m f db db' b e in
      SameRuns-trans db mid db' (p.same a db mid first) ((q a).same b mid db' rest);
}

pub Quiet-then : {A B : Type 0} {m : Tx A} {k : Tx B} → Quiet m → Quiet k → Quiet (m >> k)
Quiet-then p q = Quiet-bind p (λ _. q)

store_human-Quiet : (row : HumanRequestRow) → Quiet (store_human row)
unfolding store_human
store_human-Quiet row = record { same = λ a db db' e. ground arith }

store_artifact-Quiet : (row : ArtifactRow) → Quiet (store_artifact row)
unfolding store_artifact
store_artifact-Quiet row = record { same = λ a db db' e. ground arith }

insert_call-Quiet : (pg : Postgres) (make : ℕ → ModelCallRow) → Quiet (insert_call pg make)
unfolding insert_call
insert_call-Quiet pg make = record { same = λ a db db' e. ground arith }

ruleset quiet = (
  Quiet-pure, Quiet-accepted, Quiet-bind, Quiet-then, store_human-Quiet, store_artifact-Quiet,
  insert_call-Quiet,
)

parse_optional-Quiet : (py : Python) (text : Option String) → Quiet (parse_optional py text)
unfolding parse_optional
parse_optional-Quiet py none = Quiet-pure none
parse_optional-Quiet py (some text) = search quiet

pub upsert_human_request-Quiet :
    (py : Python) (request : CoreHumanRequest) → Quiet (upsert_human_request py request)
unfolding upsert_human_request
upsert_human_request-Quiet py request = search (quiet, parse_optional-Quiet)

pub upsert_artifact-Quiet :
    (py : Python) (artifact : CoreArtifact) → Quiet (upsert_artifact py artifact)
unfolding upsert_artifact
upsert_artifact-Quiet py artifact = search quiet

pub insert_model_call-Quiet :
    (pg : Postgres) (py : Python) (event : CoreEvent) → Quiet (insert_model_call pg py event)
unfolding insert_model_call
insert_model_call-Quiet pg py event = search quiet depth 20

-- Validity speaks of the runs and events only.
pub SameRuns-IsValid : (db db' : Db) → SameRuns db db' → IsValid db → IsValid db'
SameRuns-IsValid db db' s v = record {
  ordered = subst (Strict by_id) (sym s.1) v.ordered;
  numbered =
      subst₂ (λ rows last. All (λ (e : RunEventRow). (0 < e.id) × (e.id ≤ last)) rows) (sym s.1)
        (sym s.2) v.numbered;
  sequences = subst UniqueSequences (sym s.1) v.sequences;
  owned =
      subst₂ (λ rows runs. All (λ (e : RunEventRow). has_run e.run_id runs ≡ true) rows) (sym s.1)
        (sym s.0) v.owned;
  keys = subst UniqueKeys (sym s.0) v.keys;
}
