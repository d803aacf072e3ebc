-- ===== src/Schemas/Widths.antt =====
-- The texts of a new run against the widths of the columns that they are inserted into.
use z_apply_backend.Base.{
  ℕ, String, ◌≡◌, ◌≤◌, refl, subst, true, Option, none, some, List, [], ◌∷◌, All, arith, length,
  codes, str_eq, if◌then◌else◌,
}
use z_apply_backend.Json.{Value, null, bool, int, float, str, arr, obj, Fields, get_or_null}
use z_apply_backend.Migrations
use z_apply_backend.Migrations.{ColumnType, text, varchar, Column, runs}
use z_apply_backend.Migrations.Declared.{declared}
use z_apply_backend.Models.{Uuid, Datetime, RunRow}
use z_apply_backend.Repo.Runs.{new_run}
use z_apply_backend.Schemas.Bodies
use z_apply_backend.Schemas.Bodies.{
  bind-some, ◌>>=◌, required, parsed, Pydantic, nullable, optional, StartRunBody, start_run_body,
  start_request,
}
use z_apply_backend.Supervisor.{Defaults, queued_view}

abbrev pub Short : ℕ → Option String → Type 0
Short width none = Unit
Short width (some s) = length (codes s) ≤ width

abbrev column : String → List Column → Option Column
column name [] = none
column name (c ∷ columns) = if str_eq c.name name then some c else column name columns

-- A column of this type holds the text.
abbrev pub Holds : ColumnType → String → Type 0
Holds text s = Unit
Holds (varchar width) s = length (codes s) ≤ width
Holds _ s = ⊥

abbrev pub Takes : Option Column → Option String → Type 0
Takes none value = ⊥
Takes (some c) none = c.nullable ≡ true
Takes (some c) (some s) = Holds c.kind s

-- There is a column of that name, which takes the text, or NULL for none.
abbrev pub Fits : List Column → String × Option String → Type 0
Fits columns (name, value) = Takes (column name columns) value

-- The columns of `RunRow` that hold a text.
abbrev pub texts : RunRow → List (String × Option String)
texts row =
    ("job_url", some row.job_url)
    ∷ ("task", some row.task)
    ∷ ("company", row.company)
    ∷ ("role", row.role)
    ∷ ("status", some row.status)
    ∷ ("phase", some row.phase)
    ∷ ("outcome", row.outcome)
    ∷ ("summary", row.summary)
    ∷ ("current_agent", row.current_agent)
    ∷ ("current_model", row.current_model)
    ∷ ("current_provider", row.current_provider)
    ∷ ("browser_tab_state", some row.browser_tab_state)
    ∷ ("control_mode", some row.control_mode)
    ∷ ("pending_human_request_id", row.pending_human_request_id)
    ∷ ("current_reasoning", some row.current_reasoning)
    ∷ ("current_reasoning_effort", row.current_reasoning_effort)
    ∷ []

-- What the Core's own values are: short enough for the columns of the enumerations.
pub record IsShort (defaults : Defaults) : Type 0 where
  pub status : length (codes defaults.status_queued) ≤ 32
  pub phase : length (codes defaults.phase_queued) ≤ 32
  pub tab : length (codes defaults.tab_pending) ≤ 32
  pub control : length (codes defaults.agent_control) ≤ 32
  pub reasoning : length (codes defaults.reasoning) ≤ 16
  pub effort : Short 16 defaults.reasoning_effort

nullable-Short :
    (low high : ℕ) (v : Value) (o : Option String)
    → nullable (Bodies.text low high) v ≡ some o
    → Short high o
unfolding nullable Bodies.text
nullable-Short low high null none e = tt
nullable-Short low high null (some s) e = cc
nullable-Short low high (str t) none e = tt
nullable-Short low high (str t) (some s) e = ground arith
nullable-Short low high (bool b) o e = cc
nullable-Short low high (int n) o e = cc
nullable-Short low high (float n) o e = cc
nullable-Short low high (arr vs) o e = cc
nullable-Short low high (obj fs) o e = cc

optional-Short :
    (low high : ℕ) (key : String) (body : Fields) (o : Option String)
    → optional (Bodies.text low high) key body ≡ some o
    → Short high o
unfolding optional
optional-Short low high key body o e = nullable-Short low high (get_or_null key body) o e

Short-Takes :
    (name : String) (high : ℕ) (o : Option String)
    → Short high o
    → Takes (some (Migrations.optional name (varchar high))) o
Short-Takes name high none h = refl
Short-Takes name high (some s) h = h

-- The proofs for the members of a list, one after the other.
infixr 3 ◌&◌
abbrev ◌&◌ : {A B : Type 0} → A → B → A × B
a & b = (a, b)

-- The two texts of an accepted body that go into columns with a width.
start_run_body-Short :
    (p : Pydantic) (fields : Fields) (body : StartRunBody)
    → start_run_body p fields ≡ some body
    → Short 80 body.provider × Short 255 body.model
unfolding start_run_body
start_run_body-Short p fields body e =
    let (url, u, e1) = bind-some (required (parsed p.http_url) "job_url" fields) _ body e in
    let (task, t, e2) = bind-some (optional (Bodies.text 0 10000) "task" fields) _ body e1 in
    let (provider, q, e3) = bind-some (optional (Bodies.text 0 80) "provider" fields) _ body e2 in
    let (model, m, e4) = bind-some (optional (Bodies.text 0 255) "model" fields) _ body e3 in
    let provided : provider ≡ body.provider = ground arith in
    let modelled : model ≡ body.model = ground arith in
    (
      subst (Short 80) provided (optional-Short 0 80 "provider" fields provider q),
      subst (Short 255) modelled (optional-Short 0 255 "model" fields model m),
    )

-- The row that is inserted for an accepted body has for every text a column of that name that the
-- models declare, wide enough for it, and NULL only where that is allowed, if the Core's own values
-- are no wider than their columns.
pub new_run-Fits :
    (p : Pydantic) (defaults : Defaults) (fields : Fields) (body : StartRunBody) (id : Uuid)
    (run_id : String) (now : Datetime)
    → IsShort defaults
    → start_run_body p fields ≡ some body
    → All
        (Fits (declared runs))
        (texts (new_run id (queued_view defaults (start_request body) run_id now)))
unfolding declared new_run queued_view start_request
new_run-Fits p defaults fields body id run_id now short e =
    let (provider, model) = start_run_body-Short p fields body e in
    tt
    & tt
    & refl
    & refl
    & short.status
    & short.phase
    & refl
    & refl
    & refl
    & Short-Takes "current_model" 255 body.model model
    & Short-Takes "current_provider" 80 body.provider provider
    & short.tab
    & short.control
    & refl
    & short.reasoning
    & Short-Takes "current_reasoning_effort" 16 defaults.reasoning_effort short.effort
    & tt
