-- ===== src/Schemas/Bodies.antt =====
-- schemas.py: the bodies of requests, which pydantic checks before a handler runs.
use z_apply_backend.Base.{
  ◌≡◌, refl, ℕ, String, Bool, ◌&&◌, Option, none, some, List, [], ◌∷◌, any, leb, length, codes,
  str_eq, if◌then◌else◌,
}
use z_apply_backend.Json.{Value, null, str, Fields, get, get_or_null}
use z_apply_backend.Models.{Uuid}
use z_apply_backend.Supervisor.{StartRunRequest}

-- What pydantic makes of a text as an HttpUrl, printed again by `str`, and as a UUID.
pub record Pydantic : Type 0 where
  pub http_url : String → Option String
  pub uuid : String → Option Uuid

infixl 5 ◌>>=◌
abbrev pub ◌>>=◌ : {A B : Type 0} → Option A → (A → Option B) → Option B
none >>= f = none
some a >>= f = f a

-- What a value that was made in two steps went through.
pub bind-some :
    {A B : Type 0} (o : Option A) (f : A → Option B) (b : B)
    → (o >>= f) ≡ some b
    → (a : A) × (o ≡ some a) × (f a ≡ some b)
bind-some none f b e = cc
bind-some (some a) f b e = (a, refl, e)

abbrev pub map_some : {A B : Type 0} → (A → B) → Option A → Option B
map_some f none = none
map_some f (some a) = some (f a)

-- A required field with its validator; a field `… | None = None`, which may be left out.
unfoldable pub required : {A : Type 0} → (Value → Option A) → String → Fields → Option A
required check key body = elim (get key body) [ none ↦ none | some v ↦ check v ]

unfoldable pub nullable : {A : Type 0} → (Value → Option A) → Value → Option (Option A)
nullable check null = some none
nullable check v = map_some some (check v)

unfoldable pub optional : {A : Type 0} → (Value → Option A) → String → Fields → Option (Option A)
unfolding nullable
optional check key body = nullable check (get_or_null key body)

abbrev within : ℕ → ℕ → String → Bool
within low high s = leb low (length (codes s)) && leb (length (codes s)) high

-- `str = Field(min_length=low, max_length=high)`, in characters; without a conversion of numbers.
unfoldable pub text : ℕ → ℕ → Value → Option String
text low high (str s) = if within low high s then some s else none
text low high _ = none

-- `Literal[…]`, whose `pattern` allows the same texts.
unfoldable pub literal : List String → Value → Option String
literal allowed (str s) = if any (str_eq s) allowed then some s else none
literal allowed _ = none

abbrev pub parsed : {A : Type 0} → (String → Option A) → Value → Option A
parsed parse (str s) = parse s
parsed parse _ = none

pub record StartRunBody : Type 0 where
  pub job_url : String
  pub task : Option String
  pub provider : Option String
  pub model : Option String

unfoldable pub start_run_body : Pydantic → Fields → Option StartRunBody
unfolding required optional text
start_run_body p body = do
  job_url ← required (parsed p.http_url) "job_url" body
  task ← optional (text 0 10000) "task" body
  provider ← optional (text 0 80) "provider" body
  model ← optional (text 0 255) "model" body
  some (record { job_url = job_url; task = task; provider = provider; model = model })

-- What `start_run` makes of its body for the supervisor.
unfoldable pub start_request : StartRunBody → StartRunRequest
start_request body = record {
  job_url = body.job_url;
  task = body.task;
  provider = body.provider;
  model = body.model;
}

pub record SwitchModelBody : Type 0 where
  pub provider : String
  pub model : Option String

unfoldable pub switch_model_body : Fields → Option SwitchModelBody
unfolding required optional text
switch_model_body body = do
  provider ← required (text 1 80) "provider" body
  model ← optional (text 0 255) "model" body
  some (record { provider = provider; model = model })

pub record ReasoningBody : Type 0 where
  pub reasoning : String
  pub reasoning_effort : Option String

-- The texts that the class ReasoningBody allows; RunResponse has lists of its own in Schemas.antt.
abbrev pub asked_reasonings : List String
asked_reasonings = "auto" ∷ "off" ∷ "on" ∷ []

abbrev pub asked_efforts : List String
asked_efforts = "low" ∷ "medium" ∷ "high" ∷ "max" ∷ []

unfoldable pub reasoning_body : Fields → Option ReasoningBody
unfolding required optional literal
reasoning_body body = do
  reasoning ← required (literal asked_reasonings) "reasoning" body
  effort ← optional (literal asked_efforts) "reasoning_effort" body
  some (record { reasoning = reasoning; reasoning_effort = effort })

-- The classes AnswerBody, ContextBody, SubmissionDecisionBody and BrowserControlBody have one field.
unfoldable pub answer_body : Fields → Option String
unfolding required text
answer_body body = required (text 1 10000) "answer" body

unfoldable pub context_body : Fields → Option String
unfolding required text
context_body body = required (text 1 8000) "content" body

unfoldable pub submission_decision_body : Fields → Option String
unfolding required
submission_decision_body body = required (parsed some) "decision" body

unfoldable pub browser_control_body : Pydantic → Fields → Option Uuid
unfolding required
browser_control_body p body = required (parsed p.uuid) "run_id" body
