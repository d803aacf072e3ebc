-- ===== src/Diagnostics.antt =====
-- api/diagnostics.py: what the server tells about itself.
use z_apply_backend.Base.Int.{pos}
use z_apply_backend.Base.{
  ℕ, zero, suc, All, ◌-◌, ◌≤◌, ◌≡◌, refl, sym, ap, ◌∙◌, String, Bool, true, false, Option, none,
  some, List, [], ◌∷◌, ◌++◌, map, drop, length, arith,
}
use z_apply_backend.Config.{Settings}
use z_apply_backend.Sql.Order.{Ordering, Ordering-All, Ordering-length, Ordering-Sorted, Sorted}
use z_apply_backend.Json.{Value, Fields, end, field, str, int, bool}

-- `GET /health` asks nothing of the database.
unfoldable pub health : String → Fields
health version = field "ok" (bool true) (
    field "database" (str "connected")
      (field "version" (str version) (field "service" (str "z-apply-backend") end)))

-- `GET /profile` and `GET /documents`
unfoldable pub profile : Fields
profile =
    field "summary"
      (str "Candidate profile is managed by Z-Apply Core and is read-only in this cockpit.") end

unfoldable pub documents : List Fields
documents = []

-- What the Core is asked: the active runs, whether there is a live view, and the snapshot of the
-- live stream; each of the last two may raise.
pub record CoreState : Type 0 where
  pub active_run_ids : List String
  pub live_view_available : Option Bool
  pub live_stream_snapshot : Option Value

-- `GET /diagnostics`; `none` is an uncaught exception, of `Settings()` or of the Core.
unfoldable pub diagnostics_of : String → CoreState → Settings → Option Fields
diagnostics_of version core s = elim core.live_view_available [
  | none ↦ none
  | some available ↦ elim core.live_stream_snapshot [
    | none ↦ none
    | some snapshot ↦ some (
        field "version" (str version) (
          field "max_active_runs" (int (pos s.max_active_runs)) (
            field "active_runs" (int (pos (length core.active_run_ids))) (
              field "live_view" (bool available)
                (field "live_stream" snapshot (field "database" (str "connected") end))))))
  ]
]

unfoldable pub diagnostics : String → CoreState → Option Settings → Option Fields
diagnostics version core none = none
diagnostics version core (some s) = diagnostics_of version core s

-- `GET /settings`
unfoldable pub settings_answer : Option Settings → Option Fields
settings_answer none = none
settings_answer (some s) = some (
    field "max_active_runs" (int (pos s.max_active_runs)) (
      field "telegram_enabled" (bool false)
        (field "gmail_enabled" (bool false) (field "simplify_enabled" (bool true) end))))

-- A task of the event loop, and a frame of its stack.
pub record Frame : Type 0 where
  pub filename : String
  pub lineno : ℕ
  pub name : String

pub record Task : Type 0 where
  pub name : String
  pub done : Bool
  pub cancelled : Bool
  pub stack : List Frame

-- An entry of `GET /tasks`; `show` makes the text `file:line in name` of a frame.
pub record TaskEntry : Type 0 where
  pub name : String
  pub done : Bool
  pub cancelled : Bool
  pub stack : List String

-- `xs[-n:]` for a positive n
unfoldable pub last_of : {A : Type 0} → ℕ → List A → List A
last_of n xs = drop (length xs - n) xs

unfoldable pub task_entry : (Frame → String) → Task → TaskEntry
unfolding last_of
task_entry show task = record {
  name = task.name;
  done = task.done;
  cancelled = task.cancelled;
  stack = last_of 14 (map show task.stack);
}

pub record TaskDump : Type 0 where
  pub task_count : ℕ
  pub tasks : List TaskEntry

-- `GET /tasks`; `sort` is the sort of a list by a test on keys.
unfoldable pub asyncio_tasks :
    ((TaskEntry → TaskEntry → Bool) → List TaskEntry → List TaskEntry)
    → (String → String → Bool)
    → (Frame → String)
    → List Task
    → TaskDump
asyncio_tasks sort le show tasks = record {
  task_count = length tasks;
  tasks = sort (λ a b. le a.name b.name) (map (task_entry show) tasks);
}

module _ {A : Type 0} where
  drop-suffix : (n : ℕ) (xs : List A) → (front : List A) × (front ++ drop n xs ≡ xs)
  drop-suffix zero xs = ([], refl)
  drop-suffix (suc n) [] = ([], refl)
  drop-suffix (suc n) (x ∷ xs) = let (front, e) = drop-suffix n xs in (x ∷ front, ap (λ l. x ∷ l) e)

  length-drop : (n : ℕ) (xs : List A) → length (drop n xs) ≡ length xs - n
  length-drop zero xs = omega arith
  length-drop (suc n) [] = omega arith
  length-drop (suc n) (x ∷ xs) = omega (arith, length-drop n xs)

  last_of-suffix :
      (n : ℕ) (xs : List A)
      → (front : List A) × (front ++ last_of n xs ≡ xs) × (length (last_of n xs) ≤ n)
  unfolding last_of
  last_of-suffix n xs =
      let (front, e) = drop-suffix (length xs - n) xs in
      (front, e, omega (arith, length-drop (length xs - n) xs))

-- The entry has the name of the task and the end of its stack, of at most fourteen frames.
abbrev pub Shows : (Frame → String) → Task → TaskEntry → Type 0
Shows show task entry =
    (entry.name ≡ task.name)
    × ((front : List String) × (front ++ entry.stack ≡ map show task.stack)
        × (length entry.stack ≤ 14))

task_entry-Shows : (show : Frame → String) (task : Task) → Shows show task (task_entry show task)
unfolding task_entry
task_entry-Shows show task = (refl, last_of-suffix 14 (map show task.stack))

module _ (le : String → String → Bool) (show : Frame → String) where
  abbrev by_name : TaskEntry → TaskEntry → Bool
  by_name a b = le a.name b.name

  -- An entry that shows one of the tasks.
  abbrev pub ShowsOne : TaskEntry → Type 0
  ShowsOne entry = (task : Task) × Shows show task entry

  entries-ShowsOne : (tasks : List Task) → All ShowsOne (map (task_entry show) tasks)
  entries-ShowsOne [] = tt
  entries-ShowsOne (task ∷ tasks) = ((task, task_entry-Shows show task), entries-ShowsOne tasks)

  length-entries : (tasks : List Task) → length (map (task_entry show) tasks) ≡ length tasks
  length-entries [] = refl
  length-entries (task ∷ tasks) = omega (arith, length-entries tasks)

  -- If `sort` puts a list in order, the answer has as many entries as there are tasks, in the order
  -- of their names, and each shows the name of a task and the end of its stack, of at most fourteen
  -- frames.
  pub asyncio_tasks-Sorted :
      (sort : (TaskEntry → TaskEntry → Bool) → List TaskEntry → List TaskEntry)
      → ((entries : List TaskEntry) → Ordering by_name entries (sort by_name entries))
      → (tasks : List Task)
      → let dump = asyncio_tasks sort le show tasks in
        Sorted by_name dump.tasks × (dump.task_count ≡ length dump.tasks) × All ShowsOne dump.tasks
  unfolding asyncio_tasks
  asyncio_tasks-Sorted sort sorts tasks =
      let entries : List TaskEntry = map (task_entry show) tasks in
      (
        Ordering-Sorted by_name (sorts entries),
        sym (Ordering-length by_name (sorts entries) ∙ length-entries tasks),
        Ordering-All by_name ShowsOne (sorts entries) (entries-ShowsOne tasks),
      )
