-- ===== src/Repo/Calls.antt =====
-- The ledger of model calls: `_model_call_values`, `insert_model_call`, `list_model_calls`,
-- `model_call_totals` and `new_input_tokens` of persistence/repositories.py.
use z_apply_backend.Base.Int.{ℤ, pos, ◌+ℤ◌, ◌-ℤ◌, max_ℤ}
use z_apply_backend.Base.{
  ℕ, String, Option, List, [], ◌∷◌, ◌++◌, ◌==◌, length, select, map, if◌then◌else◌,
}
use z_apply_backend.Json.{int, str, Fields, get_or_null, or_else, Python}
use z_apply_backend.Models.{Uuid, ModelCallRow, Db, CoreEvent}
use z_apply_backend.Repo.{err, ok, Tx, ◌>>=◌, accepted, integrity_error}
use z_apply_backend.Repo.Events.{has_run}
use z_apply_backend.Sql.{Postgres}
use z_apply_backend.Sql.Order.{asc_then}

-- max(input_tokens - cache_read_tokens, 0)
unfoldable pub new_input_tokens : ℤ → ℤ → ℤ
new_input_tokens input_tokens cache_read_tokens = max_ℤ (input_tokens -ℤ cache_read_tokens) (pos 0)

-- `str(payload.get(key) or "")` and `int(payload.get(key) or 0)`
text_of : Python → String → Fields → String
text_of py key payload = py.str_of (or_else (get_or_null key payload) (str ""))

number_of : Python → String → Fields → Tx ℤ
number_of py key payload = accepted (py.int_of (or_else (get_or_null key payload) (int (pos 0))))

unfoldable pub insert_call : Postgres → (ℕ → ModelCallRow) → Tx Unit
unfolding has_run
insert_call pg make db = if has_run row.run_id db.runs then ok (tt, added) else err integrity_error
  where
    row : ModelCallRow
    row = make (pg.nextval db.last_call_id)

    added : Db
    added = record db {
      model_calls = db.model_calls ++ row ∷ [];
      last_call_id = pg.nextval db.last_call_id;
    }

-- The columns that may be null take what the driver makes of the value.
unfoldable pub insert_model_call : Postgres → Python → CoreEvent → Tx Unit
unfolding text_of number_of
insert_model_call pg py event = do
  run_id ← accepted (py.parse_uuid event.run_id)
  input_tokens ← number_of py "input_tokens" event.payload
  output_tokens ← number_of py "output_tokens" event.payload
  cache_read_tokens ← number_of py "cache_read_tokens" event.payload
  ttft_ms ← accepted (pg.int_column (get_or_null "ttft_ms" event.payload))
  duration_ms ← accepted (pg.int_column (get_or_null "duration_ms" event.payload))
  tok_per_second ← accepted (pg.float_column (get_or_null "tok_per_second" event.payload))
  cost_usd ← accepted (pg.float_column (get_or_null "cost_usd" event.payload))
  insert_call pg λ id. record {
    id = id;
    run_id = run_id;
    sequence = event.sequence;
    agent = text_of py "role" event.payload;
    model = text_of py "model_id" event.payload;
    provider = text_of py "provider" event.payload;
    input_tokens = input_tokens;
    output_tokens = output_tokens;
    cache_read_tokens = cache_read_tokens;
    ttft_ms = ttft_ms;
    duration_ms = duration_ms;
    tok_per_second = tok_per_second;
    cost_usd = cost_usd;
    occurred_at = event.occurred_at;
  }

unfoldable pub list_model_calls : Postgres → Db → Uuid → List ModelCallRow
list_model_calls pg db run_id =
    pg.order_by (asc_then (λ (c : ModelCallRow). c.sequence) (λ c. c.id))
      (select (λ c. c.run_id == run_id) db.model_calls)

-- coalesce(sum(…), 0)
unfoldable pub sum_of : (ModelCallRow → ℤ) → List ModelCallRow → ℤ
sum_of column [] = pos 0
sum_of column (row ∷ rows) = column row +ℤ sum_of column rows

pub record Totals : Type 0 where
  pub calls : ℕ
  pub input_tokens : ℤ
  pub output_tokens : ℤ
  pub cache_read_tokens : ℤ
  pub new_input_tokens : ℤ
  pub cost_usd : ℕ

-- GREATEST(input - cache, 0)
abbrev greatest : ModelCallRow → ℤ
greatest row = max_ℤ (row.input_tokens -ℤ row.cache_read_tokens) (pos 0)

-- `sum_cost` is coalesce(sum(cost_usd), 0.0), rounded to six places.
unfoldable pub model_call_totals : (List (Option ℕ) → ℕ) → Db → Uuid → Totals
unfolding sum_of
model_call_totals sum_cost db run_id = record {
  calls = length rows;
  input_tokens = sum_of (λ row. row.input_tokens) rows;
  output_tokens = sum_of (λ row. row.output_tokens) rows;
  cache_read_tokens = sum_of (λ row. row.cache_read_tokens) rows;
  new_input_tokens = sum_of greatest rows;
  cost_usd = sum_cost (map (λ row. row.cost_usd) rows);
}
  where
    rows : List ModelCallRow
    rows = select (λ c. c.run_id == run_id) db.model_calls
