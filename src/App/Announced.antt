-- ===== src/App/Announced.antt =====
-- How the events that are added to the tables go with the calls of the hub's methods.
use z_apply_backend.Base.{
  ℕ, String, ◌≡◌, refl, sym, ap, ◌∙◌, some, List, [], ◌∷◌, ◌++◌, map, map-append, append_nil,
  append_assoc,
}
use z_apply_backend.Hub.{StoredEvent, publish, register, unregister}
use z_apply_backend.Hub.Invariant.{
  Call, publishes, registers, unregisters, run, run-append, run-one, published, published-append,
}
use z_apply_backend.Hub.Queues.{Unregisters, Unregisters-append}
use z_apply_backend.Models.{RunEventRow}
use z_apply_backend.Store.{Backend}

-- The key and the type of a row, which is what a StoredEvent of it carries.
abbrev pub key_of : RunEventRow → ℕ × String
key_of row = (row.id, row.kind)

-- The rows that were added to the events, the calls of the hub's methods that led from one hub to
-- the other, and that these publish those rows, each once and in their order, and unregister only
-- keys that satisfy the predicate.
pub record Publishes (P : ℕ → Type 0) (b b' : Backend) : Type 0 where
  pub rows : List RunEventRow
  pub calls : List Call
  pub appended : b'.db.events ≡ b.db.events ++ rows
  pub ran : run b.hub calls ≡ some b'.hub
  pub once : published calls ≡ map key_of rows
  pub only : Unregisters P calls

pub nothing :
    {P : ℕ → Type 0} (b b' : Backend)
    → b'.db.events ≡ b.db.events
    → b'.hub ≡ b.hub
    → Publishes P b b'
unfolding run published
nothing b b' events hub = record {
  rows = [];
  calls = [];
  appended = events ∙ sym (append_nil b.db.events);
  ran = ap some (sym hub);
  once = refl;
  only = tt;
}

pub unchanged : {P : ℕ → Type 0} (b b' : Backend) → b' ≡ b → Publishes P b b'
unchanged b b' e = nothing b b' (ap (λ x. x.db.events) e) (ap (λ x. x.hub) e)

pub one :
    {P : ℕ → Type 0} (b b' : Backend) (row : RunEventRow) (event : StoredEvent)
    → b'.db.events ≡ b.db.events ++ row ∷ []
    → publish b.hub event ≡ some b'.hub
    → event.id ≡ row.id
    → event.event_type ≡ row.kind
    → Publishes P b b'
unfolding published
one b b' row event appended sent id kind = record {
  rows = row ∷ [];
  calls = publishes event ∷ [];
  appended = appended;
  ran = run-one b.hub b'.hub event sent;
  once = ap (λ i. (i, event.event_type) ∷ []) id ∙ ap (λ k. (row.id, k) ∷ []) kind;
  only = tt;
}

pub Publishes-trans :
    {P : ℕ → Type 0} (a b c : Backend) → Publishes P a b → Publishes P b c → Publishes P a c
Publishes-trans {P} a b c first second = record {
  rows = first.rows ++ second.rows;
  calls = first.calls ++ second.calls;
  appended =
      second.appended
      ∙ ap (λ l. l ++ second.rows) first.appended
      ∙ append_assoc a.db.events first.rows second.rows;
  ran = run-append a.hub b.hub first.calls second.calls first.ran ∙ second.ran;
  once =
      published-append first.calls second.calls
      ∙ ap (λ l. l ++ published second.calls) first.once
      ∙ ap (λ l. map key_of first.rows ++ l) second.once
      ∙ sym (map-append key_of first.rows second.rows);
  only = Unregisters-append P first.calls second.calls first.only second.only;
}

pub subscribed :
    {P : ℕ → Type 0} (b : Backend) → Publishes P b (record b { hub = (register b.hub).0 })
unfolding run published
subscribed b = record {
  rows = [];
  calls = registers ∷ [];
  appended = sym (append_nil b.db.events);
  ran = refl;
  once = refl;
  only = tt;
}

pub unsubscribed :
    {P : ℕ → Type 0} (b : Backend) (key : ℕ)
    → P key
    → Publishes P b (record b { hub = unregister b.hub key })
unfolding run published
unsubscribed b key holds = record {
  rows = [];
  calls = unregisters key ∷ [];
  appended = sym (append_nil b.db.events);
  ran = refl;
  once = refl;
  only = (holds, tt);
}
