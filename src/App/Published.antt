-- ===== src/App/Published.antt =====
-- What goes out to the subscribers while requests are served: the events that they commit.
use z_apply_backend.App.Outgoing.{Accepts-Publishes, create-Publishes}
use z_apply_backend.App.Announced.{
  key_of, Publishes, nothing, Publishes-trans, subscribed, unsubscribed,
}
use z_apply_backend.App.Silent.{Answers-events, Lists-events}
use z_apply_backend.App.Requests.{
  Request, accepts, creates, answers, decides, polls, subscribes, unsubscribes, Requests, done',
  then', serve, serve_all,
}
use z_apply_backend.Base.{◌∙◌, ◌<◌, ◌≢◌, ℕ, ◌≡◌, refl, sym, some, List, ◌++◌, map, str_eq}
use z_apply_backend.Human.{answer, submission_decision}
use z_apply_backend.Human.Answers.{answer-Answers, submission_decision-Answers}
use z_apply_backend.Human.Listing.{human_requests}
use z_apply_backend.Human.Lists.{human_requests-Lists}
use z_apply_backend.Hub.{AsyncQueue, queue_of, StoredEvent}
use z_apply_backend.Hub.Invariant.{Call, run, published}
use z_apply_backend.Hub.Queues.{sent_key, events_of, published-events_of, offered_all, run-queue_of}
use z_apply_backend.Json.{Python}
use z_apply_backend.Models.{RunEventRow}
use z_apply_backend.Sql.{Postgres}
use z_apply_backend.Store.{Core, Backend, accept}
use z_apply_backend.Store.Atomic.{accept_atomic}
use z_apply_backend.Supervisor.{Defaults}

-- Every subscriber that is taken off has a key that satisfies the predicate.
unfoldable mutual
  pub Unsubscribes : (ℕ → Type 0) → Request → Type 0
  Unsubscribes P (accepts now event) = Unit
  Unsubscribes P (creates id now t request reply s meanwhile) = UnsubscribesAll P meanwhile
  Unsubscribes P (answers request_id live method text) = Unit
  Unsubscribes P (decides request_id live method decision) = Unit
  Unsubscribes P (polls run_id live) = Unit
  Unsubscribes P subscribes = Unit
  Unsubscribes P (unsubscribes key) = P key

  pub UnsubscribesAll : (ℕ → Type 0) → Requests → Type 0
  UnsubscribesAll P done' = Unit
  UnsubscribesAll P (then' request requests) = Unsubscribes P request × UnsubscribesAll P requests

mutual
  unfolding Unsubscribes UnsubscribesAll

  any_key : (request : Request) → Unsubscribes (λ _. Unit) request
  any_key (accepts now event) = tt
  any_key (creates id now t request reply s meanwhile) = any_keys meanwhile
  any_key (answers request_id live method text) = tt
  any_key (decides request_id live method decision) = tt
  any_key (polls run_id live) = tt
  any_key subscribes = tt
  any_key (unsubscribes key) = tt

  any_keys : (requests : Requests) → UnsubscribesAll (λ _. Unit) requests
  any_keys done' = tt
  any_keys (then' request requests) = (any_key request, any_keys requests)

module _ (pg : Postgres) (py : Python) (core : Core) (defaults : Defaults) where
  module _ (P : ℕ → Type 0) where
    mutual
      unfolding serve serve_all Unsubscribes UnsubscribesAll

      serve-Publishes :
          (request : Request) (b : Backend)
          → Unsubscribes P request
          → Publishes P b (serve pg py core defaults request b)
      serve-Publishes (accepts now event) b h =
          let (o, b') = accept pg py core now event b in
          Accepts-Publishes P pg py core now event b o b' (accept_atomic pg py core now event b)
      serve-Publishes (creates id now t request reply s meanwhile) b h =
          create-Publishes P pg py defaults id now t request reply
            (serve_all pg py core defaults meanwhile) (λ b'. served meanwhile b' h) s b
      serve-Publishes (answers request_id live method text) b h =
          let (o, db') = answer py b.db request_id live method text in
          nothing b (record b { db = db' })
            (Answers-events py b.db request_id live (λ id. method id text) o db'
              (answer-Answers py b.db request_id live method text))
            refl
      serve-Publishes (decides request_id live method decision) b h =
          let (o, db') = submission_decision py b.db request_id live method decision in
          nothing b (record b { db = db' })
            (Answers-events py b.db request_id live (λ id. method id (str_eq decision "approve")) o
              db' (submission_decision-Answers py b.db request_id live method decision).0)
            refl
      serve-Publishes (polls run_id live) b h =
          let (o, db') = human_requests pg py run_id live b.db in
          nothing b (record b { db = db' })
            (Lists-events pg py run_id live b.db o db'
              (human_requests-Lists pg py run_id live b.db))
            refl
      serve-Publishes subscribes b h = subscribed b
      serve-Publishes (unsubscribes key) b h = unsubscribed b key h

      served :
          (requests : Requests) (b : Backend)
          → UnsubscribesAll P requests
          → Publishes P b (serve_all pg py core defaults requests b)
      served done' b h = nothing b b refl refl
      served (then' request requests) b h =
          Publishes-trans b (serve pg py core defaults request b)
            (serve_all pg py core defaults requests (serve pg py core defaults request b))
            (serve-Publishes request b h.0)
            (served requests (serve pg py core defaults request b) h.1)

  -- While any sequence of requests is served, failing ones and those that are served while the Core
  -- starts a run included, the hub is changed by calls of its methods alone, none of which raises.
  -- What they publish is, each once and in the order of the table, the events that were added to
  -- the tables meanwhile: no event that is rolled back goes out, and none that is committed is
  -- left out.
  pub serve_all-published :
      (requests : Requests) (b : Backend)
      → (rows : List RunEventRow) × (calls : List Call) × ((serve_all pg py core defaults requests
            b).db.events
          ≡ b.db.events ++ rows)
        × (run b.hub calls ≡ some (serve_all pg py core defaults requests b).hub)
        × (published calls ≡ map key_of rows)
  serve_all-published requests b =
      let p = served (λ _. Unit) requests b (any_keys requests) in
      (p.rows, p.calls, p.appended, p.ran, p.once)

  -- The queue of a subscriber that is there from the beginning and is not taken off is, after any
  -- sequence of requests, what offering it the events that were added to the tables makes of it,
  -- one after the other and in the order of the table.
  pub serve_all-queue_of :
      (requests : Requests) (b : Backend) (key : ℕ) (q : AsyncQueue)
      → UnsubscribesAll (λ k. k ≢ key) requests
      → key < b.hub.next_key
      → queue_of key b.hub.queues ≡ some q
      → (rows : List RunEventRow) × (events : List StoredEvent) × ((serve_all pg py core defaults
            requests b).db.events
          ≡ b.db.events ++ rows)
        × (map sent_key events ≡ map key_of rows)
        × (queue_of key (serve_all pg py core defaults requests b).hub.queues
            ≡ some (offered_all events q))
  serve_all-queue_of requests b key q stays known here =
      let p = served (λ k. k ≢ key) requests b stays in
      (
        p.rows,
        events_of p.calls,
        p.appended,
        sym (published-events_of p.calls) ∙ p.once,
        run-queue_of key p.calls b.hub (serve_all pg py core defaults requests b).hub q p.only known
            p.ran here,
      )
