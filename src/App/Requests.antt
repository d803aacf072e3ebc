-- ===== src/App/Requests.antt =====
-- The requests and callbacks that change the tables, as one type, and what a sequence of them does.
use z_apply_backend.Base.{ℕ, String, Bool, Option, List}
use z_apply_backend.Human.{Reply, answer, submission_decision}
use z_apply_backend.Human.Listing.{human_requests}
use z_apply_backend.Hub.{register, unregister}
use z_apply_backend.Json.{Python}
use z_apply_backend.Models.{Uuid, Datetime, CoreEvent, CoreHumanRequest}
use z_apply_backend.Sql.{Postgres}
use z_apply_backend.Store.{Core, Backend, accept}
use z_apply_backend.Supervisor.{StartRunRequest, RunSupervisor, Defaults, create}

-- With each request goes what the Core answers and what the clock shows; `creates` also has the
-- requests that are served while the Core starts the run.
mutual
  pub data Request : Type 0 where
    accepts : Datetime → CoreEvent → Request
    creates :
        Uuid
        → Datetime
        → Datetime
        → StartRunRequest
        → Option String
        → RunSupervisor
        → Requests
        → Request
    answers :
        Uuid
        → Option (Option (List CoreHumanRequest))
        → (String → String → Reply)
        → String
        → Request
    decides :
        Uuid → Option (Option (List CoreHumanRequest)) → (String → Bool → Reply) → String → Request
    polls : Uuid → Option (Option (List CoreHumanRequest)) → Request
    subscribes : Request
    unsubscribes : ℕ → Request

  pub data Requests : Type 0 where
    done' : Requests
    then' : Request → Requests → Requests

module _ (pg : Postgres) (py : Python) (core : Core) (defaults : Defaults) where
  unfoldable mutual
    pub serve : Request → Backend → Backend
    serve (accepts now event) b = (accept pg py core now event b).1
    serve (creates id now t request answer s meanwhile) b =
        (create pg py defaults id now t request answer (λ b'. serve_all meanwhile b') s b).1.1
    serve (answers request_id live method text) b = record b {
      db = (answer py b.db request_id live method text).1;
    }
    serve (decides request_id live method decision) b = record b {
      db = (submission_decision py b.db request_id live method decision).1;
    }
    serve (polls run_id live) b = record b { db = (human_requests pg py run_id live b.db).1 }
    serve subscribes b = record b { hub = (register b.hub).0 }
    serve (unsubscribes key) b = record b { hub = unregister b.hub key }

    pub serve_all : Requests → Backend → Backend
    serve_all done' b = b
    serve_all (then' request requests) b = serve_all requests (serve request b)
