-- ===== src/Human/Answers.antt =====
-- What an answer or a decision of a person does, by how the handler ends.
use z_apply_backend.Base.{
  String, ◌≡◌, refl, sym, ap, ◌∙◌, subst, ◌≢◌, ◌⊎◌, ◌++◌, All, Bool, true, false, Option, none,
  some, List, [], ◌∷◌, ◌||◌, arith, str_eq, Bool-cases, inl, inr,
}
use z_apply_backend.Json.{Python}
use z_apply_backend.Models.{Uuid, Db, CoreHumanRequest}
use z_apply_backend.Repo.{Result, ok, err, session_scope}
use z_apply_backend.Repo.Records.{upsert_human_request}
use z_apply_backend.Human.{
  Reply, raised, resolved, Response, refused, answered, same_id, live_request_id, recorded,
  record_reply, reply_to, respond, answer, submission_decision,
}

-- The first request in the Core's list whose id is the UUID has this id: those before it are others.
abbrev pub Listed : Python → Uuid → List CoreHumanRequest → String → Type 0
Listed py request_id items id =
    (before : List CoreHumanRequest) × (item : CoreHumanRequest) × (after : List CoreHumanRequest)
    × (items ≡ before ++ item ∷ after)
    × (id ≡ item.request_id)
    × (py.parse_uuid id ≡ some request_id)
    × All (λ other. py.parse_uuid other.request_id ≢ some request_id) before

same_id-elim :
    (request_id : Uuid) (parsed : Option Uuid)
    → ((same_id request_id parsed ≡ true) × (parsed ≡ some request_id))
      ⊎ ((same_id request_id parsed ≡ false) × (parsed ≢ some request_id))
same_id-elim request_id none = inr (refl, λ e. absurd (cc))
same_id-elim request_id (some id) = ground arith

live_request_id-Listed :
    (py : Python) (request_id : Uuid) (items : List CoreHumanRequest) (id : String)
    → live_request_id py request_id items ≡ some id
    → Listed py request_id items id
unfolding live_request_id
live_request_id-Listed py request_id [] id e = absurd (cc)
live_request_id-Listed py request_id (item ∷ items) id e =
    elim (same_id-elim request_id (py.parse_uuid item.request_id)) [
      | inl (same, parsed) ↦
          let own : id ≡ item.request_id = ground arith in
          ([], item, items, refl, own, ap py.parse_uuid own ∙ parsed, tt)
      | inr (other, differs) ↦
          let later : live_request_id py request_id items ≡ some id = ground arith in
          let (before, found, after, split, own, parsed, first) =
            live_request_id-Listed py request_id items id later in
          (item ∷ before, found, after, ap (λ l. item ∷ l) split, own, parsed, (differs, first))
    ]

module _ (py : Python) (db : Db) (request_id : Uuid)
    (live : Option (Option (List CoreHumanRequest))) (reply : String → Reply) where
  -- The handler answers with what the Core resolved, for the id of the first request in the Core's
  -- list whose id is the requested UUID, and stores that; on every other end the tables are as they
  -- were.
  abbrev pub Answers : Response → Db → Type 0
  Answers (answered result) db' =
      (items : List CoreHumanRequest) × (id : String) × (live ≡ some (some items))
      × Listed py request_id items id
      × (reply id ≡ resolved result)
      × (upsert_human_request py result db ≡ ok (tt, db'))
  Answers _ db' = db' ≡ db

  recorded-Answers :
      (items : List CoreHumanRequest) (id : String) (result : CoreHumanRequest)
      (r : Result (Unit {0} × Db))
      → live ≡ some (some items)
      → Listed py request_id items id
      → reply id ≡ resolved result
      → upsert_human_request py result db ≡ r
      → let (o, db') = recorded result (session_scope (λ _. r) db) in Answers o db'
  unfolding recorded session_scope
  recorded-Answers items id result (err e) known listed replied stored = refl
  recorded-Answers items id result (ok (u, db')) known listed replied stored =
      (items, id, known, listed, replied, stored)

  record_reply-Answers :
      (items : List CoreHumanRequest) (id : String) (r : Reply)
      → live ≡ some (some items)
      → Listed py request_id items id
      → reply id ≡ r
      → let (o, db') = record_reply py db r in Answers o db'
  unfolding record_reply session_scope
  record_reply-Answers items id (raised exc) known listed replied = refl
  record_reply-Answers items id (resolved result) known listed replied =
      recorded-Answers items id result (upsert_human_request py result db) known listed replied refl

  reply_to-Answers :
      (items : List CoreHumanRequest) (id : Option String)
      → live ≡ some (some items)
      → ((i : String) → id ≡ some i → Listed py request_id items i)
      → let (o, db') = reply_to py db reply id in Answers o db'
  unfolding reply_to
  reply_to-Answers items none known listed = refl
  reply_to-Answers items (some id) known listed =
      record_reply-Answers items id (reply id) known (listed id refl) refl

  respond-Answers :
      (asked : Option (Option (List CoreHumanRequest)))
      → live ≡ asked
      → let (o, db') = respond py db request_id asked reply in Answers o db'
  unfolding respond
  respond-Answers none known = refl
  respond-Answers (some none) known = refl
  respond-Answers (some (some items)) known =
      reply_to-Answers items (live_request_id py request_id items) known
        (live_request_id-Listed py request_id items)

module _ (py : Python) (db : Db) (request_id : Uuid)
    (live : Option (Option (List CoreHumanRequest))) where
  -- If `answer` succeeds, the Core has resolved, with the given text, a request that it listed, named
  -- by the listed id itself: the first one whose id is the requested UUID. Exactly what it returned
  -- is stored. On every error, the Core's
  -- included, the tables are as they were.
  pub answer-Answers :
      (answer_human_request : String → String → Reply) (text : String)
      → let (o, db') = answer py db request_id live answer_human_request text in
        Answers py db request_id live (λ id. answer_human_request id text) o db'
  unfolding answer
  answer-Answers answer_human_request text =
      respond-Answers py db request_id live (λ id. answer_human_request id text) live refl

  abbrev known_decision : String → Bool
  known_decision decision = str_eq decision "approve" || str_eq decision "reject"

  decision-known :
      (decide_submission : String → Bool → Reply) (decision : String)
      → known_decision decision ≡ true
      → submission_decision py db request_id live decide_submission decision
        ≡ respond py db request_id live (λ id. decide_submission id (str_eq decision "approve"))
  unfolding submission_decision
  decision-known decide_submission decision h = rw h

  decision-unknown :
      (decide_submission : String → Bool → Reply) (decision : String)
      → known_decision decision ≡ false
      → submission_decision py db request_id live decide_submission decision
        ≡ (refused (record { status = 422; code = "invalid_submission_decision" }), db)
  unfolding submission_decision
  decision-unknown decide_submission decision h = rw h

  -- The same holds of `submission_decision`, which asks the Core to approve for "approve" and not to
  -- for "reject". Any other decision is refused with 422 and changes nothing.
  pub submission_decision-Answers :
      (decide_submission : String → Bool → Reply) (decision : String)
      → (let (o, db') = submission_decision py db request_id live decide_submission decision in
          Answers py db request_id live
            (λ id. decide_submission id (str_eq decision "approve"))
            o
            db')
        × (str_eq decision "approve" ≡ false
            → str_eq decision "reject" ≡ false
            → submission_decision py db request_id live decide_submission decision
              ≡ (refused (record { status = 422; code = "invalid_submission_decision" }), db))
  submission_decision-Answers decide_submission decision = (
    elim (Bool-cases (known_decision decision)) [
      | inl known ↦
          holds _ (decision-known decide_submission decision known)
            (respond-Answers py db request_id live reply live refl)
      | inr unknown ↦ holds _ (decision-unknown decide_submission decision unknown) refl
    ],
    λ a r. decision-unknown decide_submission decision (rw (a, r)),
  )
    where
      reply : String → Reply
      reply id = decide_submission id (str_eq decision "approve")

      holds :
          (other : Response × Db)
          → submission_decision py db request_id live decide_submission decision ≡ other
          → Answers py db request_id live reply other.0 other.1
          → let (o, db') = submission_decision py db request_id live decide_submission decision in
            Answers py db request_id live reply o db'
      holds other e h = subst (λ x. Answers py db request_id live reply x.0 x.1) (sym e) h
