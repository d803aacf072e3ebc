-- ===== src/Human/Upsert.antt =====
-- What `upsert_human_request` leaves under each id.
use z_apply_backend.Base.{
  ℕ, String, ◌≡◌, ◌≢◌, refl, sym, ap, subst, ◌∙◌, true, false, Option, none, some, [], ◌∷◌, ◌++◌,
  ◌==◌, arith, any, find?, update_where, Option-cases, inl, inr, any-none, any-some, found_passes,
  find?-snoc, find?-snoc_other, find?-update_where, find?-update_other,
}
use z_apply_backend.Json.{Python}
use z_apply_backend.Models.{Uuid, HumanRequestRow, Db, CoreHumanRequest}
use z_apply_backend.Repo.{ok, Tx, pure, accepted, ◌>>=◌}
use z_apply_backend.Repo.Quiet.{>>=-eq-ok}
use z_apply_backend.Repo.Records.{store_human, parse_optional, upsert_human_request, get_human}

-- The run of a request after the upsert: the one that it had, if it was known.
abbrev pub kept_run : Option HumanRequestRow → Uuid → Uuid
kept_run none run_id = run_id
kept_run (some old) run_id = old.run_id

abbrev changed : HumanRequestRow → HumanRequestRow → HumanRequestRow
changed row old = record row { id = old.id; run_id = old.run_id }

is_same : (a b : ℕ) → (a == b) ≡ true → a ≡ b
is_same a b h = ground arith

is_other : (a b : ℕ) → a ≢ b → (a == b) ≡ false
is_other a b h = ground arith

-- The table after the upsert, by whether the id was in it.
store_human-new :
    (row : HumanRequestRow) (db db' : Db)
    → store_human row db ≡ ok (tt, db')
    → any (λ r. r.id == row.id) db.human_requests ≡ false
    → db'.human_requests ≡ db.human_requests ++ row ∷ []
unfolding store_human
store_human-new row db db' e absent = ground arith

store_human-old :
    (row : HumanRequestRow) (db db' : Db)
    → store_human row db ≡ ok (tt, db')
    → any (λ r. r.id == row.id) db.human_requests ≡ true
    → db'.human_requests ≡ update_where (λ r. r.id == row.id) (changed row) db.human_requests
unfolding store_human
store_human-old row db db' e there = ground arith

store_human-get_human :
    (row : HumanRequestRow) (db db' : Db)
    → store_human row db ≡ ok (tt, db')
    → get_human db' row.id
      ≡ some (record row { run_id = kept_run (get_human db row.id) row.run_id })
unfolding get_human
store_human-get_human row db db' e =
    elim (Option-cases (find? (λ r. r.id == row.id) db.human_requests)) [
      | inl fresh ↦
          ap (find? (λ r. r.id == row.id))
            (store_human-new row db db' e (any-none (λ r. r.id == row.id) db.human_requests fresh))
          ∙ find?-snoc (λ r. r.id == row.id) db.human_requests row fresh (ground arith)
          ∙ ap (λ o. some (record row { run_id = kept_run o row.run_id })) (sym fresh)
      | inr (old, found) ↦
          let same : old.id ≡ row.id =
            is_same old.id row.id
              (found_passes (λ r. r.id == row.id) db.human_requests old found) in
          ap (find? (λ r. r.id == row.id)) (
            store_human-old row db db' e
              (any-some (λ r. r.id == row.id) db.human_requests old found))
          ∙ find?-update_where (λ r. r.id == row.id) (changed row) db.human_requests old (λ r. refl)
              found
          ∙ ap (λ i. some (record row { id = i; run_id = old.run_id })) same
          ∙ ap (λ o. some (record row { run_id = kept_run o row.run_id })) (sym found)
    ]

store_human-others :
    (row : HumanRequestRow) (db db' : Db) (id : Uuid)
    → id ≢ row.id
    → store_human row db ≡ ok (tt, db')
    → get_human db' id ≡ get_human db id
unfolding store_human get_human
store_human-others row db db' id other e = ground (
  arith,
  find?-snoc_other (λ r. r.id == id) db.human_requests row,
  find?-update_other (λ r. r.id == id) (λ r. r.id == row.id) (changed row) db.human_requests,
)

accepted-ok :
    {A : Type 0} (o : Option A) (a : A) (db mid : Db)
    → accepted o db ≡ ok (a, mid)
    → (o ≡ some a) × (mid ≡ db)
accepted-ok none a db mid e = cc
accepted-ok (some b) a db mid e = ground arith

-- The image of a request: none, or the UUID that its text is.
abbrev pub IsImage : Python → Option String → Option Uuid → Type 0
IsImage py none image = image ≡ none
IsImage py (some text) image = (id : Uuid) × (py.parse_uuid text ≡ some id) × (image ≡ some id)

parse_optional-ok :
    (py : Python) (text : Option String) (o : Option Uuid) (db mid : Db)
    → parse_optional py text db ≡ ok (o, mid)
    → (mid ≡ db) × IsImage py text o
unfolding parse_optional
parse_optional-ok py none o db mid e = ground arith
parse_optional-ok py (some text) o db mid e = settle (py.parse_uuid text) refl e
  where
    settle :
        (id : Option Uuid)
        → py.parse_uuid text ≡ id
        → (accepted id >>= λ i. pure (some i)) db ≡ ok (o, mid)
        → (mid ≡ db) × IsImage py (some text) o
    settle none p h = cc
    settle (some i) p h = (ground arith, (i, p, ground arith))

-- The row is what the Core holds, in every column but those of the two keys.
pub record Carries (py : Python) (item : CoreHumanRequest) (row : HumanRequestRow) : Type 0 where
  pub kind : row.kind ≡ item.kind
  pub question : row.question ≡ item.question
  pub context : row.context ≡ item.context
  pub options : row.options ≡ item.options
  pub risk : row.risk ≡ item.risk
  pub allow_free_text : row.allow_free_text ≡ item.allow_free_text
  pub image : IsImage py item.image_artifact_id row.image_artifact_id
  pub status : row.status ≡ item.status
  pub answer : row.answer ≡ item.answer
  pub approved : row.approved ≡ item.approved
  pub responder : row.responder ≡ item.responder
  pub created_at : row.created_at ≡ item.created_at
  pub resolved_at : row.resolved_at ≡ item.resolved_at

module _ (py : Python) (item : CoreHumanRequest) where
  abbrev row_of : Uuid → Uuid → Option Uuid → HumanRequestRow
  row_of id run_id image = record {
    id = id;
    run_id = run_id;
    kind = item.kind;
    question = item.question;
    context = item.context;
    options = item.options;
    risk = item.risk;
    allow_free_text = item.allow_free_text;
    image_artifact_id = image;
    status = item.status;
    answer = item.answer;
    approved = item.approved;
    responder = item.responder;
    created_at = item.created_at;
    resolved_at = item.resolved_at;
  }

  row_of-Carries :
      (id run_id : Uuid) (image : Option Uuid)
      → IsImage py item.image_artifact_id image
      → Carries py item (row_of id run_id image)
  row_of-Carries id run_id image h = record {
    kind = refl;
    question = refl;
    context = refl;
    options = refl;
    risk = refl;
    allow_free_text = refl;
    image = h;
    status = refl;
    answer = refl;
    approved = refl;
    responder = refl;
    created_at = refl;
    resolved_at = refl;
  }

  -- The ids parse, the row found under the id is the Core's, under the run that it had if it was
  -- known, and what is found under every other id is as before.
  pub record Upserted (db db' : Db) : Type 0 where
    pub id : Uuid
    pub run_id : Uuid
    pub parsed : py.parse_uuid item.request_id ≡ some id
    pub owner : py.parse_uuid item.run_id ≡ some run_id
    pub row : HumanRequestRow
    pub found : get_human db' id ≡ some row
    pub carries : Carries py item row
    pub run : row.run_id ≡ kept_run (get_human db id) run_id
    pub others : (other : Uuid) → other ≢ id → get_human db' other ≡ get_human db other

  stored-Upserted :
      (id run_id : Uuid) (image : Option Uuid) (db db' : Db)
      → py.parse_uuid item.request_id ≡ some id
      → py.parse_uuid item.run_id ≡ some run_id
      → IsImage py item.image_artifact_id image
      → store_human (row_of id run_id image) db ≡ ok (tt, db')
      → Upserted db db'
  stored-Upserted id run_id image db db' parsed owner h put = record {
    id = id;
    run_id = run_id;
    parsed = parsed;
    owner = owner;
    row = row_of id (kept_run (get_human db id) run_id) image;
    found = store_human-get_human (row_of id run_id image) db db' put;
    carries = row_of-Carries id (kept_run (get_human db id) run_id) image h;
    run = refl;
    others = λ other n. store_human-others (row_of id run_id image) db db' other n put;
  }

  pub upsert_human_request-Upserted :
      (db db' : Db) → upsert_human_request py item db ≡ ok (tt, db') → Upserted db db'
  unfolding upsert_human_request
  upsert_human_request-Upserted db db' e =
      let (id, a, first, e1) =
        >>=-eq-ok (accepted (py.parse_uuid item.request_id)) after_id db db' tt e in
      let (run_id, b, second, e2) =
        >>=-eq-ok (accepted (py.parse_uuid item.run_id)) (after_run id) a db' tt e1 in
      let (image, c, third, e3) =
        >>=-eq-ok (parse_optional py item.image_artifact_id) (λ i. store_human (row_of id run_id i))
          b db' tt e2 in
      let (parsed, same_a) = accepted-ok (py.parse_uuid item.request_id) id db a first in
      let (owner, same_b) = accepted-ok (py.parse_uuid item.run_id) run_id a b second in
      let (same_c, h) = parse_optional-ok py item.image_artifact_id image b c third in
      stored-Upserted id run_id image db db' parsed owner h (
        subst (λ d. store_human (row_of id run_id image) d ≡ ok (tt, db'))
          (same_c ∙ same_b ∙ same_a) e3)
    where
      after_run : Uuid → Uuid → Tx Unit
      after_run id run_id =
          parse_optional py item.image_artifact_id >>= λ i. store_human (row_of id run_id i)

      after_id : Uuid → Tx Unit
      after_id id = accepted (py.parse_uuid item.run_id) >>= after_run id
