-- ===== src/Human/Stored.antt =====
-- What storing the requests of the Core leaves in the tables.
use z_apply_backend.Base.{
  ◌≡◌, refl, sym, ap, ◌∙◌, Bool, true, false, Option, none, some, List, [], ◌∷◌, ◌==◌, All,
  if◌then◌else◌, arith,
}
use z_apply_backend.Human.{same_id}
use z_apply_backend.Human.Listing.{upsert_each}
use z_apply_backend.Human.Upsert.{Carries, Upserted, kept_run, upsert_human_request-Upserted}
use z_apply_backend.Json.{Python}
use z_apply_backend.Models.{Uuid, HumanRequestRow, Db, CoreHumanRequest}
use z_apply_backend.Repo.{ok, pure}
use z_apply_backend.Repo.Quiet.{
  Quiet, Quiet-pure, Quiet-then, upsert_human_request-Quiet, >>=-eq-ok,
}
use z_apply_backend.Repo.Records.{upsert_human_request, get_human}

-- The last of some requests whose id is a UUID, and the run of the first of them.
abbrev pub later : Option CoreHumanRequest → Bool → CoreHumanRequest → Option CoreHumanRequest
later (some other) own item = some other
later none own item = if own then some item else none

abbrev pub latest : Python → Uuid → List CoreHumanRequest → Option CoreHumanRequest
latest py id [] = none
latest py id (item ∷ items) =
    later (latest py id items) (same_id id (py.parse_uuid item.request_id)) item

abbrev pub first_run : Python → Uuid → List CoreHumanRequest → Option Uuid
first_run py id [] = none
first_run py id (item ∷ items) =
    let rest = first_run py id items in
    if same_id id (py.parse_uuid item.request_id) then py.parse_uuid item.run_id else rest

abbrev pub run_after : Option HumanRequestRow → Option Uuid → Option Uuid
run_after none run = run
run_after (some old) run = some old.run_id

-- What is found under an id before and after: the last request with that id, under the given run, or
-- if there is none what was found before.
abbrev pub Left :
    Python
    → Option CoreHumanRequest
    → Option Uuid
    → Option HumanRequestRow
    → Option HumanRequestRow
    → Type 0
Left py none run old new = new ≡ old
Left py (some item) run old new =
    (row : HumanRequestRow) × (new ≡ some row) × Carries py item row × (some row.run_id ≡ run)

abbrev pub Stores : Python → List CoreHumanRequest → Db → Db → Type 0
Stores py current db db' =
    All (λ item. (id : Uuid) × (py.parse_uuid item.request_id ≡ some id)) current
    × ((id : Uuid)
        → Left py (latest py id current) (run_after (get_human db id) (first_run py id current))
            (get_human db id) (get_human db' id))

module _ (py : Python) where
  Left-step :
      (l : Option CoreHumanRequest) (own : Bool) (item : CoreHumanRequest)
      (old mid new : Option HumanRequestRow) (f owner : Option Uuid)
      → (own ≡ true → Left py (some item) (run_after old owner) old mid)
      → (own ≡ false → mid ≡ old)
      → Left py l (run_after mid f) mid new
      → Left py (later l own item) (run_after old (if own then owner else f)) old new
  Left-step (some x) true item old mid new f owner mine others (row, found, carries, run) =
      let (first, there, c, r) = mine refl in
      (row, found, carries, run ∙ ap (λ o. run_after o f) there ∙ r)
  Left-step (some x) false item old mid new f owner mine others (row, found, carries, run) =
      (row, found, carries, run ∙ ap (λ o. run_after o f) (others refl))
  Left-step none true item old mid new f owner mine others same =
      let (first, there, c, r) = mine refl in (first, same ∙ there, c, r)
  Left-step none false item old mid new f owner mine others same = same ∙ others refl

  kept_run-run_after :
      (old : Option HumanRequestRow) (run_id : Uuid)
      → some (kept_run old run_id) ≡ run_after old (some run_id)
  kept_run-run_after none run_id = refl
  kept_run-run_after (some old) run_id = refl

  module _ (item : CoreHumanRequest) (db mid : Db) (u : Upserted py item db mid) (id : Uuid) where
    own_id : same_id id (py.parse_uuid item.request_id) ≡ true → u.id ≡ id
    own_id own =
        let passed : (u.id == id) ≡ true = ap (same_id id) (sym u.parsed) ∙ own in ground arith

    is_own : id ≡ u.id → same_id id (py.parse_uuid item.request_id) ≡ false → ⊥
    is_own e other =
        let failed : (u.id == id) ≡ false = ap (same_id id) (sym u.parsed) ∙ other in ground arith

    own-Left :
        same_id id (py.parse_uuid item.request_id) ≡ true
        → Left py
            (some item)
            (run_after (get_human db id) (py.parse_uuid item.run_id))
            (get_human db id)
            (get_human mid id)
    own-Left own =
        let same : u.id ≡ id = own_id own in
        (
          u.row,
          ap (get_human mid) (sym same) ∙ u.found,
          u.carries,
          ap some u.run
              ∙ kept_run-run_after (get_human db u.id) u.run_id
              ∙ ap (λ i. run_after (get_human db i) (some u.run_id)) same
              ∙ ap (run_after (get_human db id)) (sym u.owner),
        )

    other-same :
        same_id id (py.parse_uuid item.request_id) ≡ false → get_human mid id ≡ get_human db id
    other-same other = u.others id (λ e. is_own e other)

  nothing_done : {db db' : Db} → pure tt db ≡ ok (tt, db') → db' ≡ db
  nothing_done e = ground arith

  upsert_each-Left :
      (current : List CoreHumanRequest) (db db' : Db)
      → upsert_each py current db ≡ ok (tt, db')
      → (id : Uuid)
      → Left py
          (latest py id current)
          (run_after (get_human db id) (first_run py id current))
          (get_human db id)
          (get_human db' id)
  unfolding upsert_each
  upsert_each-Left [] db db' e id = ap (λ d. get_human d id) (nothing_done e)
  upsert_each-Left (item ∷ current) db db' e id =
      let (u, mid, first, rest) =
        >>=-eq-ok (upsert_human_request py item) (λ _. upsert_each py current) db db' tt e in
      let stored = upsert_human_request-Upserted py item db mid first in
      Left-step (latest py id current) (same_id id (py.parse_uuid item.request_id)) item
        (get_human db id) (get_human mid id) (get_human db' id) (first_run py id current)
        (py.parse_uuid item.run_id) (own-Left item db mid stored id)
        (other-same item db mid stored id) (upsert_each-Left current mid db' rest id)

  upsert_each-parsed :
      (current : List CoreHumanRequest) (db db' : Db)
      → upsert_each py current db ≡ ok (tt, db')
      → All (λ item. (id : Uuid) × (py.parse_uuid item.request_id ≡ some id)) current
  unfolding upsert_each
  upsert_each-parsed [] db db' e = tt
  upsert_each-parsed (item ∷ current) db db' e =
      let (u, mid, first, rest) =
        >>=-eq-ok (upsert_human_request py item) (λ _. upsert_each py current) db db' tt e in
      let stored = upsert_human_request-Upserted py item db mid first in
      ((stored.id, stored.parsed), upsert_each-parsed current mid db' rest)

  pub upsert_each-Stores :
      (current : List CoreHumanRequest) (db db' : Db)
      → upsert_each py current db ≡ ok (tt, db')
      → Stores py current db db'
  upsert_each-Stores current db db' e =
      (upsert_each-parsed current db db' e, upsert_each-Left current db db' e)

  pub upsert_each-Quiet : (current : List CoreHumanRequest) → Quiet (upsert_each py current)
  unfolding upsert_each
  upsert_each-Quiet [] = Quiet-pure tt
  upsert_each-Quiet (item ∷ current) =
      Quiet-then (upsert_human_request-Quiet py item) (upsert_each-Quiet current)
