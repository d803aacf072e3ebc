-- ===== src/Repo/Upserts.antt =====
-- What can be read back after the upsert of an artifact.
use z_apply_backend.Base.{
  ℕ, ◌≡◌, refl, ap, ◌∙◌, true, Option, none, some, [], ◌∷◌, ◌++◌, arith, ◌==◌, find?, update_where,
  Option-cases, inl, inr, any-none, any-some, found_passes, find?-snoc, find?-update_where,
}
use z_apply_backend.Json.{Python}
use z_apply_backend.Models.{Uuid, ArtifactRow, Db, CoreArtifact}
use z_apply_backend.Repo.{ok, accepted, ◌>>=◌}
use z_apply_backend.Repo.Events.{has_run}
use z_apply_backend.Repo.Records.{store_artifact, upsert_artifact, get_artifact}

-- The run that an artifact belongs to after the upsert: the one that it had, if it was known.
unfoldable pub owner_of : Option ArtifactRow → Uuid → Uuid
owner_of none run_id = run_id
owner_of (some old) run_id = old.run_id

abbrev with_owner : ArtifactRow → Uuid → ArtifactRow
with_owner row run_id = record row { run_id = run_id }

abbrev kept : ArtifactRow → ArtifactRow → ArtifactRow
kept row old = record row { id = old.id; run_id = old.run_id }

equal : (a b : ℕ) → (a == b) ≡ true → a ≡ b
equal a b h = ground arith

store_artifact-ok :
    (row : ArtifactRow) (db : Db)
    → has_run row.run_id db.runs ≡ true
    → (db' : Db) × (store_artifact row db ≡ ok (tt, db'))
      × (get_artifact db' row.id
          ≡ some (with_owner row (owner_of (get_artifact db row.id) row.run_id)))
unfolding store_artifact get_artifact owner_of
store_artifact-ok row db known = elim (Option-cases (find? (λ a. a.id == row.id) db.artifacts)) [
  | inl fresh ↦ (
    record db { artifacts = db.artifacts ++ row ∷ [] },
    rw (any-none (λ a. a.id == row.id) db.artifacts fresh, known),
    rw fresh (find?-snoc (λ a. a.id == row.id) db.artifacts row fresh (ground arith)),
  )
  | inr (old, found) ↦
      let same : old.id ≡ row.id =
        equal old.id row.id (found_passes (λ a. a.id == row.id) db.artifacts old found) in
      (
        record db { artifacts = update_where (λ a. a.id == row.id) (kept row) db.artifacts },
        rw (any-some (λ a. a.id == row.id) db.artifacts old found),
        rw found (
            find?-update_where (λ a. a.id == row.id) (kept row) db.artifacts old (λ r. refl) found
            ∙ ap (λ i. some (record row { id = i; run_id = old.run_id })) same),
      )
]

module _ (py : Python) (artifact : CoreArtifact) (id run_id : Uuid) where
  abbrev pub row_of : Uuid → ArtifactRow
  row_of owner = record {
    id = id;
    run_id = owner;
    kind = artifact.kind;
    filename = artifact.filename;
    relative_path = artifact.relative_path;
    mime_type = artifact.mime_type;
    size_bytes = artifact.size_bytes;
    sha256 = artifact.sha256;
    created_at = artifact.created_at;
  }

  upsert_artifact-direct :
      (db : Db)
      → py.parse_uuid artifact.artifact_id ≡ some id
      → py.parse_uuid artifact.run_id ≡ some run_id
      → upsert_artifact py artifact db ≡ store_artifact (row_of run_id) db
  unfolding upsert_artifact
  upsert_artifact-direct db parsed owner =
      ap
        (λ i.
          (accepted i >>= λ i'.
          accepted (py.parse_uuid artifact.run_id) >>= λ r. store_artifact (row r i'))
            db)
        parsed
      ∙ ap (λ r. (accepted r >>= λ r'. store_artifact (row r' id)) db) owner
    where
      row : Uuid → Uuid → ArtifactRow
      row owner' i = record (row_of owner') { id = i }

  -- An artifact of a stored run is always stored, new or not. `get_artifact` then finds what the
  -- Core reported, under the run that the artifact belonged to first.
  pub upsert_artifact-get_artifact :
      (db : Db)
      → py.parse_uuid artifact.artifact_id ≡ some id
      → py.parse_uuid artifact.run_id ≡ some run_id
      → has_run run_id db.runs ≡ true
      → (db' : Db) × (upsert_artifact py artifact db ≡ ok (tt, db'))
        × (get_artifact db' id ≡ some (row_of (owner_of (get_artifact db id) run_id)))
  upsert_artifact-get_artifact db parsed owner known =
      let (db', put, got) = store_artifact-ok (row_of run_id) db known in
      (db', upsert_artifact-direct db parsed owner ∙ put, got)
