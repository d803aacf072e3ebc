-- ===== src/Artifacts/Inside.antt =====
-- Which files are served: only those below the artifact root.
use z_apply_backend.Api.{Answer, refused, response}
use z_apply_backend.Artifacts.{
  Files, begins, FileResponse, artifact_missing, guarded, file_of, artifact,
}
use z_apply_backend.Base.{
  String, ◌≡◌, refl, sym, ap, ◌∙◌, Bool, true, false, not, ◌||◌, Option, none, some, List, [], ◌∷◌,
  ◌++◌, arith, All, All-append_right, str_eq, eq_iff, subst, if◌then◌else◌,
}
use z_apply_backend.Json.{Python}
use z_apply_backend.Models.{Uuid, ArtifactRow, Db, CoreArtifact}
use z_apply_backend.Repo.{ok}
use z_apply_backend.Repo.Events.{has_run}
use z_apply_backend.Repo.Records.{upsert_artifact, get_artifact}
use z_apply_backend.Repo.Upserts.{row_of, upsert_artifact-get_artifact}

-- The law of `resolve()` that the guard relies on: no part of its result is "..".
pub record Canonical (files : Files) : Type 0 where
  pub no_parent :
      (p : files.Path') → All (λ part. str_eq part ".." ≡ false) (files.parts (files.resolve p))

begins-rest :
    (prefix parts : List String)
    → begins prefix parts ≡ true
    → (rest : List String) × (parts ≡ prefix ++ rest)
unfolding begins
begins-rest [] parts h = (parts, refl)
begins-rest (p ∷ prefix) [] h = cc
begins-rest (p ∷ prefix) (q ∷ parts) h =
    let same : p ≡ q = ground (arith, eq_iff p q) in
    let (rest, e) = begins-rest prefix parts (ground arith) in
    (rest, ap (λ x. x ∷ parts) (sym same) ∙ ap (◌∷◌ p) e)

module _ (files : Files) where
  -- The file of a row, below the root.
  abbrev pub Inside : files.Path' → ArtifactRow → FileResponse files → Type 0
  Inside root item f =
      (f.media_type ≡ item.mime_type)
      × (f.filename ≡ item.filename)
      × (files.is_file f.path ≡ true)
      × ((rest : List String) × (files.parts f.path ≡ files.parts root ++ rest)
          × All (λ part. str_eq part ".." ≡ false) rest)

  guarded-Inside :
      (law : Canonical files) (root p : files.Path') (item : ArtifactRow) (f : FileResponse files)
      → guarded files root (files.resolve p) item ≡ response f
      → Inside root item f
  unfolding guarded
  guarded-Inside law root p item f e =
      settle (begins (files.parts root) (files.parts path)) (files.is_file path) refl refl e
    where
      path : files.Path'
      path = files.resolve p

      served : FileResponse files
      served = record { path = path; media_type = item.mime_type; filename = item.filename }

      file_in : Answer (FileResponse files) → FileResponse files
      file_in (response g) = g
      file_in _ = served

      settle :
          (b i : Bool)
          → begins (files.parts root) (files.parts path) ≡ b
          → files.is_file path ≡ i
          → (if not b || not i then refused artifact_missing else response served) ≡ response f
          → Inside root item f
      settle true true below found h =
          let (rest, e) = begins-rest (files.parts root) (files.parts path) below in
          subst (Inside root item) (ap file_in h) (
            refl,
            refl,
            found,
            (
              rest,
              e,
              All-append_right (λ part. str_eq part ".." ≡ false) (files.parts root) rest
                  (subst (All (λ part. str_eq part ".." ≡ false)) e (law.no_parent p)),
            ),
          )
      settle true false below found h = cc
      settle false i below found h = cc

  -- If a file is sent, it belongs to a stored artifact with the requested id, goes out with its
  -- media type and its name, exists, and lies below the artifact root: its parts are those of the
  -- root and then others, none of which is "..". That holds whatever path the Core reported, if
  -- `resolve()` leaves no "..".
  pub artifact-Inside :
      Canonical files
      → (artifact_root : files.Path') (db : Db) (id : Uuid) (f : FileResponse files)
      → artifact files artifact_root db id ≡ response f
      → (item : ArtifactRow) × (get_artifact db id ≡ some item)
        × Inside (files.resolve artifact_root) item f
  unfolding artifact file_of
  artifact-Inside law artifact_root db id f e = settle (get_artifact db id) refl e
    where
      root : files.Path'
      root = files.resolve artifact_root

      settle :
          (o : Option ArtifactRow)
          → get_artifact db id ≡ o
          → file_of files root o ≡ response f
          → (item : ArtifactRow) × (get_artifact db id ≡ some item) × Inside root item f
      settle none found h = cc
      settle (some item) found h =
          (item, found, guarded-Inside law root (files.slash root item.relative_path) item f h)

  module _ (py : Python) (reported : CoreArtifact) (id run_id : Uuid)
      (artifact_root : files.Path') where
    -- Where the path of the Core leads to.
    abbrev pub target : files.Path'
    target = files.resolve (files.slash (files.resolve artifact_root) reported.relative_path)

    abbrev pub below_root : Bool
    below_root = begins (files.parts (files.resolve artifact_root)) (files.parts target)

    guarded-below :
        (item : ArtifactRow)
        → below_root ≡ true
        → files.is_file target ≡ true
        → guarded files (files.resolve artifact_root) target item
          ≡ response
              (record { path = target; media_type = item.mime_type; filename = item.filename })
    unfolding guarded
    guarded-below item b i = rw (b, i)

    guarded-outside :
        (item : ArtifactRow)
        → below_root ≡ false
        → guarded files (files.resolve artifact_root) target item ≡ refused artifact_missing
    unfolding guarded
    guarded-outside item b = rw b

    -- What the Core reports for a stored run is stored, and then served under its id: the file at
    -- its path with its media type and name, if that lies below the root and is a file. If it lies
    -- elsewhere, the answer is 404.
    pub upsert_artifact-artifact :
        (db : Db)
        → py.parse_uuid reported.artifact_id ≡ some id
        → py.parse_uuid reported.run_id ≡ some run_id
        → has_run run_id db.runs ≡ true
        → (db' : Db) × (upsert_artifact py reported db ≡ ok (tt, db'))
          × (below_root ≡ true
              → files.is_file target ≡ true
              → artifact files artifact_root db' id
                ≡ response (record {
                  path = target;
                  media_type = reported.mime_type;
                  filename = reported.filename;
                }))
          × (below_root ≡ false → artifact files artifact_root db' id ≡ refused artifact_missing)
    unfolding artifact file_of
    upsert_artifact-artifact db parsed owner known =
        let (db', stored, got) =
          upsert_artifact-get_artifact py reported id run_id db parsed owner known in
        let found = ap (file_of files (files.resolve artifact_root)) got in
        (
          db',
          stored,
          λ b i. found ∙ guarded-below (row_of py reported id run_id _) b i,
          λ b. found ∙ guarded-outside (row_of py reported id run_id _) b,
        )
