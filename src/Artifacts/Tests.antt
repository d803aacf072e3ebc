-- ===== src/Artifacts/Tests.antt =====
-- A small file system, and artifacts in it and outside of it.
use z_apply_backend.Api.{refused, response}
use z_apply_backend.Artifacts.{Files, FileResponse, artifact_missing, guarded, file_of, artifact}
use z_apply_backend.Artifacts.Inside.{
  Canonical, Inside, artifact-Inside, target, below_root, upsert_artifact-artifact,
}
use z_apply_backend.Base.{
  String, ◌≡◌, refl, true, false, some, List, [], ◌∷◌, ◌++◌, All, Bool-cases, inl, inr, str_eq,
  if◌then◌else◌,
}
use z_apply_backend.Fixtures.{python, screenshot, two_runs}
use z_apply_backend.Models.{ArtifactRow, Db}
use z_apply_backend.Repo.{ok}
use z_apply_backend.Repo.Events.{has_run}
use z_apply_backend.Repo.Records.{get_artifact, upsert_artifact}

abbrev parent : List String → List String
parent [] = []
parent (p ∷ path) = path

-- The parts in reverse, with each ".." carried out.
abbrev climb : List String → List String → List String
climb path [] = path
climb path (p ∷ parts) = climb (if str_eq p ".." then parent path else p ∷ path) parts

abbrev backward : List String → List String → List String
backward path [] = path
backward path (p ∷ parts) = backward (p ∷ path) parts

abbrev resolved : List String → List String
resolved parts = backward [] (climb [] parts)

abbrev NotParent : String → Type 0
NotParent p = str_eq p ".." ≡ false

parent-All : (path : List String) → All NotParent path → All NotParent (parent path)
parent-All [] h = tt
parent-All (p ∷ path) h = h.1

climb-All : (path parts : List String) → All NotParent path → All NotParent (climb path parts)
climb-All path [] h = h
climb-All path (p ∷ parts) h = elim (Bool-cases (str_eq p "..")) [
  | inl up ↦ rw up (climb-All (parent path) parts (parent-All path h))
  | inr name ↦ rw name (climb-All (p ∷ path) parts (name, h))
]

backward-All :
    (path parts : List String)
    → All NotParent path
    → All NotParent parts
    → All NotParent (backward path parts)
backward-All path [] h k = h
backward-All path (p ∷ parts) h k = backward-All (p ∷ path) parts (k.0, h) k.1

-- Everything is a file here.
abbrev files : Files
files = record {
  Path' = List String;
  slash = λ path part. path ++ part ∷ [];
  resolve = resolved;
  parts = λ path. path;
  is_file = λ path. true;
}

canonical : Canonical files
canonical = record { no_parent = λ p. backward-All [] (climb [] p) tt (climb-All [] p tt) }

abbrev root : List String
root = "srv" ∷ "runs" ∷ []

abbrev row : ArtifactRow
row = record {
  id = 7;
  run_id = 2;
  kind = "screenshot";
  filename = "page.png";
  relative_path = "page.png";
  mime_type = "image/png";
  size_bytes = 9;
  sha256 = "00";
  created_at = 21;
}

abbrev db : Db
db = record two_runs { artifacts = row ∷ [] }

abbrev sent : FileResponse files
sent = record {
  path = "srv" ∷ "runs" ∷ "page.png" ∷ [];
  media_type = "image/png";
  filename = "page.png";
}

served : artifact files root db 7 ≡ response sent
unfolding artifact file_of guarded get_artifact
served = refl

artifact-Inside_example :
    (item : ArtifactRow) × (get_artifact db 7 ≡ some item) × Inside files (resolved root) item sent
artifact-Inside_example = artifact-Inside files canonical root db 7 sent served

run_known : has_run 2 two_runs.runs ≡ true
unfolding has_run
run_known = refl

upsert_artifact-artifact_example :
    (db' : Db) × (upsert_artifact python screenshot two_runs ≡ ok (tt, db'))
    × (below_root files python screenshot 7 2 root ≡ true
        → files.is_file (target files python screenshot 7 2 root) ≡ true
        → artifact files root db' 7
          ≡ response (record {
            path = target files python screenshot 7 2 root;
            media_type = "image/png";
            filename = "page.png";
          }))
    × (below_root files python screenshot 7 2 root ≡ false
        → artifact files root db' 7 ≡ refused artifact_missing)
upsert_artifact-artifact_example =
    upsert_artifact-artifact files python screenshot 7 2 root two_runs refl refl run_known
