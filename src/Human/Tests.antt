-- ===== src/Human/Tests.antt =====
-- A question of the Core with one live request, answered and decided.
use z_apply_backend.Base.{◌≡◌, false, true, none, some, String, Bool, [], ◌∷◌, str_eq, Option, List}
use z_apply_backend.Fixtures.{python, two_runs}
use z_apply_backend.Human.{Reply, resolved, refused, submission_decision}
use z_apply_backend.Human.Answers.{Answers, submission_decision-Answers}
use z_apply_backend.Human.Listing.{human_requests}
use z_apply_backend.Human.Lists.{Lists, human_requests-Lists}
use z_apply_backend.Models.{CoreHumanRequest}
use z_apply_backend.Sql.Sorting.{in_memory}

abbrev asked : Option String → Option Bool → CoreHumanRequest
asked text approved = record {
  request_id = "xxxx";
  run_id = "xx";
  kind = "question";
  question = "Which salary?";
  context = "";
  options = [];
  risk = "low";
  allow_free_text = true;
  image_artifact_id = none;
  status = "pending";
  answer = text;
  approved = approved;
  responder = none;
  created_at = 20;
  resolved_at = none;
}

abbrev live : Option (Option (List CoreHumanRequest))
live = some (some (asked none none ∷ []))

abbrev reply : String → String → Reply
reply id text = resolved (asked (some text) none)

abbrev decide : String → Bool → Reply
decide id approve = resolved (asked none (some approve))

submission_decision-Answers_example :
    (let (o, db') = submission_decision python two_runs 4 live decide "approve" in
      Answers python two_runs 4 live (λ id. decide id (str_eq "approve" "approve")) o db')
    × (str_eq "approve" "approve" ≡ false
        → str_eq "approve" "reject" ≡ false
        → submission_decision python two_runs 4 live decide "approve"
          ≡ (refused (record { status = 422; code = "invalid_submission_decision" }), two_runs))
submission_decision-Answers_example =
    submission_decision-Answers python two_runs 4 live decide "approve"

human_requests-Lists_example :
    let (o, db') = human_requests in_memory python 2 live two_runs in
    Lists in_memory python 2 live two_runs o db'
human_requests-Lists_example = human_requests-Lists in_memory python 2 live two_runs
