-- ===== src/Tests/Guides.antt =====
-- The guide of the order of the shop of the tests.
use automatizacion_wh.Common.{false, none, [], ◌∷◌, codes, AtMostOne}
use automatizacion_wh.Database.Guides.{pending, processing}
use automatizacion_wh.Guide.State.{mark_created, mark_uncertain, resolve_uncertain, retry_rejected}
use automatizacion_wh.Guide.Jobs.{Desk}
use automatizacion_wh.Guide.Marks.{write_created, write_uncertain, write_reviewed, write_retried}
use automatizacion_wh.Guide.Laws.{Along, marks_follow_table}
use automatizacion_wh.Guide.Worker.{Faults, issued, unknown}
use automatizacion_wh.Guide.Worker.Floor.{runs, retries, perform_all}
use automatizacion_wh.Guide.Worker.Once.{is_issue, perform_all_once}
use automatizacion_wh.Tests.Shop.{packed, guide}

-- The order is confirmed and its job waits.
abbrev waiting : Desk
waiting = record {
  db = record packed { guide_jobs = record guide { status = pending } ∷ [] };
  links = record { order_id = 1; origin_conversation_id = 40 } ∷ [];
  messages = [];
}

abbrev busy : Desk
busy = record waiting {
  db = record packed { guide_jobs = record guide { status = processing } ∷ [] };
}

abbrev smooth : Faults
smooth = record {
  find_throws = none;
  refusal_throws = none;
  created_throws = false;
  created_commits = false;
  uncertain_throws = false;
  failed_throws = false;
  incident_throws = false;
}

-- Two workers, the second after a retry, and a carrier that always issues a guide.
perform_all_once_example :
    AtMostOne
      (is_issue 20)
      (perform_all
        (record { desk = waiting; calls = [] })
        (runs (λ i. false) smooth (λ r. issued (codes "G1") 12000)
          ∷ retries 20
          ∷ runs (λ i. false) smooth (λ r. unknown)
          ∷ [])).calls
perform_all_once_example =
    perform_all_once waiting
      (runs (λ i. false) smooth (λ r. issued (codes "G1") 12000)
        ∷ retries 20
        ∷ runs (λ i. false) smooth (λ r. unknown)
        ∷ [])
      20

marks_follow_table_example :
    Along mark_created busy.db.guide_jobs (write_created busy 20 (codes "G1") 12000).db.guide_jobs
    × Along mark_uncertain busy.db.guide_jobs (write_uncertain busy 20 none).db.guide_jobs
    × Along resolve_uncertain busy.db.guide_jobs (write_reviewed busy 20 (codes "G1")).db.guide_jobs
    × Along retry_rejected busy.db.guide_jobs (write_retried busy 20).db.guide_jobs
marks_follow_table_example = marks_follow_table busy 20 (codes "G1") none 12000
