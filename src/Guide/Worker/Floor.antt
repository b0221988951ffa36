-- ===== src/Guide/Worker/Floor.antt =====
-- What writes the guide jobs, in any order: runs of the worker
-- (apps/api/src/modules/shipping/shipping-guide-worker.ts), the methods of the repository, and the
-- orders; with the calls to the carrier that the runs have made.
use automatizacion_wh.Common.{
  ℕ, Bool, Option, none, some, List, [], ◌∷◌, Text, Result, ok, err, if◌then◌else◌, exists_row,
}
use automatizacion_wh.Database.{Db}
use automatizacion_wh.Database.Orders.{Order, Summary}
use automatizacion_wh.Database.Guides.{ShippingQuote}
use automatizacion_wh.Order.Transition.Confirm.{Env, enqueue_guide_job}
use automatizacion_wh.Order.Transition.Moves.{fail_pending_job}
use automatizacion_wh.Guide.Jobs.{Desk, is_job, enqueue}
use automatizacion_wh.Guide.Marks.{job_retried, review_uncertain, attach_pdf}
use automatizacion_wh.Guide.Worker.{Answer, Faults, GuideRequest, Call, run_once}

pub record Floor : Type 0 where
  pub desk : Desk
  pub calls : List Call

-- A run of the worker, or another write of the jobs: a retry, a review, a PDF, a new job by
-- `enqueue` or by a confirmed order, the end of a pending job by a cancelled order. `others` puts any
-- rows into the other tables.
pub data Act : Type 0 where
  runs : (ℕ → Bool) → Faults → (GuideRequest → Answer) → Act
  retries : ℕ → Act
  reviews : ℕ → Text → Act
  attaches : ℕ → Text → Act
  enqueues : ℕ → ℕ → ℕ → Act
  confirms : Env → Order → Summary → ShippingQuote → Act
  cancels : ℕ → Act
  others : Db → Act

abbrev pub desk_after {ℓ} : {A : Type ℓ} → Desk → Result (Desk × A) → Desk
desk_after desk (ok (desk', a)) = desk'
desk_after desk (err e) = desk

abbrev pub desk_after_write : Desk → Result Desk → Desk
desk_after_write desk (ok desk') = desk'
desk_after_write desk (err e) = desk

abbrev pub logged : Option Call → List Call → List Call
logged none calls = calls
logged (some c) calls = c ∷ calls

-- The primary key refuses the job of a confirmation whose random key is taken.
abbrev pub confirm_job : Env → Desk → Order → Summary → ShippingQuote → Desk
confirm_job env desk order summary quote =
    if exists_row (is_job env.new_id) desk.db.guide_jobs
    then desk
    else record desk { db = enqueue_guide_job env desk.db order summary quote }

unfoldable pub perform : Floor → Act → Floor
perform f (runs locked faults carrier) =
    let ran = run_once locked faults carrier f.desk in
    record { desk = ran.desk; calls = logged ran.call f.calls }
perform f (retries job_id) = record f { desk = desk_after f.desk (job_retried f.desk job_id) }
perform f (reviews job_id number) = record f {
  desk = desk_after f.desk (review_uncertain f.desk job_id number);
}
perform f (attaches job_id key) = record f { desk = (attach_pdf f.desk job_id key).0 }
perform f (enqueues new_id now order_id) = record f {
  desk = desk_after_write f.desk (enqueue new_id now f.desk order_id);
}
perform f (confirms env order summary quote) = record f {
  desk = confirm_job env f.desk order summary quote;
}
perform f (cancels order_id) = record f {
  desk = record f.desk { db = fail_pending_job f.desk.db order_id };
}
perform f (others db) = record f {
  desk = record f.desk { db = record db { guide_jobs = f.desk.db.guide_jobs } };
}

unfoldable pub perform_all : Floor → List Act → Floor
perform_all f [] = f
perform_all f (a ∷ acts) = perform_all (perform f a) acts
