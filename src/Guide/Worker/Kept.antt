-- ===== src/Guide/Worker/Kept.antt =====
-- A job past its request stays so, whatever else writes the jobs
-- (apps/api/src/modules/shipping/postgres-shipping-guide-job-repository.ts).
use automatizacion_wh.Common.{
  ℕ, ◌≡◌, refl, subst, inl, inr, Bool, true, false, ◌&&◌, List, ◌∷◌, Text, ◌==◌, ==_iff, Bool-cases,
  exists_row, arith,
}
use automatizacion_wh.Database.{Db}
use automatizacion_wh.Database.Orders.{Order, Summary}
use automatizacion_wh.Database.Guides.{GuideJob, GuideJobStatus, ShippingQuote}
use automatizacion_wh.Order.Transition.Confirm.{Env, enqueue_guide_job}
use automatizacion_wh.Order.Transition.Moves.{fail_pending_job, is_pending}
use automatizacion_wh.Guide.Jobs.{
  Desk, is_job, is_failed, write_jobs, enqueue, default_job, is_job_of,
}
use automatizacion_wh.Guide.Marks.{
  insert_message, write_reviewed, is_uncertain_job, is_retriable_job, lacks_pdf, job_retried,
  write_retried, review_uncertain, attach_pdf,
}
use automatizacion_wh.Guide.State.{assert_guide_job_transition, guide_transitions}
use automatizacion_wh.Guide.Laws.{retriable_failed}
use automatizacion_wh.Guide.Worker.Laws.{Spent, is_spent, update-Spent, both_ways}
use automatizacion_wh.Guide.Worker.Floor.{desk_after, desk_after_write, confirm_job}

failed_or_spent : (s : GuideJobStatus) → is_failed s ≡ true → is_spent s ≡ true → ⊥
failed_or_spent s h e = ground arith

pub pending_or_spent :
    (b : Bool) (s : GuideJobStatus) → (b && is_pending s) ≡ true → is_spent s ≡ true → ⊥
pending_or_spent b s h e = ground arith

pub retry_keeps :
    (i : ℕ) (desk : Desk) (job_id : ℕ)
    → Spent i desk.db.guide_jobs
    → Spent i (desk_after desk (job_retried desk job_id)).db.guide_jobs
unfolding job_retried write_retried write_jobs assert_guide_job_transition guide_transitions
retry_keeps i desk job_id s =
    update-Spent i (is_retriable_job job_id) _ desk.db.guide_jobs (λ j. refl)
      (λ j h here old. absurd (failed_or_spent j.status (retriable_failed job_id j h) old)) s

pub review_keeps :
    (i : ℕ) (desk : Desk) (job_id : ℕ) (number : Text)
    → Spent i desk.db.guide_jobs
    → Spent i (desk_after desk (review_uncertain desk job_id number)).db.guide_jobs
unfolding review_uncertain write_reviewed write_jobs insert_message assert_guide_job_transition
    guide_transitions
review_keeps i desk job_id number s =
    elim (Bool-cases (exists_row (is_uncertain_job job_id) desk.db.guide_jobs)) [
      | inl found ↦ rw found (
          update-Spent i (is_uncertain_job job_id) _ desk.db.guide_jobs (λ j. refl)
            (λ j h here old. refl) s)
      | inr missed ↦ rw missed s
    ]

pub attach_keeps :
    (i : ℕ) (desk : Desk) (job_id : ℕ) (key : Text)
    → Spent i desk.db.guide_jobs
    → Spent i (attach_pdf desk job_id key).0.db.guide_jobs
unfolding attach_pdf write_jobs
attach_keeps i desk job_id key s =
    update-Spent i (lacks_pdf job_id) _ desk.db.guide_jobs (λ j. refl) (λ j h here old. old) s

pub cancel_keeps :
    (i : ℕ) (db : Db) (order_id : ℕ)
    → Spent i db.guide_jobs
    → Spent i (fail_pending_job db order_id).guide_jobs
unfolding fail_pending_job
cancel_keeps i db order_id s =
    update-Spent i _ _ db.guide_jobs (λ j. refl)
      (λ j h here old. absurd (pending_or_spent (j.order_id == order_id) j.status h old)) s

-- A new job does not take the key of a job that exists.
insert-Spent :
    (i : ℕ) (j : GuideJob) (jobs : List GuideJob)
    → exists_row (is_job j.id) jobs ≡ false
    → Spent i jobs
    → Spent i (j ∷ jobs)
unfolding exists_row
insert-Spent i j jobs fresh s =
    let free : (j.id == i) ≡ true → ⊥ = λ e.
      both_ways (exists_row (is_job i) jobs)
        (subst (λ n. exists_row (is_job n) jobs ≡ false) ((==_iff j.id i).0 e) fresh) s.0 in
    (ground (arith, s.0), ((λ e. absurd (free e)), s.1))

pub enqueue_keeps :
    (i new_id now : ℕ) (desk : Desk) (order_id : ℕ)
    → Spent i desk.db.guide_jobs
    → Spent i (desk_after_write desk (enqueue new_id now desk order_id)).db.guide_jobs
unfolding enqueue
enqueue_keeps i new_id now desk order_id s =
    elim (Bool-cases (exists_row (is_job_of order_id) desk.db.guide_jobs)) [
      | inl queued ↦ rw queued s
      | inr absent ↦ elim (Bool-cases (exists_row (is_job new_id) desk.db.guide_jobs)) [
        | inl taken ↦ rw (absent, taken) s
        | inr free ↦
            rw (absent, free)
              (insert-Spent i (default_job new_id now order_id) desk.db.guide_jobs free s)
      ]
    ]

pub confirm_keeps :
    (i : ℕ) (env : Env) (desk : Desk) (order : Order) (summary : Summary) (quote : ShippingQuote)
    → Spent i desk.db.guide_jobs
    → Spent i (confirm_job env desk order summary quote).db.guide_jobs
unfolding enqueue_guide_job
confirm_keeps i env desk order summary quote s =
    elim (Bool-cases (exists_row (is_job env.new_id) desk.db.guide_jobs)) [
      | inl taken ↦ rw taken s
      | inr free ↦ elim (Bool-cases (exists_row (λ j. j.order_id == order.id) desk.db.guide_jobs)) [
        | inl queued ↦ rw (free, queued) s
        | inr absent ↦ rw (free, absent) (insert-Spent i _ desk.db.guide_jobs free s)
      ]
    ]
