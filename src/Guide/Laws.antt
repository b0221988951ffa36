-- ===== src/Guide/Laws.antt =====
-- What the writes of apps/api/src/modules/shipping/postgres-shipping-guide-job-repository.ts do to the
-- statuses of the jobs.
use automatizacion_wh.Common.{
  ℕ, ◌≡◌, refl, sym, subst, ◌⊎◌, inl, inr, Bool, true, false, ◌&&◌, Option, some, List, [], ◌∷◌,
  Text, Bool-cases, update_where, exists_row, All, arith,
}
use automatizacion_wh.Database.Guides.{
  GuideJob, GuideJobStatus, pending, processing, created, uncertain, failed,
}
use automatizacion_wh.Guide.State.{
  GuideJobAction, guide_transitions, mark_created, mark_uncertain, resolve_uncertain,
  retry_rejected,
}
use automatizacion_wh.Guide.Jobs.{Desk, is_job, is_processing, is_uncertain, is_failed, write_jobs}
use automatizacion_wh.Guide.Marks.{
  is_processing_job, is_uncertain_job, is_retriable_job, insert_message, write_created,
  write_uncertain, write_reviewed, write_retried,
}

-- Each row keeps its status or moves along the table by the action, and keeps its keys.
abbrev pub Moves : GuideJobAction → GuideJob → GuideJob → Type 0
Moves a j k =
    (k.id ≡ j.id)
    × (k.order_id ≡ j.order_id)
    × ((k.status ≡ j.status) ⊎ (guide_transitions j.status a ≡ some k.status))

pub data Along (a : GuideJobAction) : List GuideJob → List GuideJob → Type 0 where
  no_rows : Along a [] []
  next_row :
      {j k : GuideJob} {js ks : List GuideJob}
      → Moves a j k
      → Along a js ks
      → Along a (j ∷ js) (k ∷ ks)

same_rows : (a : GuideJobAction) (js : List GuideJob) → Along a js js
same_rows a [] = no_rows
same_rows a (j ∷ js) = next_row (refl, refl, inl refl) (same_rows a js)

update-Along :
    (a : GuideJobAction) (p : GuideJob → Bool) (f : GuideJob → GuideJob) (js : List GuideJob)
    → All (λ j. p j ≡ true → Moves a j (f j)) js
    → Along a js (update_where p f js)
unfolding update_where
update-Along a p f [] h = no_rows
update-Along a p f (j ∷ js) h = elim (Bool-cases (p j)) [
  | inl hit ↦ rw hit (next_row (h.0 hit) (update-Along a p f js h.1))
  | inr miss ↦ rw miss (next_row (refl, refl, inl refl) (update-Along a p f js h.1))
]

pub All-rows {κ} : (P : GuideJob → Type κ) (js : List GuideJob) → ((j : GuideJob) → P j) → All P js
All-rows P [] h = tt
All-rows P (j ∷ js) h = (h j, All-rows P js h)

pub and_true : (a b : Bool) → (a && b) ≡ true → (a ≡ true) × (b ≡ true)
and_true true b e = (refl, e)
and_true false b e = cc

processing_only : (s : GuideJobStatus) → is_processing s ≡ true → s ≡ processing
processing_only s e = ground arith

uncertain_only : (s : GuideJobStatus) → is_uncertain s ≡ true → s ≡ uncertain
uncertain_only s e = ground arith

failed_only : (s : GuideJobStatus) → is_failed s ≡ true → s ≡ failed
failed_only s e = ground arith

moves_from :
    (a : GuideJobAction) (s t u : GuideJobStatus)
    → s ≡ t
    → guide_transitions t a ≡ some u
    → guide_transitions s a ≡ some u
moves_from a s t u e h = subst (λ x. guide_transitions x a ≡ some u) (sym e) h

pub All-map {κ λ₁} :
    {P : GuideJob → Type κ} {Q : GuideJob → Type λ₁} (js : List GuideJob)
    → ((j : GuideJob) → P j → Q j)
    → All P js
    → All Q js
All-map [] f h = tt
All-map (j ∷ js) f h = (f j h.0, All-map js f h.1)

pub retriable_failed :
    (job_id : ℕ) (j : GuideJob) → is_retriable_job job_id j ≡ true → is_failed j.status ≡ true
retriable_failed job_id j h = ground arith

module _ (desk : Desk) (job_id : ℕ) where
  created-Along :
      (number : Text) (freight_cop : ℕ)
      → Along mark_created desk.db.guide_jobs
          (write_created desk job_id number freight_cop).db.guide_jobs
  unfolding write_created write_jobs insert_message guide_transitions
  created-Along number freight_cop =
      elim (Bool-cases (exists_row (is_processing_job job_id) desk.db.guide_jobs)) [
        | inl found ↦ rw found (
            update-Along mark_created (is_processing_job job_id) _ desk.db.guide_jobs (
              All-rows _ desk.db.guide_jobs λ j e. (
                refl,
                refl,
                inr (
                    moves_from mark_created j.status processing created
                      (processing_only j.status
                        (and_true (is_job job_id j) (is_processing j.status) e).1)
                      refl),
              )))
        | inr missed ↦ rw missed (same_rows mark_created desk.db.guide_jobs)
      ]

  uncertain-Along :
      (maybe : Option Text)
      → Along mark_uncertain desk.db.guide_jobs (write_uncertain desk job_id maybe).db.guide_jobs
  unfolding write_uncertain write_jobs guide_transitions
  uncertain-Along maybe =
      update-Along mark_uncertain (is_processing_job job_id) _ desk.db.guide_jobs (
        All-rows _ desk.db.guide_jobs λ j e. (
          refl,
          refl,
          inr (
              moves_from mark_uncertain j.status processing uncertain
                (processing_only j.status (and_true (is_job job_id j) (is_processing j.status) e).1)
                refl),
        ))

  reviewed-Along :
      (number : Text)
      → Along resolve_uncertain desk.db.guide_jobs (write_reviewed desk job_id number).db.guide_jobs
  unfolding write_reviewed write_jobs insert_message guide_transitions
  reviewed-Along number =
      elim (Bool-cases (exists_row (is_uncertain_job job_id) desk.db.guide_jobs)) [
        | inl found ↦ rw found (
            update-Along resolve_uncertain (is_uncertain_job job_id) _ desk.db.guide_jobs (
              All-rows _ desk.db.guide_jobs λ j e. (
                refl,
                refl,
                inr (
                    moves_from resolve_uncertain j.status uncertain created
                      (uncertain_only j.status
                        (and_true (is_job job_id j) (is_uncertain j.status) e).1)
                      refl),
              )))
        | inr missed ↦ rw missed (same_rows resolve_uncertain desk.db.guide_jobs)
      ]

  retried-Along : Along retry_rejected desk.db.guide_jobs (write_retried desk job_id).db.guide_jobs
  unfolding write_retried write_jobs guide_transitions
  retried-Along = update-Along retry_rejected (is_retriable_job job_id) _ desk.db.guide_jobs (
      All-rows _ desk.db.guide_jobs λ j h. (
        refl,
        refl,
        inr (
            moves_from retry_rejected j.status failed pending
              (failed_only j.status (retriable_failed job_id j h)) refl),
      ))

-- `markCreated`, `markUncertain`, `reviewUncertain` and `retryRejected` move jobs along the table of
-- transitions only, each by its own action, and keep their keys, for every id and every state.
pub marks_follow_table :
    (desk : Desk) (job_id : ℕ) (number : Text) (maybe : Option Text) (freight_cop : ℕ)
    → Along mark_created desk.db.guide_jobs
        (write_created desk job_id number freight_cop).db.guide_jobs
      × Along mark_uncertain desk.db.guide_jobs (write_uncertain desk job_id maybe).db.guide_jobs
      × Along resolve_uncertain desk.db.guide_jobs (write_reviewed desk job_id number).db.guide_jobs
      × Along retry_rejected desk.db.guide_jobs (write_retried desk job_id).db.guide_jobs
marks_follow_table desk job_id number maybe freight_cop = (
  created-Along desk job_id number freight_cop,
  uncertain-Along desk job_id maybe,
  reviewed-Along desk job_id number,
  retried-Along desk job_id,
)
