-- ===== src/Guide/Marks.antt =====
-- The methods of apps/api/src/modules/shipping/postgres-shipping-guide-job-repository.ts that write
-- the outcome of a job.
use automatizacion_wh.Common.{
  ℕ, suc, zero, Bool, not, ◌&&◌, Option, none, some, List, [], ◌∷◌, Text, codes, Result, ok, ◌>>=◌,
  ◌==◌, if◌then◌else◌, is_some, same_text, select_one, exists_row,
}
use automatizacion_wh.Database.Guides.{GuideJob, pending, processing, created, uncertain, failed}
use automatizacion_wh.Order.Transition.Moves.{is_created}
use automatizacion_wh.Guide.State.{
  assert_guide_job_transition, mark_created, mark_uncertain, mark_failed, resolve_uncertain,
  retry_rejected,
}
use automatizacion_wh.Guide.Jobs.{
  GuideMessage, Desk, is_job, is_processing, is_uncertain, is_failed, write_jobs,
}

-- `value.slice(0, n)`.
unfoldable pub slice_to : ℕ → Text → Text
slice_to zero s = []
slice_to (suc n) [] = []
slice_to (suc n) (c ∷ s) = c ∷ slice_to n s

abbrev pub is_processing_job : ℕ → GuideJob → Bool
is_processing_job job_id j = is_job job_id j && is_processing j.status

abbrev pub is_uncertain_job : ℕ → GuideJob → Bool
is_uncertain_job job_id j = is_job job_id j && is_uncertain j.status

-- The rows that the insert selects: the links of the job's order, none for a job that has its message
-- (`ON CONFLICT (guide_job_id) DO NOTHING`). An order has one link at most, its primary key.
abbrev pub guide_messages : Desk → Option GuideJob → List GuideMessage
guide_messages desk none = []
guide_messages desk (some j) = elim (select_one (λ l. l.order_id == j.order_id) desk.links) [
  | none ↦ []
  | some l ↦
      if exists_row (λ m. m.guide_job_id == j.id) desk.messages
      then []
      else record {
        conversation_id = l.origin_conversation_id;
        guide_job_id = j.id;
        guide_order_id = j.order_id;
      }
        ∷ []
]

abbrev prepend : List GuideMessage → List GuideMessage → List GuideMessage
prepend [] ms = ms
prepend (m ∷ new) ms = m ∷ prepend new ms

unfoldable pub insert_message : Desk → ℕ → Desk
insert_message desk job_id = record desk {
  messages =
      prepend (guide_messages desk (select_one (is_job job_id) desk.db.guide_jobs)) desk.messages;
}

unfoldable pub write_created : Desk → ℕ → Text → ℕ → Desk
write_created desk job_id number freight_cop =
    if exists_row (is_processing_job job_id) desk.db.guide_jobs
    then insert_message
        (write_jobs desk (is_processing_job job_id) (λ j. record j {
          status = created;
          pre_shipment_number = some number;
          freight_cop = some freight_cop;
          error_code = none;
        }))
        job_id
    else desk

unfoldable pub job_created : Desk → ℕ → Text → ℕ → Result Desk
job_created desk job_id number freight_cop = do
  next ← assert_guide_job_transition processing mark_created
  ok (write_created desk job_id number freight_cop)

unfoldable pub write_uncertain : Desk → ℕ → Option Text → Desk
write_uncertain desk job_id number = write_jobs desk (is_processing_job job_id) (λ j. record j {
  status = uncertain;
  pre_shipment_number = number;
  error_code = some (codes "uncertain");
})

-- The result is the status and the number of the row afterwards, nothing for a missing row.
unfoldable pub job_uncertain : Desk → ℕ → Option Text → Result (Desk × Option GuideJob)
job_uncertain desk job_id number = do
  next ← assert_guide_job_transition processing mark_uncertain
  let desk₁ = write_uncertain desk job_id number
  ok (desk₁, select_one (is_job job_id) desk₁.db.guide_jobs)

-- The `where` clause asks for the id alone.
unfoldable pub write_failed : Desk → ℕ → Text → Desk
unfolding slice_to
write_failed desk job_id error_code =
    write_jobs desk (is_job job_id)
      (λ j. record j { status = failed; error_code = some (slice_to 64 error_code) })

unfoldable pub job_failed : Desk → ℕ → Text → Result Desk
job_failed desk job_id error_code = do
  next ← assert_guide_job_transition processing mark_failed
  ok (write_failed desk job_id error_code)

abbrev pub is_retriable_job : ℕ → GuideJob → Bool
is_retriable_job job_id j =
    is_job job_id j
    && is_failed j.status
    && same_text j.error_code (some (codes "ShippingRequestError"))
    && not (is_some j.pre_shipment_number)

unfoldable pub write_retried : Desk → ℕ → Desk
write_retried desk job_id =
    write_jobs desk (is_retriable_job job_id)
      (λ j. record j { status = pending; error_code = none })

-- The result tells whether a row was written.
unfoldable pub job_retried : Desk → ℕ → Result (Desk × Bool)
job_retried desk job_id = do
  next ← assert_guide_job_transition failed retry_rejected
  ok (write_retried desk job_id, exists_row (is_retriable_job job_id) desk.db.guide_jobs)

unfoldable pub write_reviewed : Desk → ℕ → Text → Desk
write_reviewed desk job_id number =
    if exists_row (is_uncertain_job job_id) desk.db.guide_jobs
    then insert_message
        (write_jobs desk (is_uncertain_job job_id) (λ j. record j {
          status = created;
          pre_shipment_number = some number;
          error_code = none;
        }))
        job_id
    else desk

unfoldable pub review_uncertain : Desk → ℕ → Text → Result (Desk × Bool)
review_uncertain desk job_id number = do
  next ← assert_guide_job_transition uncertain resolve_uncertain
  ok (write_reviewed desk job_id number, exists_row (is_uncertain_job job_id) desk.db.guide_jobs)

abbrev pub lacks_pdf : ℕ → GuideJob → Bool
lacks_pdf job_id j =
    is_job job_id j
    && is_created j.status
    && not j.guide_pdf_retired
    && not (is_some j.guide_pdf_storage_key)

unfoldable pub attach_pdf : Desk → ℕ → Text → Desk × Bool
attach_pdf desk job_id storage_key = (
  write_jobs desk (lacks_pdf job_id)
      (λ j. record j { guide_pdf_storage_key = some storage_key; error_code = none }),
  exists_row (lacks_pdf job_id) desk.db.guide_jobs,
)
