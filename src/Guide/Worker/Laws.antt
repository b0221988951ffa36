-- ===== src/Guide/Worker/Laws.antt =====
-- The carrier is not asked twice for a guide that it may have issued
-- (apps/api/src/modules/shipping/shipping-guide-worker.ts).
use automatizacion_wh.Common.{
  ℕ, ◌≡◌, refl, ap, subst, ◌∙◌, inl, inr, Bool, true, false, Option, none, some, List, Text, ◌==◌,
  Bool-cases, Option-cases, update_where, exists_row, exists_row-update_where, All,
  All-update_where, arith,
}
use automatizacion_wh.Database.Orders.{Order}
use automatizacion_wh.Database.Guides.{GuideJob, GuideJobStatus, pending, failed}
use automatizacion_wh.Guide.Jobs.{Desk, ClaimedGuideJob, is_job, write_jobs}
use automatizacion_wh.Guide.Marks.{
  is_processing_job, insert_message, write_created, write_uncertain, write_failed, job_created,
  job_uncertain, job_failed,
}
use automatizacion_wh.Order.Transition.{is_confirmed}
use automatizacion_wh.Order.Service.{find}
use automatizacion_wh.Guide.State.{assert_guide_job_transition, guide_transitions}
use automatizacion_wh.Guide.Worker.{
  Answer, issued, unknown, rejected, Faults, GuideRequest, Call, Ran, doubt, fail_job, refuse,
  settle, request_of, with_order, work,
}

-- A job in one of these states is past its request to the carrier.
abbrev pub is_spent : GuideJobStatus → Bool
is_spent pending = false
is_spent failed = false
is_spent _ = true

-- The job exists and is past its request.
abbrev pub Spent : ℕ → List GuideJob → Type 0
Spent i jobs =
    (exists_row (is_job i) jobs ≡ true)
    × All (λ j. is_job i j ≡ true → is_spent j.status ≡ true) jobs

abbrev pub may_have_issued : Answer → Bool
may_have_issued (issued number freight_cop) = true
may_have_issued unknown = true
may_have_issued (rejected name) = false

-- An update that keeps ids, and keeps spent rows of the id spent.
pub update-Spent :
    (i : ℕ) (p : GuideJob → Bool) (f : GuideJob → GuideJob) (jobs : List GuideJob)
    → ((j : GuideJob) → (f j).id ≡ j.id)
    → ((j : GuideJob)
        → p j ≡ true
        → is_job i j ≡ true
        → is_spent j.status ≡ true
        → is_spent (f j).status ≡ true)
    → Spent i jobs
    → Spent i (update_where p f jobs)
unfolding update_where
update-Spent i p f jobs same keep s =
    let there : exists_row (is_job i) (update_where p f jobs) ≡ true =
      exists_row-update_where (is_job i) p f jobs (λ j. ap (λ n. n == i) (same j)) ∙ s.0 in
    (
      there,
      All-update_where (λ j. is_job i j ≡ true → is_spent j.status ≡ true) p f jobs
          (λ j h old e.
            let here : is_job i j ≡ true = subst (λ n. (n == i) ≡ true) (same j) e in
            keep j h here (old here))
          s.1,
    )

abbrev pub OnCall : (Call → Type 0) → Option Call → Type 0
OnCall P none = Unit
OnCall P (some c) = P c

-- What a run of the worker on a claimed job keeps and promises.
pub record Outcome (jobs : List GuideJob) (job_id : ℕ) (ran : Ran) : Type 0 where
  pub keeps : (i : ℕ) → (job_id == i) ≡ false → Spent i jobs → Spent i ran.desk.db.guide_jobs
  pub asks : OnCall (λ c. c.request.job_id ≡ job_id) ran.call
  pub closes :
      OnCall
        (λ c.
          may_have_issued c.answer ≡ true → Spent job_id jobs → Spent job_id ran.desk.db.guide_jobs)
        ran.call

not_both : (n i : ℕ) (x : ℕ) → (n == i) ≡ false → (x == n) ≡ true → (x == i) ≡ true → ⊥
not_both n i x e f g = ground arith

failed_keeps :
    (desk : Desk) (job_id : ℕ) (name : Text) (i : ℕ)
    → (job_id == i) ≡ false
    → Spent i desk.db.guide_jobs
    → Spent i (write_failed desk job_id name).db.guide_jobs
unfolding write_failed write_jobs
failed_keeps desk job_id name i other s =
    update-Spent i (is_job job_id) _ desk.db.guide_jobs (λ j. refl)
      (λ j h here old. absurd (not_both job_id i j.id other h here)) s

created_keeps :
    (desk : Desk) (job_id : ℕ) (number : Text) (freight_cop : ℕ) (i : ℕ)
    → Spent i desk.db.guide_jobs
    → Spent i (write_created desk job_id number freight_cop).db.guide_jobs
unfolding write_created write_jobs insert_message
created_keeps desk job_id number freight_cop i s =
    elim (Bool-cases (exists_row (is_processing_job job_id) desk.db.guide_jobs)) [
      | inl found ↦ rw found (
          update-Spent i (is_processing_job job_id) _ desk.db.guide_jobs (λ j. refl)
            (λ j h here old. refl) s)
      | inr missed ↦ rw missed s
    ]

uncertain_keeps :
    (desk : Desk) (job_id : ℕ) (number : Option Text) (i : ℕ)
    → Spent i desk.db.guide_jobs
    → Spent i (write_uncertain desk job_id number).db.guide_jobs
unfolding write_uncertain write_jobs
uncertain_keeps desk job_id number i s =
    update-Spent i (is_processing_job job_id) _ desk.db.guide_jobs (λ j. refl)
      (λ j h here old. refl) s

pub both_ways : (b : Bool) → b ≡ false → b ≡ true → ⊥
both_ways b h e = cc

not_issued :
    (X : Type 0) (call : Option Call)
    → OnCall (λ c. may_have_issued c.answer ≡ false) call
    → OnCall (λ c. may_have_issued c.answer ≡ true → X) call
not_issued X none h = tt
not_issued X (some c) h = λ e. absurd (both_ways (may_have_issued c.answer) h e)

pub on_call :
    {P Q : Call → Type 0} (call : Option Call)
    → ((c : Call) → P c → Q c)
    → OnCall P call
    → OnCall Q call
on_call none f h = tt
on_call (some c) f h = f c h

always : (P : Call → Type 0) (call : Option Call) → ((c : Call) → P c) → OnCall P call
always P none h = tt
always P (some c) h = h c

module _ (desk : Desk) (job : ClaimedGuideJob) (faults : Faults) where
  doubt-Outcome :
      (call : Option Call) (number : Option Text)
      → OnCall (λ c. c.request.job_id ≡ job.id) call
      → Outcome desk.db.guide_jobs job.id (doubt desk job faults call number)
  unfolding doubt job_uncertain assert_guide_job_transition guide_transitions
  doubt-Outcome call number a = elim (Bool-cases faults.uncertain_throws) [
    | inl throws ↦
        simp (throws)
          (record { keeps = λ i other s. s; asks = a; closes = always _ call λ c e s. s })
    | inr writes ↦ simp (writes) (record {
      keeps = λ i other s. uncertain_keeps desk job.id number i s;
      asks = a;
      closes = always _ call λ c e s. uncertain_keeps desk job.id number job.id s;
    })
  ]

  fail_job-Outcome :
      (call : Option Call) (name : Text)
      → OnCall (λ c. c.request.job_id ≡ job.id) call
      → OnCall (λ c. may_have_issued c.answer ≡ false) call
      → Outcome desk.db.guide_jobs job.id (fail_job desk job faults call name)
  unfolding fail_job job_failed assert_guide_job_transition guide_transitions
  fail_job-Outcome call name a b = elim (Bool-cases faults.failed_throws) [
    | inl throws ↦
        rw throws (record { keeps = λ i other s. s; asks = a; closes = not_issued _ call b })
    | inr writes ↦ rw writes (record {
      keeps = λ i other s. failed_keeps desk job.id name i other s;
      asks = a;
      closes = not_issued _ call b;
    })
  ]

  refuse-Outcome :
      (code : Text) (throws : Option Text)
      → Outcome desk.db.guide_jobs job.id (refuse desk job faults code throws)
  unfolding refuse job_failed assert_guide_job_transition guide_transitions
  refuse-Outcome code (some name) = fail_job-Outcome none name tt tt
  refuse-Outcome code none = record {
    keeps = λ i other s. failed_keeps desk job.id code i other s;
    asks = tt;
    closes = tt;
  }

module _ (desk : Desk) (job : ClaimedGuideJob) (faults : Faults) where
  -- A write before the outcome that keeps spent jobs spent.
  after_write-Outcome :
      (desk₁ : Desk) (call : Option Call) (number : Option Text)
      → ((i : ℕ) → Spent i desk.db.guide_jobs → Spent i desk₁.db.guide_jobs)
      → OnCall (λ c. c.request.job_id ≡ job.id) call
      → Outcome desk.db.guide_jobs job.id (doubt desk₁ job faults call number)
  after_write-Outcome desk₁ call number kept a =
      let o = doubt-Outcome desk₁ job faults call number a in
      record {
        keeps = λ i other s. o.keeps i other (kept i s);
        asks = o.asks;
        closes =
            on_call (doubt desk₁ job faults call number).call (λ c h e s. h e (kept job.id s))
              o.closes;
      }

  settle-Outcome :
      (request : GuideRequest) (answer : Answer)
      → request.job_id ≡ job.id
      → Outcome desk.db.guide_jobs job.id (settle desk job faults request answer)
  unfolding settle job_created assert_guide_job_transition guide_transitions
  settle-Outcome request (issued number freight_cop) same =
      let kept = created_keeps desk job.id number freight_cop in
      elim (Bool-cases faults.created_throws) [
        | inr writes ↦
            simp (writes)
              (record { keeps = λ i other s. kept i s; asks = same; closes = λ e s. kept job.id s })
        | inl throws ↦ elim (Bool-cases faults.created_commits) [
          | inl commits ↦ simp (throws, commits) (after_write-Outcome _ _ (some number) kept same)
          | inr rolls_back ↦
              simp (throws, rolls_back) (doubt-Outcome desk job faults _ (some number) same)
        ]
      ]
  settle-Outcome request unknown same = doubt-Outcome desk job faults _ none same
  settle-Outcome request (rejected name) same = fail_job-Outcome desk job faults _ name same refl

  request_of-id :
      (o : Order) {request : GuideRequest}
      → request_of job o ≡ some request
      → request.job_id ≡ job.id
  unfolding request_of
  request_of-id o e = ground arith

  with_order-Outcome :
      (carrier : GuideRequest → Answer) (order : Option Order)
      → Outcome desk.db.guide_jobs job.id (with_order desk job faults carrier order)
  unfolding with_order
  with_order-Outcome carrier none = refuse-Outcome desk job faults _ faults.refusal_throws
  with_order-Outcome carrier (some o) = elim (Bool-cases (is_confirmed o.status)) [
    | inr other ↦ rw other (refuse-Outcome desk job faults _ faults.refusal_throws)
    | inl confirmed ↦ rw confirmed (elim (Option-cases (request_of job o)) [
      | inl missing ↦ rw missing (refuse-Outcome desk job faults _ faults.refusal_throws)
      | inr (request, found) ↦
          rw found (settle-Outcome request (carrier request) (request_of-id o found))
    ])
  ]

  pub work-Outcome :
      (carrier : GuideRequest → Answer) (throws : Option Text)
      → Outcome desk.db.guide_jobs job.id (work desk job faults carrier throws)
  unfolding work
  work-Outcome carrier (some name) = fail_job-Outcome desk job faults none name tt tt
  work-Outcome carrier none = with_order-Outcome carrier (find desk.db job.order_id)
