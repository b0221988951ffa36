-- ===== src/Guide/Worker/Once.antt =====
-- The carrier is not asked again for a guide that it may have issued
-- (apps/api/src/modules/shipping/shipping-guide-worker.ts).
use automatizacion_wh.Common.{
  ℕ, ◌≡◌, refl, sym, ap, subst, ◌∙◌, ◌⊎◌, inl, inr, Bool, true, false, ◌&&◌, Option, none, some,
  List, [], ◌∷◌, ◌==◌, ==_iff, Bool-cases, select_all, update_where, exists_row,
  exists_row-update_where, All, AtMostOne, Memᴰ, select_all-Mem, arith,
}
use automatizacion_wh.Database.{Db}
use automatizacion_wh.Database.Guides.{GuideJob, processing}
use automatizacion_wh.Order.Transition.Moves.{is_pending}
use automatizacion_wh.Guide.Jobs.{
  Desk, is_job, write_jobs, is_candidate, earliest, claim_row, claim_next, claimed_of, is_before,
  earlier,
}
use automatizacion_wh.Guide.Laws.{and_true}
use automatizacion_wh.Guide.Worker.{
  Answer, Faults, GuideRequest, Call, Ran, work, run_claimed, run_once,
}
use automatizacion_wh.Guide.Worker.Laws.{
  Spent, is_spent, may_have_issued, update-Spent, OnCall, on_call, work-Outcome, both_ways,
}
use automatizacion_wh.Guide.Worker.Floor.{
  Floor, Act, runs, retries, reviews, attaches, enqueues, confirms, cancels, others, logged,
  perform, perform_all,
}
use automatizacion_wh.Guide.Worker.Kept.{
  pending_or_spent, retry_keeps, review_keeps, attach_keeps, cancel_keeps, enqueue_keeps,
  confirm_keeps,
}

-- A call for the job after which a guide may exist at the carrier.
abbrev pub is_issue : ℕ → Call → Bool
is_issue i c = c.request.job_id == i && may_have_issued c.answer

-- There is no such call, or there is one and the job is past its request.
abbrev Safe : ℕ → Floor → Type 0
Safe i f =
    AtMostOne (is_issue i) f.calls
    × ((exists_row (is_issue i) f.calls ≡ false) ⊎ Spent i f.desk.db.guide_jobs)

-- A write of the jobs that keeps spent jobs spent keeps this.
keeps-Safe :
    (i : ℕ) (f : Floor) (desk : Desk)
    → (Spent i f.desk.db.guide_jobs → Spent i desk.db.guide_jobs)
    → Safe i f
    → Safe i (record f { desk = desk })
keeps-Safe i f desk keep (once, inl never) = (once, inl never)
keeps-Safe i f desk keep (once, inr spent) = (once, inr (keep spent))

Mem-exists :
    (p : GuideJob → Bool) (js : List GuideJob) {j : GuideJob}
    → Memᴰ j js
    → p j ≡ true
    → exists_row p js ≡ true
unfolding exists_row
Mem-exists p [] m h = elim m [ ]
Mem-exists p (k ∷ js) (Memᴰ.head e) h = rw (subst (λ x. p x ≡ true) e h)
Mem-exists p (k ∷ js) (Memᴰ.tail m) h = ground (arith, Mem-exists p js m h)

All-Mem {κ} :
    (P : GuideJob → Type κ) (js : List GuideJob) {j : GuideJob} → Memᴰ j js → All P js → P j
All-Mem P [] m h = elim m [ ]
All-Mem P (k ∷ js) (Memᴰ.head e) h = subst P (sym e) h.0
All-Mem P (k ∷ js) (Memᴰ.tail m) h = All-Mem P js m h.1

some-injective {ℓ} : {A : Type ℓ} {a b : A} → some a ≡ some b → a ≡ b
some-injective e = cc

earlier_cases : (j : GuideJob) (o : Option GuideJob) → (earlier j o ≡ j) ⊎ (o ≡ some (earlier j o))
earlier_cases j none = inl refl
earlier_cases j (some k) = elim (Bool-cases (is_before k j)) [
  | inl before ↦ inr (simp (before) refl)
  | inr after ↦ inl (simp (after) refl)
]

earliest-Mem : (js : List GuideJob) {j : GuideJob} → earliest js ≡ some j → Memᴰ j js
unfolding earliest
earliest-Mem [] e = cc
earliest-Mem (k ∷ js) {j} e =
    let same : earlier k (earliest js) ≡ j = some-injective e in
    elim (earlier_cases k (earliest js)) [
      | inl first ↦ Memᴰ.head (sym same ∙ first)
      | inr later ↦ Memᴰ.tail (earliest-Mem js (later ∙ ap some same))
    ]

claimed-All :
    (i : ℕ) (js : List GuideJob)
    → All
        (λ j. is_job i j ≡ true → is_spent j.status ≡ true)
        (update_where (is_job i) (λ k. record k { status = processing }) js)
unfolding update_where
claimed-All i [] = tt
claimed-All i (j ∷ js) = elim (Bool-cases (is_job i j)) [
  | inl hit ↦ rw hit ((λ e. refl), claimed-All i js)
  | inr miss ↦ rw miss ((λ e. absurd (both_ways (is_job i j) miss e)), claimed-All i js)
]

-- The claimed job was pending, and all rows of its id are processing.
claimed-Spent :
    (desk : Desk) (j : GuideJob)
    → Memᴰ j desk.db.guide_jobs
    → Spent j.id
        (write_jobs desk (is_job j.id) (λ k. record k { status = processing })).db.guide_jobs
unfolding write_jobs
claimed-Spent desk j m =
    let here : is_job j.id j ≡ true = (==_iff j.id j.id).1 refl in
    (
      exists_row-update_where (is_job j.id) (is_job j.id) _ desk.db.guide_jobs (λ k. refl)
          ∙ Mem-exists (is_job j.id) desk.db.guide_jobs m here,
      claimed-All j.id desk.db.guide_jobs,
    )

-- A call that is none for the job.
log-Safe :
    (i : ℕ) (f : Floor) (desk : Desk) (call : Option Call)
    → OnCall (λ c. is_issue i c ≡ false) call
    → (Spent i f.desk.db.guide_jobs → Spent i desk.db.guide_jobs)
    → Safe i f
    → Safe i (record { desk = desk; calls = logged call f.calls })
unfolding exists_row
log-Safe i f desk none h keep s = keeps-Safe i f desk keep s
log-Safe i f desk (some c) h keep (once, inl never) =
    (((λ e. absurd (both_ways _ h e)), once), inl (rw h never))
log-Safe i f desk (some c) h keep (once, inr spent) =
    (((λ e. absurd (both_ways _ h e)), once), inr (keep spent))

abbrev after_run : Floor → Ran → Floor
after_run f ran = record { desk = ran.desk; calls = logged ran.call f.calls }

-- The call is about the claimed job, so about no other.
call_of_other :
    (i job_id : ℕ) (call : Option Call)
    → (job_id == i) ≡ false
    → OnCall (λ c. c.request.job_id ≡ job_id) call
    → OnCall (λ c. is_issue i c ≡ false) call
call_of_other i job_id none other h = tt
call_of_other i job_id (some c) other h =
    ap (λ n. n == i && may_have_issued c.answer) h ∙ ap (λ b. b && may_have_issued c.answer) other

-- A first call for a job that is claimed.
first_call :
    (i : ℕ) (f : Floor) (ran : Ran)
    → AtMostOne (is_issue i) f.calls
    → exists_row (is_issue i) f.calls ≡ false
    → OnCall (λ c. may_have_issued c.answer ≡ true → Spent i ran.desk.db.guide_jobs) ran.call
    → Safe i (after_run f ran)
unfolding exists_row
first_call i f ran once never h = by_call ran.call h
  where
    by_call :
        (call : Option Call)
        → OnCall (λ c. may_have_issued c.answer ≡ true → Spent i ran.desk.db.guide_jobs) call
        → Safe i (record { desk = ran.desk; calls = logged call f.calls })
    by_call none h = (once, inl never)
    by_call (some c) h = elim (Bool-cases (is_issue i c)) [
      | inl issue ↦ (
        ((λ e. never), once),
        inr (h (and_true (c.request.job_id == i) (may_have_issued c.answer) issue).1),
      )
      | inr other ↦
          (((λ e. absurd (both_ways (is_issue i c) other e)), once), inl (simp (other) never))
    ]

claimed-Safe :
    (i : ℕ) (f : Floor) (faults : Faults) (carrier : GuideRequest → Answer) (j : GuideJob)
    → Memᴰ j f.desk.db.guide_jobs
    → is_pending j.status ≡ true
    → Safe i f
    → Safe i (after_run f (run_claimed faults carrier (claim_row f.desk (some j))))
unfolding run_claimed claim_row write_jobs
claimed-Safe i f faults carrier j m open_job s =
    let desk₁ = write_jobs f.desk (is_job j.id) (λ k. record k { status = processing }) in
    let o = work-Outcome desk₁ (claimed_of f.desk.db j) faults carrier faults.find_throws in
    let ran = work desk₁ (claimed_of f.desk.db j) faults carrier faults.find_throws in
    elim (Bool-cases (j.id == i)) [
      | inr other ↦
          log-Safe i f ran.desk ran.call (call_of_other i j.id ran.call other o.asks)
            (λ spent. o.keeps i other (
              update-Spent i (is_job j.id) _ f.desk.db.guide_jobs (λ k. refl) (λ k h here old. refl)
                spent))
            s
      | inl same ↦ elim s.1 [
        | inl never ↦ first_call i f ran s.0 never (
            on_call ran.call
              (λ c h e.
                subst (λ n. Spent n ran.desk.db.guide_jobs) ((==_iff j.id i).0 same)
                  (h e (claimed-Spent f.desk j m)))
              o.closes)
        | inr spent ↦ absurd (
            pending_or_spent true j.status open_job (
              All-Mem (λ k. is_job i k ≡ true → is_spent k.status ≡ true) f.desk.db.guide_jobs m
                spent.1 same))
      ]
    ]

candidate_pending :
    (locked : ℕ → Bool) (db : Db) (j : GuideJob)
    → is_candidate locked db j ≡ true
    → is_pending j.status ≡ true
unfolding is_candidate
candidate_pending locked db j e = ground arith

run-Safe :
    (i : ℕ) (f : Floor) (locked : ℕ → Bool) (faults : Faults) (carrier : GuideRequest → Answer)
    → Safe i f
    → Safe i (perform f (runs locked faults carrier))
unfolding perform run_once claim_next run_claimed claim_row
run-Safe i f locked faults carrier s =
    by_row (earliest (select_all (is_candidate locked f.desk.db) f.desk.db.guide_jobs)) refl
  where
    by_row :
        (o : Option GuideJob)
        → earliest (select_all (is_candidate locked f.desk.db) f.desk.db.guide_jobs) ≡ o
        → Safe i (after_run f (run_claimed faults carrier (claim_row f.desk o)))
    by_row none e = s
    by_row (some j) e =
        let (m, test) =
          select_all-Mem (is_candidate locked f.desk.db) f.desk.db.guide_jobs (earliest-Mem _ e) in
        claimed-Safe i f faults carrier j m (candidate_pending locked f.desk.db j test) s

perform-Safe : (i : ℕ) (f : Floor) (a : Act) → Safe i f → Safe i (perform f a)
unfolding perform
perform-Safe i f (runs locked faults carrier) s = run-Safe i f locked faults carrier s
perform-Safe i f (retries job_id) s =
    keeps-Safe i f (perform f (retries job_id)).desk (retry_keeps i f.desk job_id) s
perform-Safe i f (reviews job_id number) s =
    keeps-Safe i f (perform f (reviews job_id number)).desk (review_keeps i f.desk job_id number) s
perform-Safe i f (attaches job_id key) s =
    keeps-Safe i f (perform f (attaches job_id key)).desk (attach_keeps i f.desk job_id key) s
perform-Safe i f (enqueues new_id now order_id) s =
    keeps-Safe i f (perform f (enqueues new_id now order_id)).desk
      (enqueue_keeps i new_id now f.desk order_id) s
perform-Safe i f (confirms env order summary quote) s =
    keeps-Safe i f (perform f (confirms env order summary quote)).desk
      (confirm_keeps i env f.desk order summary quote) s
perform-Safe i f (cancels order_id) s =
    keeps-Safe i f (perform f (cancels order_id)).desk (cancel_keeps i f.desk.db order_id) s
perform-Safe i f (others db) s = keeps-Safe i f (perform f (others db)).desk (λ spent. spent) s

perform_all-Safe : (i : ℕ) (f : Floor) (acts : List Act) → Safe i f → Safe i (perform_all f acts)
unfolding perform_all
perform_all-Safe i f [] s = s
perform_all-Safe i f (a ∷ acts) s = perform_all-Safe i (perform f a) acts (perform-Safe i f a s)

-- The carrier is asked at most once for a guide that it may have issued: after any list of runs of the
-- worker, retries, reviews, attached PDFs, new jobs, confirmed and cancelled orders, whatever calls to
-- the database throw and whatever the carrier answers, the calls made for one job id that returned a
-- guide or ended in doubt are one at most.
pub perform_all_once :
    (desk : Desk) (acts : List Act) (i : ℕ)
    → AtMostOne (is_issue i) (perform_all (record { desk = desk; calls = [] }) acts).calls
unfolding exists_row
perform_all_once desk acts i =
    (perform_all-Safe i (record { desk = desk; calls = [] }) acts (tt, inl refl)).0
