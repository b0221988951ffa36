-- ===== src/Guide/Worker.antt =====
-- apps/api/src/modules/shipping/shipping-guide-worker.ts. The carrier's client is a parameter: each
-- run is given what `createPreShipment` answers. So is what fails of the calls to the database.
-- Metrics and the texts of incidents are left out.
pub mod Laws
pub mod Floor
pub mod Kept
pub mod Once
use automatizacion_wh.Common.{
  ℕ, Bool, true, false, not, ◌&&◌, ◌||◌, Option, none, some, List, [], ◌∷◌, ◌++◌, Text, codes, trim,
  is_space, Result, ok, err, failure, if◌then◌else◌, or_else, is_some,
}
use automatizacion_wh.Database.Orders.{Order}
use automatizacion_wh.Database.Guides.{GuideJob, GuideJobStatus, created}
use automatizacion_wh.Shipping.Policy.{InsuranceMode, PackageDefaults}
use automatizacion_wh.Order.Transition.{is_confirmed}
use automatizacion_wh.Order.Transition.Moves.{is_created}
use automatizacion_wh.Order.Service.{find}
use automatizacion_wh.Guide.Jobs.{Desk, ClaimedGuideJob, claim_next}
use automatizacion_wh.Guide.Marks.{job_created, job_uncertain, job_failed}

-- What `createPreShipment` does: it returns, throws a ShippingUncertainError, or throws another
-- error of the given name.
pub data Answer : Type 0 where
  issued : Text → ℕ → Answer
  unknown : Answer
  rejected : Text → Answer

-- The calls to the database that throw, with the name of the error where it is read. A call that throws
-- has written nothing, but for `markCreated` if its transaction has been committed.
pub record Faults : Type 0 where
  pub find_throws : Option Text
  pub refusal_throws : Option Text
  pub created_throws : Bool
  pub created_commits : Bool
  pub uncertain_throws : Bool
  pub failed_throws : Bool
  pub incident_throws : Bool

-- What the request to the carrier says. The contents are `none` for the description that is made of
-- the order's reference.
pub record GuideRequest : Type 0 where
  pub job_id : ℕ
  pub parcel : PackageDefaults
  pub declared_value_cop : ℕ
  pub first_name : Text
  pub first_surname : Text
  pub phone : Text
  pub address : Text
  pub locality_code : Text
  pub carrier : Text
  pub insurance : InsuranceMode
  pub notes : Option Text

pub data IncidentType : Type 0 where
  guide_created guide_uncertain guide_failed : IncidentType

pub record Incident : Type 0 where
  pub incident_type : IncidentType
  pub entity_id : ℕ
  pub retry_safe : Bool

pub record Call : Type 0 where
  pub request : GuideRequest
  pub answer : Answer

-- What a run leaves: the tables, the call to the carrier if there was one, the incidents that it
-- asked for, and whether `runOnce` returned true, false, or threw (`none`).
pub record Ran : Type 0 where
  pub desk : Desk
  pub call : Option Call
  pub incidents : List Incident
  pub returned : Option Bool

abbrev pub incident : ClaimedGuideJob → IncidentType → Bool → List Incident
incident job t retry_safe =
    record { incident_type = t; entity_id = job.order_id; retry_safe = retry_safe } ∷ []

abbrev status_created : Option GuideJob → Bool
status_created none = false
status_created (some j) = is_created j.status

-- The incident after the status could be written as uncertain, or was found otherwise.
abbrev doubt_incident : Option GuideJob → IncidentType
doubt_incident actual = if status_created actual then guide_created else guide_uncertain

abbrev doubted : Desk → ClaimedGuideJob → Option Call → Result (Desk × Option GuideJob) → Ran
doubted desk job call (ok (desk', actual)) = record {
  desk = desk';
  call = call;
  incidents = incident job (doubt_incident actual) false;
  returned = some true;
}
doubted desk job call (err e) = record {
  desk = desk;
  call = call;
  incidents = incident job guide_uncertain false;
  returned = some true;
}

-- The two branches of the `catch` in which a guide may exist at the carrier.
unfoldable pub doubt : Desk → ClaimedGuideJob → Faults → Option Call → Option Text → Ran
doubt desk job faults call number =
    doubted desk job call (
      if faults.uncertain_throws
      then err (failure "database")
      else job_uncertain desk job.id number)

-- The last branch of the `catch`. A throw of `markFailed` leaves the method, and so does one of the
-- incident, after the row is written.
unfoldable pub fail_job : Desk → ClaimedGuideJob → Faults → Option Call → Text → Ran
fail_job desk job faults call name = elim (job_failed desk job.id name) [
  | ok desk' ↦
      if faults.failed_throws
      then record { desk = desk; call = call; incidents = []; returned = none }
      else record {
        desk = desk';
        call = call;
        incidents = incident job guide_failed true;
        returned = if faults.incident_throws then none else some true;
      }
  | err e ↦ record { desk = desk; call = call; incidents = []; returned = none }
]

-- An order that is missing, not confirmed or incomplete. A throw of `markFailed` goes to the `catch`.
unfoldable pub refuse : Desk → ClaimedGuideJob → Faults → Text → Option Text → Ran
refuse desk job faults code (some name) = fail_job desk job faults none name
refuse desk job faults code none = elim (job_failed desk job.id code) [
  | ok desk' ↦ record { desk = desk'; call = none; incidents = []; returned = some true }
  | err e ↦ record { desk = desk; call = none; incidents = []; returned = none }
]

-- What follows the call to the carrier.
unfoldable pub settle : Desk → ClaimedGuideJob → Faults → GuideRequest → Answer → Ran
settle desk job faults request (issued number freight_cop) =
    let call = some (record { request = request; answer = issued number freight_cop }) in
    elim (job_created desk job.id number freight_cop) [
      | ok desk' ↦
          if faults.created_throws
          then doubt (if faults.created_commits then desk' else desk) job faults call (some number)
          else record {
            desk = desk';
            call = call;
            incidents = incident job guide_created false;
            returned = some true;
          }
      | err e ↦ doubt desk job faults call (some number)
    ]
settle desk job faults request unknown =
    doubt desk job faults (some (record { request = request; answer = unknown })) none
settle desk job faults request (rejected name) =
    fail_job desk job faults (some (record { request = request; answer = rejected name })) name

-- The words of a text: `text.split(/\s+/)` of a trimmed text.
add_unit : ℕ → List Text → List Text
add_unit c [] = (c ∷ []) ∷ []
add_unit c (w ∷ ws) = (c ∷ w) ∷ ws

-- The flag says that the unit before was a space.
split_from : Bool → Text → List Text
split_from after [] = [] ∷ []
split_from after (c ∷ s) =
    let rest = split_from (is_space c) s in
    if is_space c then (if after then rest else [] ∷ rest) else add_unit c rest

-- `words.join(' ')`.
join_words : List Text → Text
join_words [] = []
join_words (w ∷ []) = w
join_words (w ∷ v ∷ ws) = w ++ (32 ∷ join_words (v ∷ ws))

abbrev or_text : Text → Text → Text
or_text [] other = other
or_text (c ∷ s) other = c ∷ s

abbrev recipient_of : List Text → Text × Text
recipient_of [] = ([], codes "N/A")
recipient_of (w ∷ ws) = (w, or_text (join_words ws) (codes "N/A"))

unfoldable pub recipient_name : Text → Text × Text
unfolding split_from add_unit join_words
recipient_name name = recipient_of (split_from false (trim name))

abbrev default_parcel : PackageDefaults
default_parcel = record {
  weight_kg = 1;
  length_cm = 30;
  width_cm = 20;
  height_cm = 12;
  contents = none;
}

-- The request, if the order has what it needs.
unfoldable pub request_of : ClaimedGuideJob → Order → Option GuideRequest
request_of job o = elim o.customer_name [
  | none ↦ none
  | some name ↦ elim o.customer_phone [
    | none ↦ none
    | some phone ↦ elim o.address [
      | none ↦ none
      | some address ↦ elim o.locality_carrier_code [
        | none ↦ none
        | some locality_code ↦ some (record {
          job_id = job.id;
          parcel = or_else job.package_defaults default_parcel;
          declared_value_cop = job.collection_value_cop;
          first_name = (recipient_name name).0;
          first_surname = (recipient_name name).1;
          phone = phone;
          address = address;
          locality_code = locality_code;
          carrier = job.carrier;
          insurance = job.insurance_mode;
          notes = o.delivery_notes;
        })
      ]
    ]
  ]
]

-- The job's order as the worker has read it.
unfoldable pub with_order :
    Desk → ClaimedGuideJob → Faults → (GuideRequest → Answer) → Option Order → Ran
with_order desk job faults carrier none =
    refuse desk job faults (codes "order_not_confirmed") faults.refusal_throws
with_order desk job faults carrier (some o) =
    if not (is_confirmed o.status)
    then refuse desk job faults (codes "order_not_confirmed") faults.refusal_throws
    else elim (request_of job o) [
      | none ↦ refuse desk job faults (codes "incomplete_order") faults.refusal_throws
      | some request ↦ settle desk job faults request (carrier request)
    ]

-- The worker reads the order; what that throws goes to the `catch`.
unfoldable pub work : Desk → ClaimedGuideJob → Faults → (GuideRequest → Answer) → Option Text → Ran
work desk job faults carrier (some name) = fail_job desk job faults none name
work desk job faults carrier none = with_order desk job faults carrier (find desk.db job.order_id)

unfoldable pub run_claimed : Faults → (GuideRequest → Answer) → Desk × Option ClaimedGuideJob → Ran
run_claimed faults carrier (desk, none) = record {
  desk = desk;
  call = none;
  incidents = [];
  returned = some false;
}
run_claimed faults carrier (desk, some job) = work desk job faults carrier faults.find_throws

-- `runOnce`, with nothing between the claim and the writes that follow it.
unfoldable pub run_once : (ℕ → Bool) → Faults → (GuideRequest → Answer) → Desk → Ran
run_once locked faults carrier desk = run_claimed faults carrier (claim_next locked desk)
