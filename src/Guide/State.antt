-- ===== src/Guide/State.antt =====
-- apps/api/src/modules/shipping/guide-job-state.ts.
use automatizacion_wh.Common.{Option, none, some, Result, failure, or_throw}
use automatizacion_wh.Database.Guides.{
  GuideJobStatus, pending, processing, created, uncertain, failed,
}

pub data GuideJobAction : Type 0 where
  claim mark_created mark_uncertain mark_failed resolve_uncertain retry_rejected : GuideJobAction

-- The table of transitions; `none` is a missing entry.
unfoldable pub guide_transitions : GuideJobStatus → GuideJobAction → Option GuideJobStatus
guide_transitions pending claim = some processing
guide_transitions processing mark_created = some created
guide_transitions processing mark_uncertain = some uncertain
guide_transitions processing mark_failed = some failed
guide_transitions uncertain resolve_uncertain = some created
guide_transitions failed retry_rejected = some pending
guide_transitions _ _ = none

unfoldable pub assert_guide_job_transition : GuideJobStatus → GuideJobAction → Result GuideJobStatus
unfolding guide_transitions
assert_guide_job_transition current action =
    or_throw (guide_transitions current action) (failure "guide_job_transition")
