-- ===== src/Web/CompressFlow.antt =====
-- apps/web/src/features/compressor/hooks/useCompressFlow.ts: the state of the hook, the callbacks that
-- change it, and what it returns.
use file_processing_platform.Common.{ℕ, String, Option, none, some, List, ◌==◌, if◌then◌else◌}
use file_processing_platform.Common.Lists.{head?}
use file_processing_platform.Schema.{JobStatus, job_status_eq}
use file_processing_platform.Web.JobSocket.{JobWsState}
use file_processing_platform.Web.ConvertFlow.{BrowserFile}

pub data CompressStep : Type 0 where
  idle options processing done error : CompressStep

pub record CompressFlowState : Type 0 where
  pub step : CompressStep
  pub selected_file : Option BrowserFile
  pub quality : ℕ
  pub uploaded_file_id : Option String
  pub job_id : Option String
  pub upload_progress : ℕ

-- `INITIAL_STATE`
abbrev pub initial : CompressFlowState
initial = record {
  step = CompressStep.idle;
  selected_file = none;
  quality = 80;
  uploaded_file_id = none;
  job_id = none;
  upload_progress = 0;
}

-- What happens to the hook: a call of one of the functions it returns, or an answer to an upload
-- or to a job request.
pub data FlowEvent : Type 0 where
  files_chosen : List BrowserFile → FlowEvent
  quality_chosen : ℕ → FlowEvent
  upload_progressed : ℕ → FlowEvent
  upload_succeeded : String → FlowEvent
  upload_failed : FlowEvent
  job_made : String → FlowEvent
  job_refused : FlowEvent
  reset : FlowEvent

-- `onFileSelected`, its state
unfoldable pub on_file_selected : List BrowserFile → CompressFlowState → CompressFlowState
on_file_selected files flow = elim (head? files) [
  | none ↦ flow
  | some file ↦ record initial { selected_file = some file }
]

-- The `setFlow` of each event.
unfoldable pub react : FlowEvent → CompressFlowState → CompressFlowState
unfolding on_file_selected
react (files_chosen files) flow = on_file_selected files flow
react (quality_chosen q) flow = record flow { quality = q }
react (upload_progressed pct) flow = record flow { upload_progress = pct }
react (upload_succeeded id) flow = record flow {
  step = CompressStep.options;
  uploaded_file_id = some id;
  upload_progress = 0;
}
react upload_failed flow = record flow { step = CompressStep.error }
react (job_made id) flow = record flow { step = CompressStep.processing; job_id = some id }
react job_refused flow = record flow { step = CompressStep.error }
react reset flow = initial

-- The file id and the quality of the compression that `onSubmit` asks for, if it asks.
unfoldable pub on_submit : CompressFlowState → Option (String × ℕ)
on_submit flow = elim flow.uploaded_file_id [
  | none ↦ none
  | some id ↦ if id == "" then none else some (id, flow.quality)
]

-- The job that the hook listens to.
unfoldable pub socket_job : CompressFlowState → Option String
socket_job flow = elim flow.step [ CompressStep.processing ↦ flow.job_id | _ ↦ none ]

unfoldable pub effective_step : CompressFlowState → JobWsState → CompressStep
effective_step flow ws = elim flow.step [
  | CompressStep.processing ↦
      if job_status_eq ws.status JobStatus.completed
      then CompressStep.done
      else if job_status_eq ws.status JobStatus.failed
      then CompressStep.error
      else flow.step
  | _ ↦ flow.step
]
