-- ===== src/Web/ConvertFlow.antt =====
-- apps/web/src/features/converter/hooks/useConvertFlow.ts: the state of the hook, the callbacks that
-- change it, and what it returns. Uploads and job requests end in any order and at any time.
pub mod Steps
use file_processing_platform.Common.{
  ℕ, String, Option, none, some, List, ◌==◌, if◌then◌else◌, or_else,
}
use file_processing_platform.Common.Lists.{head?}
use file_processing_platform.Schema.{JobStatus, job_status_eq}
use file_processing_platform.Web.JobSocket.{JobWsState}
use file_processing_platform.Web.Formats.{get_format_options}

-- `File` of the browser
pub record BrowserFile : Type 0 where
  pub name : String
  pub type : String
  pub size : ℕ

pub data ConvertStep : Type 0 where
  idle options processing done error : ConvertStep

pub record ConvertFlowState : Type 0 where
  pub step : ConvertStep
  pub selected_file : Option BrowserFile
  pub selected_format : String
  pub uploaded_file_id : Option String
  pub job_id : Option String
  pub upload_progress : ℕ

-- `INITIAL_STATE`
abbrev pub initial : ConvertFlowState
initial = record {
  step = ConvertStep.idle;
  selected_file = none;
  selected_format = "";
  uploaded_file_id = none;
  job_id = none;
  upload_progress = 0;
}

-- What happens to the hook: a call of one of the functions it returns, or an answer to an upload
-- or to a job request.
pub data FlowEvent : Type 0 where
  files_chosen : List BrowserFile → FlowEvent
  format_chosen : String → FlowEvent
  upload_progressed : ℕ → FlowEvent
  upload_succeeded : String → FlowEvent
  upload_failed : FlowEvent
  job_made : String → FlowEvent
  job_refused : FlowEvent
  reset : FlowEvent

-- `onFileSelected`, its state
unfoldable pub on_file_selected : List BrowserFile → ConvertFlowState → ConvertFlowState
unfolding get_format_options
on_file_selected files flow = elim (head? files) [
  | none ↦ flow
  | some file ↦ record initial {
    selected_file = some file;
    selected_format = or_else (head? (get_format_options file.type)) "";
  }
]

-- The `setFlow` of each event.
unfoldable pub react : FlowEvent → ConvertFlowState → ConvertFlowState
unfolding on_file_selected
react (files_chosen files) flow = on_file_selected files flow
react (format_chosen fmt) flow = record flow { selected_format = fmt }
react (upload_progressed pct) flow = record flow { upload_progress = pct }
react (upload_succeeded id) flow = record flow {
  step = ConvertStep.options;
  uploaded_file_id = some id;
  upload_progress = 0;
}
react upload_failed flow = record flow { step = ConvertStep.error }
react (job_made id) flow = record flow { step = ConvertStep.processing; job_id = some id }
react job_refused flow = record flow { step = ConvertStep.error }
react reset flow = initial

-- The file id and the type of the job that `onSubmit` asks for, if it asks; `lower` is
-- `toLowerCase`.
unfoldable pub on_submit : (String → String) → ConvertFlowState → Option (String × String)
on_submit lower flow = elim flow.uploaded_file_id [
  | none ↦ none
  | some id ↦
      if id == ""
      then none
      else if flow.selected_format == ""
      then none
      else some (id, lower flow.selected_format)
]

-- The job that the hook listens to.
unfoldable pub socket_job : ConvertFlowState → Option String
socket_job flow = elim flow.step [ ConvertStep.processing ↦ flow.job_id | _ ↦ none ]

unfoldable pub effective_step : ConvertFlowState → JobWsState → ConvertStep
effective_step flow ws = elim flow.step [
  | ConvertStep.processing ↦
      if job_status_eq ws.status JobStatus.completed
      then ConvertStep.done
      else if job_status_eq ws.status JobStatus.failed
      then ConvertStep.error
      else flow.step
  | _ ↦ flow.step
]
