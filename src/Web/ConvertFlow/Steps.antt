-- ===== src/Web/ConvertFlow/Steps.antt =====
-- What the flow of a conversion keeps, and what it shows of a second conversion.
use file_processing_platform.Common.{String, ◌≡◌, refl, some, List, [], ◌∷◌}
use file_processing_platform.Schema.{JobStatus}
use file_processing_platform.Web.JobSocket.{is_terminal}
use file_processing_platform.Web.JobSocket.Flow.{FlowHook, HookEvent, handle_all, terminal_stays}
use file_processing_platform.Web.ConvertFlow.{
  BrowserFile, ConvertStep, ConvertFlowState, FlowEvent, files_chosen, format_chosen,
  upload_progressed, upload_succeeded, upload_failed, job_made, job_refused, reset,
  on_file_selected, react, socket_job, effective_step,
}

-- The options are shown for an uploaded file, and the job that is processed has an id. The flow
-- itself is never done.
abbrev pub IsConsistent : ConvertFlowState → Type 0
IsConsistent flow = elim flow.step [
  | ConvertStep.options ↦ (id : String) × (flow.uploaded_file_id ≡ some id)
  | ConvertStep.processing ↦ (id : String) × (flow.job_id ≡ some id)
  | ConvertStep.done ↦ ⊥
  | _ ↦ Unit
]

abbrev pub react_all : List FlowEvent → ConvertFlowState → ConvertFlowState
react_all [] flow = flow
react_all (e ∷ es) flow = react_all es (react e flow)

chosen-IsConsistent :
    (files : List BrowserFile) (flow : ConvertFlowState)
    → IsConsistent flow
    → IsConsistent (on_file_selected files flow)
unfolding on_file_selected
chosen-IsConsistent [] flow h = h
chosen-IsConsistent (file ∷ more) flow h = tt

react-IsConsistent :
    (e : FlowEvent) (flow : ConvertFlowState) → IsConsistent flow → IsConsistent (react e flow)
unfolding react
react-IsConsistent (files_chosen files) flow h = chosen-IsConsistent files flow h
react-IsConsistent (format_chosen fmt) flow h = h
react-IsConsistent (upload_progressed pct) flow h = h
react-IsConsistent (upload_succeeded id) flow h = (id, refl)
react-IsConsistent upload_failed flow h = tt
react-IsConsistent (job_made id) flow h = (id, refl)
react-IsConsistent job_refused flow h = tt
react-IsConsistent reset flow h = tt

-- After any events, in any order, a flow at the options has the id of an uploaded file, one that is
-- processing has the id of its job, and none is done by itself, if that was so before.
flow-IsConsistent :
    (es : List FlowEvent) (flow : ConvertFlowState)
    → IsConsistent flow
    → IsConsistent (react_all es flow)
flow-IsConsistent [] flow h = h
flow-IsConsistent (e ∷ es) flow h =
    flow-IsConsistent es (react e flow) (react-IsConsistent e flow h)

abbrev pub second :
    FlowHook ConvertFlowState → List BrowserFile → String → String → FlowHook ConvertFlowState
second h files file_id job_id = record h {
  flow =
      react_all (reset ∷ files_chosen files ∷ upload_succeeded file_id ∷ job_made job_id ∷ [])
        h.flow;
}

-- A hook whose first job is completed, then a reset, another file, its upload and its job: at once,
-- and whatever the socket brings later, the second job is shown as done, with the output of the
-- first.
pub second_job_shows_first :
    (h : FlowHook ConvertFlowState) (files : List BrowserFile) (file_id job_id : String)
    (later : List (HookEvent FlowEvent))
    → h.ws.status ≡ JobStatus.completed
    → (effective_step (second h files file_id job_id).flow (second h files file_id job_id).ws
        ≡ ConvertStep.done)
      × ((handle_all react socket_job later (second h files file_id job_id)).ws ≡ h.ws)
unfolding effective_step is_terminal react
second_job_shows_first h files file_id job_id later done = (
  rw done refl,
  terminal_stays react socket_job later (second h files file_id job_id) (rw done refl),
)
