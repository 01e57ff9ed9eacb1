-- ===== src/Web/JobSocket/Flow.antt =====
-- A hook that shows a flow of steps and, through `useJobWebSocket`, the job of its processing step.
-- `react` is what an event does to the flow, and `socket_job` the job that the socket is opened for.
-- The state of `useJobWebSocket` is made once, when the component is mounted.
use file_processing_platform.Common.{
  String, ◌≡◌, refl, ap, ◌∙◌, Bool, true, Option, none, some, List, [], ◌∷◌, if◌then◌else◌, arith,
  ◌==◌, ◌||◌, false,
}
use file_processing_platform.Db.Tables.{is_none}
use file_processing_platform.Api.Subscriber.{WsEvent}
use file_processing_platform.Web.JobSocket.{JobWsState, is_terminal, on_message, on_error}

pub record FlowHook (F : Type 0) : Type 0 where
  pub flow : F
  -- `accessToken ?? guestToken`
  pub token : Option String
  pub ws : JobWsState

pub data HookEvent (E : Type 0) : Type 0 where
  of_flow : E → HookEvent E
  heard : WsEvent → HookEvent E
  broken : HookEvent E

-- A token or a job id that is there and not empty.
abbrev pub present : Option String → Option String
present none = none
present (some text) = if text == "" then none else some text

abbrev pub unless : Bool → Option String → Option String
unless true o = none
unless false o = o

-- The job of the socket, if it is open: there are a job and a token, and the state is not terminal.
unfoldable pub listens_to : Option String → Option String → JobWsState → Option String
listens_to job_id token ws =
    unless (is_none (present job_id) || is_none (present token) || is_terminal ws) job_id

-- The state after a callback of the socket, which runs for the job that it was opened for.
abbrev pub called : Option String → (String → JobWsState) → JobWsState → JobWsState
called none callback ws = ws
called (some job_id) callback ws = callback job_id

module _ {F E : Type 0} (react : E → F → F) (socket_job : F → Option String) where
  unfoldable pub handle : HookEvent E → FlowHook F → FlowHook F
  unfolding listens_to
  handle (of_flow e) h = record h { flow = react e h.flow }
  handle (heard msg) h = record h {
    ws =
        called (listens_to (socket_job h.flow) h.token h.ws) (λ job_id. on_message job_id msg h.ws)
          h.ws;
  }
  handle broken h = record h {
    ws = called (listens_to (socket_job h.flow) h.token h.ws) (λ job_id. on_error h.ws) h.ws;
  }

  abbrev pub handle_all : List (HookEvent E) → FlowHook F → FlowHook F
  handle_all [] h = h
  handle_all (e ∷ es) h = handle_all es (handle e h)

  deaf :
      (o token : Option String) (ws : JobWsState)
      → is_terminal ws ≡ true
      → listens_to o token ws ≡ none
  unfolding listens_to
  deaf o token ws h = ground (arith, h)

  -- A state that is completed or failed is never changed again, whatever happens, a new job included.
  handle_terminal :
      (e : HookEvent E) (h : FlowHook F) → is_terminal h.ws ≡ true → (handle e h).ws ≡ h.ws
  unfolding handle
  handle_terminal (of_flow e) h t = refl
  handle_terminal (heard msg) h t = rw (deaf (socket_job h.flow) h.token h.ws t) refl
  handle_terminal broken h t = rw (deaf (socket_job h.flow) h.token h.ws t) refl

  pub terminal_stays :
      (es : List (HookEvent E)) (h : FlowHook F)
      → is_terminal h.ws ≡ true
      → (handle_all es h).ws ≡ h.ws
  terminal_stays [] h t = refl
  terminal_stays (e ∷ es) h t =
      let same = handle_terminal e h t in
      terminal_stays es (handle e h) (ap is_terminal same ∙ t) ∙ same
