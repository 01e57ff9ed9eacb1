-- ===== src/Web/JobSocket/Progress.antt =====
-- What the hook shows of a run of the worker: its messages, through the subscriber and the open
-- sockets that it sends them to, to the state.
use file_processing_platform.Common.{
  ℕ, String, Bool, Option, none, some, List, [], ◌∷◌, eqb, if◌then◌else◌,
}
use file_processing_platform.Worker.Platform.{Message}
use file_processing_platform.Api.WsManager.{Manager}
use file_processing_platform.Api.WsManager.Delivery.{times}
use file_processing_platform.Api.Subscriber.{WsEvent, on_pmessage}
use file_processing_platform.Web.JobSocket.{JobWsState, on_message}
use file_processing_platform.Web.JobSocket.Flow.{listens_to, called}

-- The state after an answer of the subscriber, of a hook with a job, a token and a socket: the event
-- is heard if it is sent to the socket and the hook still has it open.
abbrev pub shown : String → String → ℕ → Option (WsEvent × List ℕ) → JobWsState → JobWsState
shown viewed token socket none state = state
shown viewed token socket (some (event, sockets)) state =
    if eqb (times socket sockets) 0
    then state
    else called (listens_to (some viewed) (some token) state)
        (λ job_id. on_message job_id event state) state

module _ (is_open : ℕ → Bool) (m : Manager) (viewed token : String) (socket : ℕ) where
  -- The state of the hook after messages that the worker published.
  abbrev pub watch : List Message → JobWsState → JobWsState
  watch [] state = state
  watch (message ∷ later) state =
      watch later (shown viewed token socket (on_pmessage is_open m message) state)

  -- The hook hears what is published for its job as long as its state is not terminal.
  abbrev heard_by : Message → JobWsState → JobWsState
  heard_by message state = shown viewed token socket (on_pmessage is_open m message) state
