-- ===== src/Web/JobSocket.antt =====
-- apps/web/src/hooks/useJobWebSocket.ts: the state that the hook keeps for a job, and what an event
-- of the socket does to it.
pub mod Progress
pub mod Flow
use file_processing_platform.Common.{
  ℕ, String, Bool, Option, none, some, ◌==◌, ◌||◌, not, or_else, if◌then◌else◌,
}
use file_processing_platform.Schema.{JobStatus, job_status_eq}
use file_processing_platform.Api.Subscriber.{WsEvent}

pub record JobWsState : Type 0 where
  pub progress : ℕ
  pub status : JobStatus
  pub error : Option String
  pub output_file_id : Option String

-- The first value of the state.
unfoldable pub initial_state : ℕ → JobStatus → JobWsState
initial_state progress status = record {
  progress = progress;
  status = status;
  error = none;
  output_file_id = none;
}

-- No connection is opened any more.
unfoldable pub is_terminal : JobWsState → Bool
is_terminal state =
    job_status_eq state.status JobStatus.completed || job_status_eq state.status JobStatus.failed

-- `ws.onmessage`, for a message that is JSON
unfoldable pub on_message : String → WsEvent → JobWsState → JobWsState
on_message job_id msg state =
    if not (msg.job_id == job_id)
    then state
    else if msg.type == "job:progress"
    then record {
      progress = or_else msg.progress 0;
      status = or_else msg.status JobStatus.active;
      error = none;
      output_file_id = none;
    }
    else if msg.type == "job:completed"
    then record {
      progress = 100;
      status = JobStatus.completed;
      error = none;
      output_file_id = msg.output_file_id;
    }
    else if msg.type == "job:failed"
    then record state {
      status = JobStatus.failed;
      error = some (or_else msg.error "Processing failed");
    }
    else state

-- `ws.onerror`
unfoldable pub on_error : JobWsState → JobWsState
on_error state = record state {
  error = some "WebSocket connection error. Progress updates may be delayed.";
}
