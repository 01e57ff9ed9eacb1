-- ===== src/Api/Subscriber.antt =====
-- apps/api/src/ws/redisSubscriber.ts: the handler of a published message. A message's JSON is read
-- back as the object that was published.
pub mod Channels
use Prim.Native.String
use file_processing_platform.Common.{
  ℕ, String, Bool, Option, none, some, List, [], ◌∷◌, ◌==◌, concat, if◌then◌else◌,
}
use file_processing_platform.Schema.{JobStatus}
use file_processing_platform.Worker.Platform.{
  Event, progress_event, completed_event, failed_event, Message,
}
use file_processing_platform.Api.WsManager.{Manager, broadcast}

-- The event that a socket receives: `{ type, jobId, ...payload }`
pub record WsEvent : Type 0 where
  pub type : String
  pub job_id : String
  pub progress : Option ℕ
  pub status : Option JobStatus
  pub error : Option String
  pub output_file_id : Option String

-- The text before the first colon, and what is behind it if there is one.
unfoldable pub split_colon : String → String × Option String
split_colon String.[] = ("", none)
split_colon (String.◌∷◌ c s) =
    let later = split_colon s in
    if String.◌∷◌ c String.[] == ":" then ("", some s) else (String.◌∷◌ c later.0, later.1)

-- `channel.split(':')`: the second part and the later ones joined again, if there are three parts
unfoldable pub parse_channel : String → Option (String × String)
unfolding split_colon
parse_channel channel = elim (split_colon channel).1 [
  | none ↦ none
  | some rest ↦ elim (split_colon rest).1 [
    | none ↦ none
    | some job_id ↦ some ((split_colon rest).0, job_id)
  ]
]

-- `{ type: `job:${eventType}`, jobId, ...payload }`
unfoldable pub ws_event : String → String → Event → WsEvent
ws_event event_type job_id (progress_event progress status) = record {
  type = concat ("job:" ∷ event_type ∷ []);
  job_id = job_id;
  progress = some progress;
  status = some status;
  error = none;
  output_file_id = none;
}
ws_event event_type job_id (completed_event id) = record {
  type = concat ("job:" ∷ event_type ∷ []);
  job_id = job_id;
  progress = none;
  status = none;
  error = none;
  output_file_id = some id;
}
ws_event event_type job_id (failed_event message) = record {
  type = concat ("job:" ∷ event_type ∷ []);
  job_id = job_id;
  progress = none;
  status = none;
  error = some message;
  output_file_id = none;
}

-- `subscriber.on('pmessage', …)`: the event and the sockets that it is sent to, if any
unfoldable pub on_pmessage : (ℕ → Bool) → Manager → Message → Option (WsEvent × List ℕ)
unfolding parse_channel ws_event
on_pmessage is_open m message = elim (parse_channel message.channel) [
  | none ↦ none
  | some (event_type, job_id) ↦
      some (ws_event event_type job_id message.event, broadcast is_open job_id m)
]
