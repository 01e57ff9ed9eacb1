-- ===== src/Examples/Flows.antt =====
-- The theorems about the web front end, applied to concrete hooks, texts and networks.
use file_processing_platform.Common.{
  ◌==◌, String, ℕ, ◌+◌, ◌≤◌, ◌≡◌, refl, ◌↔◌, true, false, Option, none, some, List, [], ◌∷◌,
}
use file_processing_platform.Common.Exec.{err}
use file_processing_platform.Errors.{Exception, error_handler}
use file_processing_platform.Db.UserRepository
use file_processing_platform.Db.UserRepository.Laws.{user_repo}
use file_processing_platform.Api.AuthService.{change_password}
use file_processing_platform.Web.Settings.{
  PasswordForm, handle_submit, change_error, change_failed, form_messages,
}
use file_processing_platform.Web.Settings.Messages.{wrong_password_shown}
use file_processing_platform.Examples.ListTable.{list_table, length_of}
use file_processing_platform.Examples.Engine.{users, crypto, cfg}
use file_processing_platform.Examples.Data.{ann, user_rows}
use file_processing_platform.Common.Lists.{length}
use file_processing_platform.Schema.{JobStatus}
use file_processing_platform.Web.JobSocket.Flow.{FlowHook, HookEvent, heard, handle_all}
use file_processing_platform.Web.ConvertFlow.{
  BrowserFile, ConvertStep, ConvertFlowState, initial, FlowEvent, react, socket_job, effective_step,
}
use file_processing_platform.Web.ConvertFlow.Steps.{second, second_job_shows_first}
use file_processing_platform.Web.Forms.{TextRuntime, Class, at, dot, other, matches_email}
use file_processing_platform.Web.Forms.Email.{IsEmail, matches_email-IsEmail}
use file_processing_platform.Web.Client.{Request, Response, Outcome, Browser, send}
use file_processing_platform.Web.Client.Flight.{
  Flight, FlightEvent, unauthorized, refreshed, fly_all, calls, count_of, held, IsSingle,
  flight_keeps,
}
use file_processing_platform.Web.Client.Retry.{send_ends}

abbrev photo : BrowserFile
photo = record { name = "a.png"; type = "image/png"; size = 5 }

-- A hook that shows the output of its first job.
abbrev first_done : FlowHook ConvertFlowState
first_done = record {
  flow = record initial {
    step = ConvertStep.processing;
    selected_file = some photo;
    selected_format = "WEBP";
    uploaded_file_id = some "f1";
    job_id = some "j1";
  };
  token = some "token";
  ws = record {
    progress = 100;
    status = JobStatus.completed;
    error = none;
    output_file_id = some "out1";
  };
}

abbrev later : List (HookEvent FlowEvent)
later =
    heard (record {
      type = "job:progress";
      job_id = "j2";
      progress = some 33;
      status = some JobStatus.active;
      output_file_id = none;
      error = none;
    })
    ∷ []

second_job_shows_first_example :
    (effective_step
        (second first_done (photo ∷ []) "f2" "j2").flow
        (second first_done (photo ∷ []) "f2" "j2").ws
      ≡ ConvertStep.done)
    × ((handle_all react socket_job later (second first_done (photo ∷ []) "f2" "j2")).ws
        ≡ first_done.ws)
second_job_shows_first_example = second_job_shows_first first_done (photo ∷ []) "f2" "j2" later refl

-- `a@b.c`
abbrev address : List Class
address = other ∷ at ∷ other ∷ dot ∷ other ∷ []

matches_email-IsEmail_example : (matches_email address ≡ true) ↔ IsEmail address
matches_email-IsEmail_example = matches_email-IsEmail address

-- A network that refuses every request.
abbrev refuses : Request → ℕ → Option Response × ℕ
refuses req n = (some (record { status = 401; access_token = ""; body = "" }), n + 1)

abbrev browser : Browser ℕ
browser = record {
  stores = record { access_token = some "old"; user = none; guest_token = none };
  net = 0;
  sent = [];
}

abbrev get_files : Request
get_files = record { url = "/files"; authorization = none; retry = false; body = "" }

send_ends_example :
    (r : Outcome × Browser ℕ) × (send refuses 2 get_files browser ≡ some r)
    × (length r.1.sent ≤ length browser.sent + 3)
send_ends_example = send_ends refuses 0 get_files browser

abbrev flight : Flight
flight = record {
  stores = browser.stores;
  is_refreshing = false;
  waiting = [];
  sent_again = [];
  given_up = [];
  sent = 0;
  settled = 0;
}

abbrev two_calls : List FlightEvent
two_calls =
    unauthorized get_files
    ∷ unauthorized (record get_files { url = "/jobs" })
    ∷ refreshed "new"
    ∷ unauthorized get_files
    ∷ []

flight_keeps_example :
    IsSingle (fly_all two_calls flight)
    × ((url body : String)
        → count_of url body (held (fly_all two_calls flight))
          ≡ count_of url body (held flight) + count_of url body (calls two_calls))
flight_keeps_example = flight_keeps two_calls flight refl

abbrev text_runtime : TextRuntime
text_runtime = record { is_space = λ c. c == " "; trim = λ s. s; utf16_length = length_of }

abbrev password_form : PasswordForm
password_form = record {
  current_password = "guess";
  new_password = "new-secret";
  confirm_password = "new-secret";
  client_error = none;
  is_pending = false;
  is_success = false;
  error = none;
}

wrong_password_shown_example :
    (e : Exception) × ((change_password users crypto cfg "ann" "guess" "new-secret" "salt" 50
        user_rows).0
      ≡ err e)
    × (form_messages
          (change_failed (some (error_handler e).code) (handle_submit text_runtime password_form).1)
        ≡ "Current password is incorrect." ∷ [])
unfolding user_repo list_table UserRepository.find_by_id handle_submit change_error
wrong_password_shown_example =
    wrong_password_shown users crypto cfg text_runtime password_form ("guess", "new-secret") "ann"
      "salt" 50 user_rows ann refl refl refl
