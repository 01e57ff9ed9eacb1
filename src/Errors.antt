-- ===== src/Errors.antt =====
-- apps/api/src/utils/errors.ts and apps/api/src/middleware/errorHandler.ts: the domain errors that
-- the services throw, and the HTTP response that each thrown value becomes.
use Prim.Native.Nat.{ℕ}
use Prim.Native.String.{String}

-- class AppError
pub record AppError : Type 0 where
  pub status_code : ℕ
  pub code : String
  pub message : String

-- What a handler can throw: a domain error, a schema error of the web framework, anything else.
pub data Exception : Type 0 where
  app_error : AppError → Exception
  validation_error : String → Exception
  other_error : String → Exception

abbrev pub bad_request : String → String → Exception
bad_request code message = app_error (record { status_code = 400; code = code; message = message })

abbrev pub unauthorized : String → String → Exception
unauthorized code message = app_error (record { status_code = 401; code = code; message = message })

abbrev pub forbidden : String → String → Exception
forbidden code message = app_error (record { status_code = 403; code = code; message = message })

abbrev pub not_found : String → String → Exception
not_found code message = app_error (record { status_code = 404; code = code; message = message })

abbrev pub conflict : String → String → Exception
conflict code message = app_error (record { status_code = 409; code = code; message = message })

abbrev pub too_many_requests : String → String → Exception
too_many_requests code message =
    app_error (record { status_code = 429; code = code; message = message })

-- What PostgreSQL answers to a text that does not fit its column.
abbrev pub value_too_long : Exception
value_too_long = other_error "value too long for type character varying"

pub record ErrorReply : Type 0 where
  pub status : ℕ
  pub code : String
  pub message : String

-- The handler that `registerErrorHandler` installs.
unfoldable pub error_handler : Exception → ErrorReply
error_handler (app_error e) = record { status = e.status_code; code = e.code; message = e.message }
error_handler (validation_error message) = record {
  status = 422;
  code = "VALIDATION_ERROR";
  message = message;
}
error_handler (other_error message) = record {
  status = 500;
  code = "INTERNAL_ERROR";
  message = "Internal server error";
}
