-- ===== src/Api/Routes/Ws.antt =====
-- apps/api/src/routes/ws/index.ts: what a connection, its messages and its end do to the manager. A
-- token without a subject would be tracked under `undefined`, which is written as that text.
use file_processing_platform.Common.{ℕ, String, Option, none, some, or_else}
use file_processing_platform.Api.AuthService.{Claims, Crypto, subject}
use file_processing_platform.Api.WsManager.{Manager, add, remove, subscribe, unsubscribe}

-- `WsClientMessage`, and any other JSON
pub data ClientMessage : Type 0 where
  subscribe_message : String → ClientMessage
  unsubscribe_message : String → ClientMessage
  other_message : ClientMessage

-- The arguments of `socket.close`.
pub record Close : Type 0 where
  pub code : ℕ
  pub reason : String

-- The manager after the token is verified, or the close of the socket.
unfoldable pub admit : Option Claims → ℕ → Manager → Option Close × Manager
admit none socket m = (some (record { code = 4001; reason = "Invalid or expired token" }), m)
admit (some claims) socket m = (none, add (or_else claims.sub "undefined") socket m)

-- The handler of a connection, up to its listeners; `!token` holds of the empty text too.
unfoldable pub on_connection :
    Crypto → String → Option String → ℕ → ℕ → Manager → Option Close × Manager
unfolding admit
on_connection crypto access_secret token now socket m = elim (subject token) [
  | none ↦ (some (record { code = 4001; reason = "Missing token" }), m)
  | some given ↦ admit (crypto.verify given access_secret now) socket m
]

-- `socket.on('message', …)`, for a message that is JSON
unfoldable pub on_client_message : ℕ → ClientMessage → Manager → Manager
on_client_message socket (subscribe_message job_id) m = subscribe socket job_id m
on_client_message socket (unsubscribe_message job_id) m = unsubscribe socket job_id m
on_client_message socket other_message m = m

-- `socket.on('close', …)`
unfoldable pub on_close : ℕ → Manager → Manager
on_close socket m = remove socket m
