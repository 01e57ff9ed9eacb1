-- ===== src/Web/Client.antt =====
-- apps/web/src/api/client.ts, with apps/web/src/stores/authStore.ts and guestStore.ts: the token
-- that a request carries, and the refresh after an answer with status 401. The network is a
-- function of the request; an answer that is missing is a network error. Requests are sent one after
-- the other, so a refresh that is under way is never shared.
pub mod Retry
pub mod Flight
use Prim.Native.String
use file_processing_platform.Common.{
  ℕ, zero, suc, String, Bool, true, false, Option, none, some, List, [], ◌∷◌, ◌++◌, ◌&&◌, not, eqb,
  if◌then◌else◌, concat, leb, ltb, ◌==◌,
}
use file_processing_platform.Db.Tables.{is_none}
use file_processing_platform.Api.AuthService.{PublicUser}
use file_processing_platform.Api.Guards.{behind}

-- `useAuthStore` and `useGuestStore`
pub record Stores : Type 0 where
  pub access_token : Option String
  pub user : Option PublicUser
  pub guest_token : Option String

unfoldable pub set_auth : String → PublicUser → Stores → Stores
set_auth token user s = record s { access_token = some token; user = some user }

unfoldable pub set_access_token : Option String → Stores → Stores
set_access_token token s = record s { access_token = token }

unfoldable pub clear_auth : Stores → Stores
clear_auth s = record s { access_token = none; user = none }

unfoldable pub set_guest_token : String → Stores → Stores
set_guest_token token s = record s { guest_token = some token }

unfoldable pub clear_guest : Stores → Stores
clear_guest s = record s { guest_token = none }

-- `accessToken ?? guestToken`
abbrev pub preferred : Option String → Option String → Option String
preferred none guest = guest
preferred (some token) guest = some token

pub record Request : Type 0 where
  pub url : String
  pub authorization : Option String
  -- `_retry`
  pub retry : Bool
  pub body : String

-- A status, and the access token of the body where it has one.
pub record Response : Type 0 where
  pub status : ℕ
  pub access_token : String
  pub body : String

-- What a call of the client ends in: an answer with a status from 200 to 299, or an error, with the
-- answer if there was one.
pub data Outcome : Type 0 where
  resolved : Response → Outcome
  rejected : Option Response → Outcome

pub record Browser (N : Type 0) : Type 0 where
  pub stores : Stores
  pub net : N
  pub sent : List Request

unfoldable pub outcome_of : Option Response → Outcome
outcome_of none = rejected none
outcome_of (some r) = if leb 200 r.status && ltb r.status 300 then resolved r else rejected (some r)

-- `error.response?.status === 401`
abbrev pub is_unauthorized : Option Response → Bool
is_unauthorized none = false
is_unauthorized (some r) = eqb r.status 401

-- `text.includes(part)`
unfoldable pub includes : String → String → Bool
unfolding behind
includes part String.[] = part == ""
includes part (String.◌∷◌ c rest) =
    let later = includes part rest in
    if is_none (behind part (String.◌∷◌ c rest)) then later else true

abbrev pub bearer_of : String → String
bearer_of token = concat ("Bearer " ∷ token ∷ [])

-- The request interceptor.
abbrev pub with_token : Option String → Request → Request
with_token none req = req
with_token (some token) req =
    if token == "" then req else record req { authorization = some (bearer_of token) }

module _ {N : Type 0} (fetch : Request → N → Option Response × N) where
  -- One request, through the interceptor.
  unfoldable pub once : Request → Browser N → Outcome × Browser N
  unfolding outcome_of
  once req b =
      let carried = with_token (preferred b.stores.access_token b.stores.guest_token) req in
      let (answer, net) = fetch carried b.net in
      (outcome_of answer, record b { net = net; sent = b.sent ++ carried ∷ [] })

  abbrev pub refresh_request : Request
  refresh_request = record { url = "/auth/refresh"; authorization = none; retry = false; body = "" }

  -- After the refresh, which is the last argument: the request goes through the client again, with
  -- `_retry` set, or the session is given up.
  unfoldable pub after_refresh :
      (Request → Browser N → Option (Outcome × Browser N))
      → Request
      → Option Response
      → Option (Outcome × Browser N)
      → Option (Outcome × Browser N)
  after_refresh client req error none = none
  after_refresh client req error (some (resolved r, b)) =
      client (record req { authorization = some (bearer_of r.access_token); retry = true })
        (record b { stores = set_access_token (some r.access_token) b.stores })
  after_refresh client req error (some (rejected e, b)) =
      some (rejected error, record b { stores = clear_auth b.stores })

  -- The response interceptor, over the client that it calls for the refresh and for the request.
  unfoldable pub respond :
      (Request → Browser N → Option (Outcome × Browser N))
      → Request
      → Outcome × Browser N
      → Option (Outcome × Browser N)
  unfolding after_refresh includes
  respond client req (resolved r, b) = some (resolved r, b)
  respond client req (rejected error, b) =
      let renewed = after_refresh client req error (client refresh_request b) in
      if is_unauthorized error && not req.retry && not (includes "/auth/refresh" req.url)
      then renewed
      else some (rejected error, b)

  -- A call of the client: both interceptors around the request. The fuel bounds how deep the calls of
  -- the response interceptor go.
  unfoldable pub send : ℕ → Request → Browser N → Option (Outcome × Browser N)
  unfolding respond once
  send zero req b = none
  send (suc fuel) req b = respond (send fuel) req (once req b)
