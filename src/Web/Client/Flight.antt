-- ===== src/Web/Client/Flight.antt =====
-- apps/web/src/api/client.ts: calls that are answered with status 401 while a refresh is under way
-- wait for it (`refreshPromise`); it is one for all of them.
use file_processing_platform.Common.{
  ℕ, ◌+◌, String, ◌≡◌, Bool, true, false, some, List, [], ◌∷◌, ◌++◌, map, arith, Bool-cases, inl,
  inr, if◌then◌else◌, ap, refl, ◌==◌, ◌&&◌,
}
use file_processing_platform.Web.Client.{Request, Stores, set_access_token, clear_auth, bearer_of}

-- The calls that wait, those that were sent again, and those that were rejected, each oldest first;
-- how many refreshes were sent, and how many of them are settled.
pub record Flight : Type 0 where
  pub stores : Stores
  pub is_refreshing : Bool
  pub waiting : List Request
  pub sent_again : List Request
  pub given_up : List Request
  pub sent : ℕ
  pub settled : ℕ

pub data FlightEvent : Type 0 where
  -- a call without `_retry`, other than the refresh, is answered with status 401
  unauthorized : Request → FlightEvent
  -- the refresh is answered, with the new token, or refused
  refreshed : String → FlightEvent
  refused : FlightEvent

abbrev pub with_bearer : String → Request → Request
with_bearer token req = record req { authorization = some (bearer_of token); retry = true }

-- `if (!refreshPromise) refreshPromise = …`, and the settling of the promise, which clears it and
-- wakes every call that awaits it.
unfoldable pub fly : FlightEvent → Flight → Flight
fly (unauthorized req) f = record f {
  is_refreshing = true;
  waiting = f.waiting ++ req ∷ [];
  sent = if f.is_refreshing then f.sent else f.sent + 1;
}
fly (refreshed token) f =
    if f.is_refreshing
    then record f {
      stores = set_access_token (some token) f.stores;
      is_refreshing = false;
      waiting = [];
      sent_again = f.sent_again ++ map (with_bearer token) f.waiting;
      settled = f.settled + 1;
    }
    else f
fly refused f =
    if f.is_refreshing
    then record f {
      stores = clear_auth f.stores;
      is_refreshing = false;
      waiting = [];
      given_up = f.given_up ++ f.waiting;
      settled = f.settled + 1;
    }
    else f

abbrev pub fly_all : List FlightEvent → Flight → Flight
fly_all [] f = f
fly_all (e ∷ es) f = fly_all es (fly e f)

-- How many of some requests are for a URL with a body. Neither the token nor `_retry` counts.
abbrev pub is_for : String → String → Request → ℕ
is_for url body req = if req.url == url && req.body == body then 1 else 0

abbrev pub count_of : String → String → List Request → ℕ
count_of url body [] = 0
count_of url body (req ∷ rest) = is_for url body req + count_of url body rest

-- The calls that the events bring.
abbrev pub calls_of : FlightEvent → List Request
calls_of (unauthorized req) = req ∷ []
calls_of (refreshed token) = []
calls_of refused = []

abbrev pub calls : List FlightEvent → List Request
calls [] = []
calls (e ∷ es) = calls_of e ++ calls es

-- The calls that wait, were sent again, or were rejected.
abbrev pub held : Flight → List Request
held f = f.waiting ++ (f.sent_again ++ f.given_up)

abbrev pub under_way : Bool → ℕ
under_way true = 1
under_way false = 0

-- A refresh is under way only while one is not settled, and there is never more than one.
abbrev pub IsSingle : Flight → Type 0
IsSingle f = f.sent ≡ f.settled + under_way f.is_refreshing

fly-IsSingle : (e : FlightEvent) (f : Flight) → IsSingle f → IsSingle (fly e f)
unfolding fly
fly-IsSingle (unauthorized req) f h = ground (arith, h)
fly-IsSingle (refreshed token) f h = ground (arith, h)
fly-IsSingle refused f h = ground (arith, h)

module _ (url body : String) where
  count_of-append :
      (xs ys : List Request)
      → count_of url body (xs ++ ys) ≡ count_of url body xs + count_of url body ys
  count_of-append [] ys = omega arith
  count_of-append (x ∷ xs) ys = omega (arith, count_of-append xs ys)

  count_of-map :
      (token : String) (xs : List Request)
      → count_of url body (map (with_bearer token) xs) ≡ count_of url body xs
  count_of-map token [] = refl
  count_of-map token (x ∷ xs) = ap (λ n. is_for url body x + n) (count_of-map token xs)

  count_of-held :
      (f : Flight)
      → count_of url body (held f)
        ≡ count_of url body f.waiting
          + count_of url body f.sent_again
          + count_of url body f.given_up
  count_of-held f =
      let first : count_of url body (held f)
          ≡ count_of url body f.waiting + count_of url body (f.sent_again ++ f.given_up) =
        count_of-append f.waiting _ in
      omega (arith, first, count_of-append f.sent_again f.given_up)

  held-fly :
      (e : FlightEvent) (f : Flight)
      → count_of url body (held (fly e f))
        ≡ count_of url body (held f) + count_of url body (calls_of e)
  unfolding fly
  held-fly (unauthorized req) f = omega (
    arith,
    count_of-held f,
    count_of-held (fly (unauthorized req) f),
    count_of-append f.waiting (req ∷ []),
  )
  held-fly (refreshed token) f = elim (Bool-cases f.is_refreshing) [
    | inl live ↦ rw live (
        omega (
          arith,
          count_of-held f,
          count_of-append (f.sent_again ++ map (with_bearer token) f.waiting) f.given_up,
          count_of-append f.sent_again (map (with_bearer token) f.waiting),
          count_of-map token f.waiting,
        ))
    | inr still ↦ rw still (omega arith)
  ]
  held-fly refused f = elim (Bool-cases f.is_refreshing) [
    | inl live ↦ rw live (
        omega (
          arith,
          count_of-held f,
          count_of-append f.sent_again (f.given_up ++ f.waiting),
          count_of-append f.given_up f.waiting,
        ))
    | inr still ↦ rw still (omega arith)
  ]

  held-fly_all :
      (es : List FlightEvent) (f : Flight)
      → count_of url body (held (fly_all es f))
        ≡ count_of url body (held f) + count_of url body (calls es)
  held-fly_all [] f = omega arith
  held-fly_all (e ∷ es) f =
      omega
        (arith, held-fly_all es (fly e f), held-fly e f, count_of-append (calls_of e) (calls es))

-- Through any events, at most one refresh is under way at a time, if that was so before. For every
-- URL and body, the calls for it that wait, were sent again or were rejected are as many as those
-- before and those that the events bring, so none is lost, changed or doubled.
pub flight_keeps :
    (es : List FlightEvent) (f : Flight)
    → IsSingle f
    → IsSingle (fly_all es f)
      × ((url body : String)
          → count_of url body (held (fly_all es f))
            ≡ count_of url body (held f) + count_of url body (calls es))
flight_keeps es f h = (single es f h, λ url body. held-fly_all url body es f)
  where
    single : (es : List FlightEvent) (f : Flight) → IsSingle f → IsSingle (fly_all es f)
    single [] f h = h
    single (e ∷ es) f h = single es (fly e f) (fly-IsSingle e f h)
