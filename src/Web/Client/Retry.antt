-- ===== src/Web/Client/Retry.antt =====
-- A call of the client comes to an end after three requests at most.
use file_processing_platform.Common.{
  ℕ, suc, ◌+◌, ◌≤◌, ◌≡◌, refl, true, false, Option, some, [], ◌∷◌, arith, not, Bool-cases, inl, inr,
  ◌&&◌,
}
use file_processing_platform.Common.Lists.{length, length-append}
use file_processing_platform.Web.Client.{
  Request, Response, Outcome, resolved, rejected, Browser, once, after_refresh, respond, send,
  refresh_request, is_unauthorized, includes, bearer_of, clear_auth, set_access_token,
}

module _ {N : Type 0} (fetch : Request → N → Option Response × N) where
  once_length :
      (req : Request) (b : Browser N) → length (once fetch req b).1.sent ≡ length b.sent + 1
  unfolding once
  once_length req b = length-append b.sent (_ ∷ [])

  -- A request that is a retry, or the refresh itself, is answered as it is.
  respond_passes :
      (client : Request → Browser N → Option (Outcome × Browser N)) (req : Request)
      (o : Outcome × Browser N)
      → (not req.retry && not (includes "/auth/refresh" req.url)) ≡ false
      → respond fetch client req o ≡ some o
  unfolding respond
  respond_passes client req (resolved r, b) h = refl
  respond_passes client req (rejected error, b) h = elim (Bool-cases (is_unauthorized error)) [
    | inl refused ↦ rw (refused, h) refl
    | inr other ↦ rw other refl
  ]

  send-once :
      (n : ℕ) (req : Request) (b : Browser N)
      → (not req.retry && not (includes "/auth/refresh" req.url)) ≡ false
      → send fetch (suc n) req b ≡ some (once fetch req b)
  unfolding send
  send-once n req b h = respond_passes (send fetch n) req (once fetch req b) h

  send_refresh :
      (n : ℕ) (b : Browser N)
      → send fetch (suc n) (refresh_request fetch) b ≡ some (once fetch (refresh_request fetch) b)
  unfolding includes
  send_refresh n b = send-once n (refresh_request fetch) b refl

  after_ends :
      (n : ℕ) (req : Request) (error : Option Response) (o : Outcome × Browser N)
      → (r : Outcome × Browser N) × (after_refresh fetch (send fetch (suc n)) req error (some o)
          ≡ some r)
        × (length r.1.sent ≤ length o.1.sent + 1)
  unfolding after_refresh
  after_ends n req error (resolved r, b) =
      let req' : Request = record req {
        authorization = some (bearer_of r.access_token);
        retry = true;
      } in
      let b' : Browser N = record b { stores = set_access_token (some r.access_token) b.stores } in
      let count = once_length req' b' in
      (once fetch req' b', send-once n req' b' refl, omega (arith, count))
  after_ends n req error (rejected e, b) =
      ((rejected error, record b { stores = clear_auth b.stores }), refl, omega arith)

  respond_ends :
      (n : ℕ) (req : Request) (o : Outcome × Browser N)
      → (r : Outcome × Browser N) × (respond fetch (send fetch (suc n)) req o ≡ some r)
        × (length r.1.sent ≤ length o.1.sent + 2)
  unfolding respond
  respond_ends n req (resolved r, b) = ((resolved r, b), refl, omega arith)
  respond_ends n req (rejected error, b) =
      let again = once fetch (refresh_request fetch) b in
      let count = once_length (refresh_request fetch) b in
      let (r, ends, few) = after_ends n req error again in
      elim (Bool-cases
        (is_unauthorized error && not req.retry && not (includes "/auth/refresh" req.url))) [
          | inl retried ↦ (r, rw (retried, send_refresh n b) ends, omega (arith, count, few))
          | inr passed ↦ ((rejected error, b), rw passed refl, omega arith)
        ]

  -- A call of the client comes to an end, whatever the network answers: with fuel of two or more it
  -- has a result, and it has sent at most three requests.
  pub send_ends :
      (n : ℕ) (req : Request) (b : Browser N)
      → (r : Outcome × Browser N) × (send fetch (suc (suc n)) req b ≡ some r)
        × (length r.1.sent ≤ length b.sent + 3)
  unfolding send
  send_ends n req b =
      let (r, ends, few) = respond_ends n req (once fetch req b) in
      let count = once_length req b in (r, ends, omega (arith, count, few))
