-- ===== src/Api/WsManager/Delivery.antt =====
-- Who receives an event: the subscriptions after each method, and the sockets of a broadcast.
use file_processing_platform.Common.{
  ℕ, suc, String, ◌≡◌, refl, ap, inl, inr, Bool, true, false, Option, none, some, List, [], ◌∷◌,
  ◌++◌, ◌==◌, ◌&&◌, eq_iff, eqb, not, arith, if◌then◌else◌, Bool-cases, Option-cases, map_some,
}
use file_processing_platform.Db.Tables.{is_none}
use file_processing_platform.Api.WsManager.{
  has, add_to, delete_from, same_text, Subscriptions, Manager, jobs_of, set_jobs, drop_jobs,
  change_jobs, add, remove, subscribe, unsubscribe, send_to, broadcast,
}

eqb_self : (n : ℕ) → eqb n n ≡ true
eqb_self n = ground arith

-- The socket is subscribed to the job.
abbrev pub is_in : String → Option (List String) → Bool
is_in job_id none = false
is_in job_id (some job_ids) = has same_text job_id job_ids

abbrev pub is_subscribed : ℕ → String → Manager → Bool
is_subscribed socket job_id m = is_in job_id (jobs_of socket m.subscriptions)

-- No socket has two entries.
abbrev pub OneEntry : Subscriptions → Type 0
OneEntry [] = Unit {0}
OneEntry ((k, job_ids) ∷ rest) = (jobs_of k rest ≡ none) × OneEntry rest

-- How often a socket is in a list of receivers.
abbrev pub times : ℕ → List ℕ → ℕ
times socket [] = 0
times socket (k ∷ rest) = let later = times socket rest in if eqb k socket then suc later else later

jobs_of-set_jobs :
    (socket : ℕ) (job_ids : List String) (m : Subscriptions) (k : ℕ)
    → jobs_of k (set_jobs socket job_ids m) ≡ (if eqb socket k then some job_ids else jobs_of k m)
unfolding jobs_of set_jobs
jobs_of-set_jobs socket job_ids [] k = refl
jobs_of-set_jobs socket job_ids ((j, old) ∷ rest) k =
    ground (arith, jobs_of-set_jobs socket job_ids rest k)

jobs_of-change_jobs :
    (f : List String → List String) (socket : ℕ) (m : Subscriptions) (k : ℕ)
    → jobs_of k (change_jobs f socket m)
      ≡ (if eqb socket k then map_some f (jobs_of k m) else jobs_of k m)
unfolding jobs_of change_jobs
jobs_of-change_jobs f socket [] k = ground arith
jobs_of-change_jobs f socket ((j, old) ∷ rest) k =
    ground (arith, jobs_of-change_jobs f socket rest k)

jobs_of-drop_jobs :
    (socket : ℕ) (m : Subscriptions) (k : ℕ)
    → OneEntry m
    → jobs_of k (drop_jobs socket m) ≡ (if eqb socket k then none else jobs_of k m)
unfolding jobs_of drop_jobs
jobs_of-drop_jobs socket [] k h = ground arith
jobs_of-drop_jobs socket ((j, old) ∷ rest) k h =
    ground (arith, jobs_of-drop_jobs socket rest k h.1, h.0)

has-append :
    (x y : String) (xs : List String)
    → has same_text x (xs ++ y ∷ []) ≡ (if y == x then true else has same_text x xs)
unfolding has
has-append x y [] = refl
has-append x y (z ∷ xs) = ground (arith, has-append x y xs)

has-add_to :
    (x y : String) (xs : List String)
    → has same_text x (add_to same_text y xs) ≡ (if y == x then true else has same_text x xs)
unfolding add_to
has-add_to x y xs = elim (Bool-cases (y == x)) [
  | inl same ↦ ground (
    arith,
    has-append x y xs,
    eq_iff y x,
    same,
    ap (λ t. has same_text t xs) ((eq_iff y x).0 same),
  )
  | inr other ↦ ground (arith, has-append x y xs, other)
]

has-delete_from :
    (x y : String) (xs : List String)
    → has same_text x (delete_from same_text y xs) ≡ (if y == x then false else has same_text x xs)
unfolding has delete_from
has-delete_from x y [] = ground arith
has-delete_from x y (z ∷ xs) =
    ground (arith, has-delete_from x y xs, eq_iff z x, eq_iff z y, eq_iff y x)

OneEntry-set_jobs :
    (socket : ℕ) (job_ids : List String) (m : Subscriptions)
    → OneEntry m
    → OneEntry (set_jobs socket job_ids m)
unfolding set_jobs jobs_of
OneEntry-set_jobs socket job_ids [] h = (refl, tt)
OneEntry-set_jobs socket job_ids ((k, old) ∷ rest) h = elim (Bool-cases (eqb k socket)) [
  | inl is ↦ rw is h
  | inr isnt ↦ rw isnt (
    ground (arith, jobs_of-set_jobs socket job_ids rest k, h.0, isnt),
    OneEntry-set_jobs socket job_ids rest h.1,
  )
]

OneEntry-change_jobs :
    (f : List String → List String) (socket : ℕ) (m : Subscriptions)
    → OneEntry m
    → OneEntry (change_jobs f socket m)
unfolding change_jobs
OneEntry-change_jobs f socket [] h = tt
OneEntry-change_jobs f socket ((k, old) ∷ rest) h = elim (Bool-cases (eqb k socket)) [
  | inl is ↦ rw is h
  | inr isnt ↦ rw isnt (
    ground (arith, jobs_of-change_jobs f socket rest k, h.0, isnt),
    OneEntry-change_jobs f socket rest h.1,
  )
]

OneEntry-drop_jobs : (socket : ℕ) (m : Subscriptions) → OneEntry m → OneEntry (drop_jobs socket m)
unfolding drop_jobs
OneEntry-drop_jobs socket [] h = tt
OneEntry-drop_jobs socket ((k, old) ∷ rest) h = elim (Bool-cases (eqb k socket)) [
  | inl is ↦ rw is h.1
  | inr isnt ↦ rw isnt (
    ground (arith, jobs_of-drop_jobs socket rest k h.1, h.0, isnt),
    OneEntry-drop_jobs socket rest h.1,
  )
]

-- The managers that the methods lead to from the new one.
pub data Reachable : Manager → Type 0 where
  started : Reachable (record { by_user = []; subscriptions = [] })
  added :
      (user_id : String) (socket : ℕ) (m : Manager) → Reachable m → Reachable (add user_id socket m)
  removed : (socket : ℕ) (m : Manager) → Reachable m → Reachable (remove socket m)
  subscribed :
      (socket : ℕ) (job_id : String) (m : Manager)
      → Reachable m
      → Reachable (subscribe socket job_id m)
  unsubscribed :
      (socket : ℕ) (job_id : String) (m : Manager)
      → Reachable m
      → Reachable (unsubscribe socket job_id m)

Reachable-OneEntry : (m : Manager) → Reachable m → OneEntry m.subscriptions
unfolding add remove subscribe unsubscribe
Reachable-OneEntry _ started = tt
Reachable-OneEntry _ (added user_id socket m r) =
    OneEntry-set_jobs socket [] m.subscriptions (Reachable-OneEntry m r)
Reachable-OneEntry _ (removed socket m r) =
    OneEntry-drop_jobs socket m.subscriptions (Reachable-OneEntry m r)
Reachable-OneEntry _ (subscribed socket job_id m r) =
    OneEntry-change_jobs _ socket m.subscriptions (Reachable-OneEntry m r)
Reachable-OneEntry _ (unsubscribed socket job_id m r) =
    OneEntry-change_jobs _ socket m.subscriptions (Reachable-OneEntry m r)

times-send_to :
    (is_open : ℕ → Bool) (job_id : String) (m : Subscriptions) (socket : ℕ)
    → OneEntry m
    → times socket (send_to is_open job_id m)
      ≡ (if is_in job_id (jobs_of socket m) && is_open socket then 1 else 0)
unfolding send_to jobs_of
times-send_to is_open job_id [] socket h = refl
times-send_to is_open job_id ((k, job_ids) ∷ rest) socket h =
    ground (arith, times-send_to is_open job_id rest socket h.1, h.0)

-- On a manager that the methods lead to, a broadcast sends the payload once to every open socket
-- that is subscribed to the job, and not at all to any other socket.
pub broadcast_exact :
    (is_open : ℕ → Bool) (job_id : String) (m : Manager) (socket : ℕ)
    → Reachable m
    → times socket (broadcast is_open job_id m)
      ≡ (if is_subscribed socket job_id m && is_open socket then 1 else 0)
unfolding broadcast
broadcast_exact is_open job_id m socket r =
    times-send_to is_open job_id m.subscriptions socket (Reachable-OneEntry m r)

no_job : (j : String) → is_in j (some []) ≡ false
unfolding has
no_job j = refl

is_subscribed-subscribe :
    (socket : ℕ) (job_id : String) (m : Subscriptions) (k : ℕ) (j : String)
    → is_in j (jobs_of k (change_jobs (add_to same_text job_id) socket m)) ≡ (
        if eqb socket k && job_id == j && not (is_none (jobs_of socket m))
        then true
        else is_in j (jobs_of k m))
is_subscribed-subscribe socket job_id m k j = elim (Bool-cases (eqb socket k)) [
  | inl same ↦
      let equal : socket ≡ k = ground arith in
      rw (jobs_of-change_jobs (add_to same_text job_id) socket m k, ← equal, eqb_self socket)
        (elim (Option-cases (jobs_of socket m)) [
          | inl unknown ↦ ground (arith, unknown)
          | inr (job_ids, known) ↦ ground (arith, known, has-add_to j job_id job_ids)
        ])
  | inr other ↦ ground (arith, other, jobs_of-change_jobs (add_to same_text job_id) socket m k)
]

is_subscribed-unsubscribe :
    (socket : ℕ) (job_id : String) (m : Subscriptions) (k : ℕ) (j : String)
    → is_in j (jobs_of k (change_jobs (delete_from same_text job_id) socket m))
      ≡ (if eqb socket k && job_id == j then false else is_in j (jobs_of k m))
is_subscribed-unsubscribe socket job_id m k j = elim (Option-cases (jobs_of k m)) [
  | inl unknown ↦
      ground (arith, unknown, jobs_of-change_jobs (delete_from same_text job_id) socket m k)
  | inr (job_ids, known) ↦ ground (
    arith,
    known,
    jobs_of-change_jobs (delete_from same_text job_id) socket m k,
    has-delete_from j job_id job_ids,
  )
]

-- What the methods do to the subscriptions of a reachable manager. A new socket has none, a removed
-- one has none; subscribing takes effect on a socket that was added, for that job alone, whoever
-- owns the job; unsubscribing ends that subscription; all other subscriptions stay.
pub is_subscribed_after :
    (socket : ℕ) (job_id user_id : String) (m : Manager) (k : ℕ) (j : String)
    → Reachable m
    → (is_subscribed k j (add user_id socket m)
        ≡ (if eqb socket k then false else is_subscribed k j m))
      × (is_subscribed k j (remove socket m)
          ≡ (if eqb socket k then false else is_subscribed k j m))
      × (is_subscribed k j (subscribe socket job_id m) ≡ (
          if eqb socket k && job_id == j && not (is_none (jobs_of socket m.subscriptions))
          then true
          else is_subscribed k j m))
      × (is_subscribed k j (unsubscribe socket job_id m)
          ≡ (if eqb socket k && job_id == j then false else is_subscribed k j m))
unfolding add remove subscribe unsubscribe
is_subscribed_after socket job_id user_id m k j r = (
  ground (arith, no_job j, jobs_of-set_jobs socket [] m.subscriptions k),
  ground (arith, jobs_of-drop_jobs socket m.subscriptions k (Reachable-OneEntry m r)),
  is_subscribed-subscribe socket job_id m.subscriptions k j,
  is_subscribed-unsubscribe socket job_id m.subscriptions k j,
)
