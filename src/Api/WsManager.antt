-- ===== src/Api/WsManager.antt =====
-- apps/api/src/ws/WsManager.ts: the two maps and the methods. A socket is its identity, a number; a
-- JavaScript `Map` or `Set` is the list of its entries in the order of their insertion.
pub mod Delivery
use file_processing_platform.Common.{
  ℕ, String, Bool, true, false, Option, none, some, List, [], ◌∷◌, ◌++◌, ◌==◌, ◌&&◌, eqb, not,
  if◌then◌else◌,
}
use file_processing_platform.Common.Lists.{filter}
use file_processing_platform.Db.Tables.{is_empty}

-- `set.has(x)`
unfoldable pub has : {A : Type 0} → (A → A → Bool) → A → List A → Bool
has same x [] = false
has same x (y ∷ ys) = let rest = has same x ys in if same y x then true else rest

-- `set.add(x)`
unfoldable pub add_to : {A : Type 0} → (A → A → Bool) → A → List A → List A
unfolding has
add_to same x xs = if has same x xs then xs else xs ++ x ∷ []

-- `set.delete(x)`
unfoldable pub delete_from : {A : Type 0} → (A → A → Bool) → A → List A → List A
delete_from same x xs = filter (λ y. not (same y x)) xs

abbrev pub same_text : String → String → Bool
same_text s t = s == t

abbrev pub Users : Type 0
Users = List (String × List ℕ)

abbrev pub Subscriptions : Type 0
Subscriptions = List (ℕ × List String)

pub record Manager : Type 0 where
  pub by_user : Users
  pub subscriptions : Subscriptions

-- `if (!byUser.has(userId)) byUser.set(userId, new Set()); byUser.get(userId)!.add(socket)`
unfoldable pub track : String → ℕ → Users → Users
unfolding add_to has
track user_id socket [] = (user_id, socket ∷ []) ∷ []
track user_id socket ((u, sockets) ∷ rest) =
    let tracked = track user_id socket rest in
    if u == user_id then (u, add_to eqb socket sockets) ∷ rest else (u, sockets) ∷ tracked

-- The loop of `remove`, which stops at the first user that has the socket.
unfoldable pub untrack : ℕ → Users → Users
unfolding has delete_from
untrack socket [] = []
untrack socket ((u, sockets) ∷ rest) =
    let untracked = untrack socket rest in
    let left = delete_from eqb socket sockets in
    if has eqb socket sockets
    then (if is_empty left then rest else (u, left) ∷ rest)
    else (u, sockets) ∷ untracked

-- `subscriptions.get(socket)`
unfoldable pub jobs_of : ℕ → Subscriptions → Option (List String)
jobs_of socket [] = none
jobs_of socket ((k, job_ids) ∷ rest) =
    let found = jobs_of socket rest in if eqb k socket then some job_ids else found

-- `subscriptions.set(socket, jobIds)`
unfoldable pub set_jobs : ℕ → List String → Subscriptions → Subscriptions
set_jobs socket job_ids [] = (socket, job_ids) ∷ []
set_jobs socket job_ids ((k, old) ∷ rest) =
    let later = set_jobs socket job_ids rest in
    if eqb k socket then (k, job_ids) ∷ rest else (k, old) ∷ later

-- `subscriptions.delete(socket)`
unfoldable pub drop_jobs : ℕ → Subscriptions → Subscriptions
drop_jobs socket [] = []
drop_jobs socket ((k, job_ids) ∷ rest) =
    let later = drop_jobs socket rest in if eqb k socket then rest else (k, job_ids) ∷ later

-- A change of the set in `subscriptions.get(socket)?`
unfoldable pub change_jobs : (List String → List String) → ℕ → Subscriptions → Subscriptions
change_jobs f socket [] = []
change_jobs f socket ((k, job_ids) ∷ rest) =
    let later = change_jobs f socket rest in
    if eqb k socket then (k, f job_ids) ∷ rest else (k, job_ids) ∷ later

unfoldable pub add : String → ℕ → Manager → Manager
unfolding track set_jobs
add user_id socket m = record {
  by_user = track user_id socket m.by_user;
  subscriptions = set_jobs socket [] m.subscriptions;
}

unfoldable pub remove : ℕ → Manager → Manager
unfolding untrack drop_jobs
remove socket m = record {
  by_user = untrack socket m.by_user;
  subscriptions = drop_jobs socket m.subscriptions;
}

unfoldable pub subscribe : ℕ → String → Manager → Manager
unfolding change_jobs add_to
subscribe socket job_id m = record m {
  subscriptions = change_jobs (add_to same_text job_id) socket m.subscriptions;
}

unfoldable pub unsubscribe : ℕ → String → Manager → Manager
unfolding change_jobs delete_from
unsubscribe socket job_id m = record m {
  subscriptions = change_jobs (delete_from same_text job_id) socket m.subscriptions;
}

-- The loop of `broadcast`: the sockets that the payload is sent to, in order. `is_open` is
-- `socket.readyState === socket.OPEN` at the time of the call.
unfoldable pub send_to : (ℕ → Bool) → String → Subscriptions → List ℕ
unfolding has
send_to is_open job_id [] = []
send_to is_open job_id ((k, job_ids) ∷ rest) =
    let later = send_to is_open job_id rest in
    if has same_text job_id job_ids && is_open k then k ∷ later else later

unfoldable pub broadcast : (ℕ → Bool) → String → Manager → List ℕ
unfolding send_to
broadcast is_open job_id m = send_to is_open job_id m.subscriptions
