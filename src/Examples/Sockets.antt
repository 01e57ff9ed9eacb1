-- ===== src/Examples/Sockets.antt =====
-- The theorems about sockets and their events, applied to two sockets of which one subscribes to a
-- job.
use file_processing_platform.Common.{
  ℕ, ◌≡◌, Bool, true, false, ◌&&◌, ◌==◌, eqb, [], none, not, if◌then◌else◌,
}
use file_processing_platform.Db.Tables.{is_none}
use file_processing_platform.Api.WsManager.{
  Manager, add, remove, subscribe, unsubscribe, broadcast, jobs_of,
}
use file_processing_platform.Api.WsManager.Delivery.{
  Reachable, started, added, subscribed, is_subscribed, times, broadcast_exact, is_subscribed_after,
}
use file_processing_platform.Schema.{JobStatus}
use file_processing_platform.Web.JobSocket.{JobWsState}

abbrev empty : Manager
empty = record { by_user = []; subscriptions = [] }

abbrev two_sockets : Manager
two_sockets = subscribe 1 "j1" (add "bob" 2 (add "ann" 1 empty))

two_sockets-Reachable : Reachable two_sockets
two_sockets-Reachable =
    subscribed 1 "j1" (add "bob" 2 (add "ann" 1 empty))
      (added "bob" 2 (add "ann" 1 empty) (added "ann" 1 empty started))

abbrev all_open : ℕ → Bool
all_open socket = true

broadcast_exact_example :
    times 1 (broadcast all_open "j1" two_sockets)
    ≡ (if is_subscribed 1 "j1" two_sockets && true then 1 else 0)
broadcast_exact_example = broadcast_exact all_open "j1" two_sockets 1 two_sockets-Reachable

is_subscribed_after_example :
    (is_subscribed 1 "j1" (add "ann" 2 two_sockets)
      ≡ (if eqb 2 1 then false else is_subscribed 1 "j1" two_sockets))
    × (is_subscribed 1 "j1" (remove 2 two_sockets)
        ≡ (if eqb 2 1 then false else is_subscribed 1 "j1" two_sockets))
    × (is_subscribed 1 "j1" (subscribe 2 "j1" two_sockets) ≡ (
        if eqb 2 1 && "j1" == "j1" && not (is_none (jobs_of 2 two_sockets.subscriptions))
        then true
        else is_subscribed 1 "j1" two_sockets))
    × (is_subscribed 1 "j1" (unsubscribe 2 "j1" two_sockets)
        ≡ (if eqb 2 1 && "j1" == "j1" then false else is_subscribed 1 "j1" two_sockets))
is_subscribed_after_example =
    is_subscribed_after 2 "j1" "ann" two_sockets 1 "j1" two_sockets-Reachable

abbrev fresh_state : JobWsState
fresh_state = record {
  progress = 0;
  status = JobStatus.pending;
  error = none;
  output_file_id = none;
}
