-- ===== src/Api/Subscriber/Channels.antt =====
-- The channel names that the worker publishes to, read back by the subscriber.
use Prim.Native.String
use text.Mathlib.TextLemmas.{nil-append, cons-append}
use file_processing_platform.Common.{
  ℕ, String, ◌≡◌, refl, ap, ◌∙◌, Bool, Option, some, ◌==◌, Bool-cases, inl, inr, arith,
}
use file_processing_platform.Worker.Platform.{
  Event, progress_channel, completed_channel, failed_channel,
}
use file_processing_platform.Api.WsManager.{Manager, broadcast}
use file_processing_platform.Api.Subscriber.{split_colon, parse_channel, ws_event, on_pmessage}

split_colon-append :
    (s t first rest : String)
    → split_colon s ≡ (first, some rest)
    → split_colon (String.◌++◌ s t) ≡ (first, some (String.◌++◌ rest t))
unfolding split_colon
split_colon-append String.[] t first rest h = absurd (ground arith)
split_colon-append (String.◌∷◌ c s) t first rest h =
    rw cons-append (elim (Bool-cases (String.◌∷◌ c String.[] == ":")) [
      | inl colon ↦ rw colon (
          let here : ◌≡◌ {A = String × Option String} ("", some s) (first, some rest) =
            rw colon at h in
          let rest_eq : ◌≡◌ {A = Option String} (some s) (some rest) = ap (λ p. p.1) here in
          let first_eq : "" ≡ first = ap (λ p. p.0) here in ground (arith, rest_eq, first_eq))
      | inr other ↦ rw other (
          let here : ◌≡◌ {A = String × Option String}
              (String.◌∷◌ c (split_colon s).0, (split_colon s).1) (first, some rest) =
            rw other at h in
          let later =
            split_colon-append s t (split_colon s).0 rest
              (ap (λ o. ((split_colon s).0, o)) (ap (λ p. p.1) here)) in
          rw later (ap (λ f. (f, some (String.◌++◌ rest t))) (ap (λ p. p.0) here)))
    ])

-- A channel name made of a prefix with two colons and a job's id is parsed into the event type of
-- the prefix and the id, whatever characters the id has.
parse_channel-prefix :
    (event_type middle prefix job_id : String)
    → split_colon prefix ≡ ("job", some middle)
    → split_colon middle ≡ (event_type, some "")
    → parse_channel (String.◌++◌ prefix job_id) ≡ some (event_type, job_id)
unfolding parse_channel
parse_channel-prefix event_type middle prefix job_id h k =
    let first = split_colon-append prefix job_id "job" middle h in
    let second = split_colon-append middle job_id event_type "" k in
    let empty = nil-append job_id in ground (arith, first, second, empty)

append_nil : (s : String) → String.◌++◌ s "" ≡ s
append_nil String.[] = nil-append ""
append_nil (String.◌∷◌ c s) = cons-append c s "" ∙ ap (λ t. String.◌∷◌ c t) (append_nil s)

-- What the worker publishes on the channel of a job reaches the open sockets that are subscribed to
-- that job, as an event of the channel's type for that job.
pub on_pmessage-channels :
    (is_open : ℕ → Bool) (m : Manager) (job_id : String) (event : Event)
    → (on_pmessage is_open m (record { channel = progress_channel job_id; event = event })
        ≡ some (ws_event "progress" job_id event, broadcast is_open job_id m))
      × (on_pmessage is_open m (record { channel = completed_channel job_id; event = event })
          ≡ some (ws_event "completed" job_id event, broadcast is_open job_id m))
      × (on_pmessage is_open m (record { channel = failed_channel job_id; event = event })
          ≡ some (ws_event "failed" job_id event, broadcast is_open job_id m))
unfolding on_pmessage split_colon
on_pmessage-channels is_open m job_id event =
    let bare = append_nil job_id in
    let progress = parse_channel-prefix "progress" "progress:" "job:progress:" job_id refl refl in
    let completed =
      parse_channel-prefix "completed" "completed:" "job:completed:" job_id refl refl in
    let failed = parse_channel-prefix "failed" "failed:" "job:failed:" job_id refl refl in
    (ground (arith, bare, progress), ground (arith, bare, completed), ground (arith, bare, failed))
