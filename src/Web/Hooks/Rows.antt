-- ===== src/Web/Hooks/Rows.antt =====
-- The filter of the job list, and the rows that it shows.
use file_processing_platform.Common.{
  ℕ, ◌+◌, ◌≤◌, ◌*◌, String, ◌≡◌, ◌≢◌, refl, ap, false, Option, some, List, ◌==◌, map, arith,
  eq_false, Bool-cases, inl, inr, if◌then◌else◌,
}
use mathlib.Core.Path.{subst}
use file_processing_platform.Common.Lists.{Elem, Elem-map}
use file_processing_platform.Schema.{DbJob, JobStatus, job_status_eq}
use file_processing_platform.Web.JobSocket.{JobWsState}
use file_processing_platform.Web.Client.{Stores}
use file_processing_platform.Web.Hooks.{
  JobsPage, parse_status, set_status, patch_row, is_expired_or_missing, renew_guest,
}

-- A status other than pending, once set, is read back from the search parameters, and the list is on
-- its first page again.
parse_status-set_status :
    (st : JobStatus) (state : JobsPage)
    → st ≢ JobStatus.pending
    → (parse_status (set_status (some st) state).param ≡ some st)
      × ((set_status (some st) state).page ≡ 1)
unfolding set_status parse_status
parse_status-set_status JobStatus.pending state h = absurd (h refl)
parse_status-set_status JobStatus.active state h = (refl, refl)
parse_status-set_status JobStatus.completed state h = (refl, refl)
parse_status-set_status JobStatus.failed state h = (refl, refl)

-- The rows of other jobs stay in the list as they are.
patch_row_others :
    (job : DbJob) (ws : JobWsState) (rows : List DbJob) (j : DbJob)
    → Elem j rows
    → (j.id == job.id) ≡ false
    → Elem j (patch_row job ws rows)
unfolding patch_row
patch_row_others job ws rows j m other =
    let patch : DbJob → DbJob =
      λ i. if i.id == job.id then record i { progress = ws.progress; status = ws.status } else i in
    elim (Bool-cases (job_status_eq job.status JobStatus.active)) [
      | inl live ↦ rw live (
          subst (λ x. Elem x (map patch rows))
            (ap (λ b. if b then record j { progress = ws.progress; status = ws.status } else j)
              other)
            (Elem-map patch j rows m))
      | inr still ↦ rw still m
    ]

-- A guest token that has more than a minute left is kept, and no session is asked for.
fresh_guest_kept :
    (exp : String → Option ℕ) (now seconds : ℕ) (token : String) (stores : Stores)
    → stores.guest_token ≡ some token
    → token ≢ ""
    → exp token ≡ some seconds
    → now + 60000 ≤ seconds * 1000
    → renew_guest exp now stores ≡ (false, stores)
unfolding renew_guest is_expired_or_missing
fresh_guest_kept exp now seconds token stores held filled known left =
    ground (arith, held, known, left, eq_false token "" filled)
