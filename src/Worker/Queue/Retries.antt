-- ===== src/Worker/Queue/Retries.antt =====
-- What the retries of the queue make of a job.
use file_processing_platform.Common.{
  ℕ, zero, suc, ◌≤◌, String, ◌≡◌, refl, ap, ◌⊎◌, inl, inr, some, List, [], ◌∷◌, ◌++◌, arith, ◌∙◌,
}
use mathlib.Core.Path.{subst}
use file_processing_platform.Common.Exec.{Result, ok, err}
use file_processing_platform.Errors.{Exception}
use file_processing_platform.Schema.{DbJob, JobStatus}
use file_processing_platform.Db.Files.{FileRepo}
use file_processing_platform.Db.Jobs.{JobRepo}
use file_processing_platform.Api.JobService.{JobPayload}
use file_processing_platform.Worker.Platform.{
  ObjectStore, Sharp, PathModule, WorkerWorld, Message, failed_event, failed_channel, message_of,
}
use file_processing_platform.Worker.Consumer.{dispatch, attempt}
use file_processing_platform.Worker.Consumer.Rows.{SameJob}
use file_processing_platform.Worker.Consumer.Settles.{Settled, attempt-Settled}
use file_processing_platform.Worker.Queue.{
  Deliveries, returned, gave_up, again, tries, default_job_options,
}

pub SameJob-trans : (a b c : DbJob) → SameJob a b → SameJob b c → SameJob a c
SameJob-trans a b c (h0, h1, h2, h3, h4) (k0, k1, k2, k3, k4) =
    (k0 ∙ h0, k1 ∙ h1, k2 ∙ h2, k3 ∙ h3, k4 ∙ h4)

module _ {S O B : Type 0} (files : FileRepo S) (jobs : JobRepo S files) (minio : ObjectStore O B)
    (sharp : Sharp B) (path : PathModule) (bucket : String) where
  Settled-ok :
      (p : JobPayload) (j k : DbJob) (r : Result (Unit {0})) (m : List Message)
      → r ≡ ok tt
      → Settled files jobs minio sharp path bucket p j r k m
      → (k.status ≡ JobStatus.completed) × (k.progress ≡ 100) × (k.error_message ≡ j.error_message)
  Settled-ok p j k (ok u) m h s = s
  Settled-ok p j k (err e) m h s = absurd (cc)

  Settled-err :
      (p : JobPayload) (j k : DbJob) (e : Exception) (r : Result (Unit {0})) (m : List Message)
      → r ≡ err e
      → Settled files jobs minio sharp path bucket p j r k m
      → Settled files jobs minio sharp path bucket p j (err e) k m
  Settled-err p j k e r m h s =
      subst (λ x. Settled files jobs minio sharp path bucket p j x k m) h s

  -- How a job stands when no delivery of it is to come: completed at progress 100, or failed
  -- because every run that it had threw.
  abbrev pub Finished : DbJob → ℕ → ℕ → Type 0
  Finished k ran attempts =
      ((k.status ≡ JobStatus.completed) × (k.progress ≡ 100))
      ⊎ ((k.status ≡ JobStatus.failed) × (ran ≡ attempts))

  Finished-suc : (k : DbJob) (ran n : ℕ) → Finished k ran n → Finished k (suc ran) (suc n)
  Finished-suc k ran n (inl done) = inl done
  Finished-suc k ran n (inr (failed, all)) = inr (failed, ap suc all)

  deliveries_finish :
      (p : JobPayload) (n : ℕ) (w w' : WorkerWorld S O) (j : DbJob)
      (d : Deliveries files jobs minio sharp path bucket p n w w')
      → jobs.row w.db p.job_id ≡ some j
      → (k : DbJob) × (jobs.row w'.db p.job_id ≡ some k)
        × SameJob j k
        × (tries files jobs minio sharp path bucket d ≤ n)
        × Finished k (tries files jobs minio sharp path bucket d) n
  deliveries_finish p n w w' j (returned left clock w0 h) found =
      let (k, row, same, s) =
        attempt-Settled files jobs minio sharp path bucket p clock w j found in
      let (done, full, kept) = Settled-ok p j k _ _ h s in
      (k, row, same, omega arith, inl (done, full))
  deliveries_finish p n w w' j (gave_up clock w0 e h) found =
      let (k, row, same, s) =
        attempt-Settled files jobs minio sharp path bucket p clock w j found in
      let (failed, message, before, last) = Settled-err p j k e _ _ h s in
      (k, row, same, omega arith, inr (failed, refl))
  deliveries_finish p n w w' j (again left clock w0 v w1 e h kept rest) found =
      let (i, row, same, s) =
        attempt-Settled files jobs minio sharp path bucket p clock w j found in
      let (k, later, same', few, end) = deliveries_finish p (suc left) v w' i rest (kept ∙ row) in
      (
        k,
        later,
        SameJob-trans j i k same same',
        omega (arith, few),
        Finished-suc k (tries files jobs minio sharp path bucket rest) (suc left) end,
      )

  -- When the deliveries of a queued job are over, between which nothing else touches its row, the row is completed at progress 100, or it is
  -- failed and it had three runs, every one of which threw. There were at most three runs, and the
  -- id, the file, the owner, the type and the time of creation of the job are the same.
  pub job_finishes :
      (p : JobPayload) (w w' : WorkerWorld S O) (j : DbJob)
      (d : Deliveries files jobs minio sharp path bucket p default_job_options.attempts w w')
      → jobs.row w.db p.job_id ≡ some j
      → (k : DbJob) × (jobs.row w'.db p.job_id ≡ some k)
        × SameJob j k
        × (tries files jobs minio sharp path bucket d ≤ 3)
        × Finished k (tries files jobs minio sharp path bucket d) 3
  job_finishes p w w' j d found = deliveries_finish p 3 w w' j d found

  Result-cases : (r : Result (Unit {0})) → (r ≡ ok tt) ⊎ ((e : Exception) × (r ≡ err e))
  Result-cases (ok u) = inl refl
  Result-cases (err e) = inr (e, refl)

  -- Every payload is delivered to an end, whatever the packages that a run calls answer: there are
  -- deliveries of it, as many as the queue allows, that lead somewhere.
  delivered :
      (p : JobPayload) (n : ℕ) (clock : ℕ → ℕ) (w : WorkerWorld S O)
      → (w' : WorkerWorld S O) × Deliveries files jobs minio sharp path bucket p (suc n) w w'
  delivered p zero clock w =
      elim (Result-cases (dispatch files jobs minio sharp path bucket p clock w).0) [
        | inl h ↦ (attempt files jobs minio sharp path bucket p clock w, returned 0 clock w h)
        | inr (e, h) ↦ (attempt files jobs minio sharp path bucket p clock w, gave_up clock w e h)
      ]
  delivered p (suc n) clock w =
      let v = attempt files jobs minio sharp path bucket p clock w in
      let (w', d) = delivered p n clock v in
      elim (Result-cases (dispatch files jobs minio sharp path bucket p clock w).0) [
        | inl h ↦ (v, returned (suc n) clock w h)
        | inr (e, h) ↦ (w', again n clock w v w' e h refl d)
      ]

  -- A job whose first run threw and whose second run returned: the failure is published all the
  -- same, and the completed row keeps its message.
  pub early_failure_stays :
      (p : JobPayload) (clock later : ℕ → ℕ) (w v : WorkerWorld S O) (j : DbJob) (e : Exception)
      → jobs.row w.db p.job_id ≡ some j
      → (dispatch files jobs minio sharp path bucket p clock w).0 ≡ err e
      → jobs.row v.db p.job_id
        ≡ jobs.row (attempt files jobs minio sharp path bucket p clock w).db p.job_id
      → (dispatch files jobs minio sharp path bucket p later v).0 ≡ ok tt
      → ((before : List Message) × ((attempt files jobs minio sharp path bucket p clock w).published
            ≡ before
              ++ record { channel = failed_channel p.job_id; event = failed_event (message_of e) }
                ∷ []))
        × (k : DbJob) × (jobs.row (attempt files jobs minio sharp path bucket p later v).db p.job_id
            ≡ some k)
        × (k.status ≡ JobStatus.completed)
        × (k.progress ≡ 100)
        × (k.error_message ≡ some (message_of e))
  early_failure_stays p clock later w v j e found threw kept returned_later =
      let (i, row, same, s) =
        attempt-Settled files jobs minio sharp path bucket p clock w j found in
      let (failed, message, before, last) = Settled-err p j i e _ _ threw s in
      let (k, row', same', s') =
        attempt-Settled files jobs minio sharp path bucket p later v i (kept ∙ row) in
      let (done, full, left) = Settled-ok p i k _ _ returned_later s' in
      ((before, last), k, row', done, full, left ∙ message)
