-- ===== src/Audit/Retry/Stuck.antt =====
-- A job that was claimed by a worker that ended before settling it.
use silent_whisper.Prelude.{
  ℕ, zero, suc, ◌+◌, ◌≡◌, refl, ap, ◌∙◌, Bool, true, false, not, ◌&&◌, ◌||◌, Option, none, some,
  List, [], ◌∷◌, arith, ◌==◌, if◌then◌else◌,
}
use silent_whisper.Audit.Chain.{Platform, Row, Log, append_audit_event}
use silent_whisper.Audit.Retry.{
  JobStatus, Job, Outbox, is_pending, claim_batch, delete_job, update_job, next_status, retry_later,
  settle, process_job, process_jobs, run_audit_retry_worker_tick,
}

-- The rows with an identifier.
abbrev pub jobs_with : ℕ → List Job → List Job
jobs_with i [] = []
jobs_with i (j ∷ jobs) = let rest = jobs_with i jobs in if j.id == i then j ∷ rest else rest

abbrev pub none_pending : List Job → Bool
none_pending [] = true
none_pending (j ∷ jobs) = not (is_pending j) && none_pending jobs

abbrev mentions : ℕ → List Job → Bool
mentions i [] = false
mentions i (j ∷ jobs) = j.id == i || mentions i jobs

claim-unmentioned :
    (n i : ℕ) (jobs : List Job)
    → none_pending (jobs_with i jobs) ≡ true
    → (mentions i (claim_batch n jobs).0 ≡ false)
      × (jobs_with i (claim_batch n jobs).1 ≡ jobs_with i jobs)
unfolding claim_batch
claim-unmentioned zero i jobs h = (refl, refl)
claim-unmentioned (suc n) i [] h = (refl, refl)
claim-unmentioned (suc n) i (j ∷ jobs) h =
    let tail : none_pending (jobs_with i jobs) ≡ true = ground arith in
    let (a, b) = claim-unmentioned n i jobs tail in
    let (c, d) = claim-unmentioned (suc n) i jobs tail in
    (ground (arith, a, c), ground (arith, b, d))

delete-other :
    (k i : ℕ) (jobs : List Job)
    → (k == i) ≡ false
    → jobs_with i (delete_job k jobs) ≡ jobs_with i jobs
delete-other k i [] h = refl
delete-other k i (j ∷ jobs) h = ground (arith, delete-other k i jobs)

update-other :
    (k i n : ℕ) (s : JobStatus) (jobs : List Job)
    → (k == i) ≡ false
    → jobs_with i (update_job k s n jobs) ≡ jobs_with i jobs
update-other k i n s [] h = refl
update-other k i n s (j ∷ jobs) h = ground (arith, update-other k i n s jobs)

settle-other :
    (m i : ℕ) (job : Job) (o : Outbox) (r : Option (Log × Row))
    → (job.id == i) ≡ false
    → jobs_with i (settle m job o r).jobs ≡ jobs_with i o.jobs
unfolding retry_later
settle-other m i job o none h =
    update-other job.id i (job.attempts + 1) (next_status m (job.attempts + 1)) o.jobs h
settle-other m i job o (some (l, r)) h = delete-other job.id i o.jobs h

process-other :
    (p : Platform) (m i : ℕ) (b : Bool) (job : Job) (o : Outbox)
    → (job.id == i) ≡ false
    → jobs_with i (process_job p m b job o).jobs ≡ jobs_with i o.jobs
unfolding process_job retry_later
process-other p m i true job o h =
    update-other job.id i (job.attempts + 1) (next_status m (job.attempts + 1)) o.jobs h
process-other p m i false job o h = settle-other m i job o (append_audit_event p o.log job.event) h

process_all-other :
    (p : Platform) (m i : ℕ) (refuses : Job → Bool) (jobs : List Job) (o : Outbox)
    → mentions i jobs ≡ false
    → jobs_with i (process_jobs p m refuses jobs o).jobs ≡ jobs_with i o.jobs
unfolding process_jobs
process_all-other p m i refuses [] o h = refl
process_all-other p m i refuses (j ∷ jobs) o h =
    process_all-other p m i refuses jobs (process_job p m (refuses j) j o) (ground arith)
    ∙ process-other p m i (refuses j) j o (ground arith)

tick-other :
    (p : Platform) (n m i : ℕ) (refuses : Job → Bool) (o : Outbox)
    → none_pending (jobs_with i o.jobs) ≡ true
    → jobs_with i (run_audit_retry_worker_tick p n m refuses o).jobs ≡ jobs_with i o.jobs
unfolding run_audit_retry_worker_tick
tick-other p n m i refuses o h =
    let (a, b) = claim-unmentioned n i o.jobs h in
    process_all-other p m i refuses (claim_batch n o.jobs).0
      (record o { jobs = (claim_batch n o.jobs).1 }) a
    ∙ b

-- Ticks one after another, each with its batch size and the writes that the database refuses.
abbrev pub run_ticks : Platform → ℕ → List (ℕ × (Job → Bool)) → Outbox → Outbox
run_ticks p m [] o = o
run_ticks p m ((n, refuses) ∷ ticks) o =
    run_ticks p m ticks (run_audit_retry_worker_tick p n m refuses o)

-- When no row with an identifier is pending, as when the worker ended after it had claimed the
-- row, no number of ticks changes or removes a row with the identifier.
pub claimed_is_stuck :
    (p : Platform) (m i : ℕ) (ticks : List (ℕ × (Job → Bool))) (o : Outbox)
    → none_pending (jobs_with i o.jobs) ≡ true
    → jobs_with i (run_ticks p m ticks o).jobs ≡ jobs_with i o.jobs
claimed_is_stuck p m i [] o h = refl
claimed_is_stuck p m i ((n, refuses) ∷ ticks) o h =
    let kept = tick-other p n m i refuses o h in
    claimed_is_stuck p m i ticks (run_audit_retry_worker_tick p n m refuses o)
      (ap none_pending kept ∙ h)
    ∙ kept
