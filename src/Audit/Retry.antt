-- ===== src/Audit/Retry.antt =====
-- backend/src/audit/auditRetryQueue.js and backend/src/audit/auditRetryWorker.js: events whose
-- first write failed wait in an outbox, from which a worker writes them in batches.
pub mod Settled
pub mod Stuck
mod Examples
use silent_whisper.Prelude.{
  ℕ, zero, suc, ◌+◌, Bool, true, false, Option, none, some, List, [], ◌∷◌, ◌++◌, map, take, leb,
  ◌==◌, if◌then◌else◌,
}
use silent_whisper.Audit.Chain.{Platform, Event, Row, Log, append_audit_event}

pub data JobStatus : Type 0 where
  pending processing failed : JobStatus

pub record Job : Type 0 where
  pub id : ℕ
  pub event : Event
  pub job_status : JobStatus
  pub attempts : ℕ

-- The outbox in the order of created_at, and the log that the jobs are for.
pub record Outbox : Type 0 where
  pub jobs : List Job
  pub log : Log

-- The insert of a new row, with the identifier that the database makes.
unfoldable pub enqueue_audit_retry : ℕ → Event → Outbox → Outbox
enqueue_audit_retry new_id e o = record o {
  jobs = o.jobs ++ record { id = new_id; event = e; job_status = pending; attempts = 0 } ∷ [];
}

abbrev pub is_pending : Job → Bool
is_pending j = elim j.job_status [ pending ↦ true | _ ↦ false ]

abbrev pub is_processing : Job → Bool
is_processing j = elim j.job_status [ processing ↦ true | _ ↦ false ]

abbrev pub in_process : Job → Job
in_process j = record j { job_status = processing }

-- The first jobs that are pending become those in process; both are returned, the claimed ones
-- and the table.
unfoldable pub claim_batch : ℕ → List Job → List Job × List Job
claim_batch zero jobs = ([], jobs)
claim_batch (suc n) [] = ([], [])
claim_batch (suc n) (j ∷ jobs) =
    let (claimed, rest) = claim_batch n jobs in
    let (later, others) = claim_batch (suc n) jobs in
    if is_pending j then (in_process j ∷ claimed, in_process j ∷ rest) else (later, j ∷ others)

-- .where({ id }).del()
abbrev pub delete_job : ℕ → List Job → List Job
delete_job i [] = []
delete_job i (j ∷ jobs) = let rest = delete_job i jobs in if j.id == i then rest else j ∷ rest

-- .where({ id }).update({ status, attempts, … })
abbrev pub update_job : ℕ → JobStatus → ℕ → List Job → List Job
update_job i s n [] = []
update_job i s n (j ∷ jobs) =
    let rest = update_job i s n jobs in
    if j.id == i then record j { job_status = s; attempts = n } ∷ rest else j ∷ rest

abbrev pub next_status : ℕ → ℕ → JobStatus
next_status max_attempts attempts = if leb max_attempts attempts then failed else pending

unfoldable pub retry_later : ℕ → Job → Outbox → Outbox
retry_later max_attempts job o = record o {
  jobs = update_job job.id (next_status max_attempts (job.attempts + 1)) (job.attempts + 1) o.jobs;
}

-- The write succeeded, or raised an error.
abbrev pub settle : ℕ → Job → Outbox → Option (Log × Row) → Outbox
settle max_attempts job o none = retry_later max_attempts job o
settle max_attempts job o (some (log, row)) = record { jobs = delete_job job.id o.jobs; log = log }

-- The Boolean tells whether the database refuses the write.
unfoldable pub process_job : Platform → ℕ → Bool → Job → Outbox → Outbox
process_job p max_attempts true job o = retry_later max_attempts job o
process_job p max_attempts false job o =
    settle max_attempts job o (append_audit_event p o.log job.event)

unfoldable pub process_jobs : Platform → ℕ → (Job → Bool) → List Job → Outbox → Outbox
process_jobs p max_attempts refuses [] o = o
process_jobs p max_attempts refuses (job ∷ jobs) o =
    process_jobs p max_attempts refuses jobs (process_job p max_attempts (refuses job) job o)

unfoldable pub run_audit_retry_worker_tick : Platform → ℕ → ℕ → (Job → Bool) → Outbox → Outbox
run_audit_retry_worker_tick p batch_size max_attempts refuses o =
    let (claimed, jobs) = claim_batch batch_size o.jobs in
    process_jobs p max_attempts refuses claimed (record o { jobs = jobs })

-- A tick in the middle of which the process ends, after some of the claimed jobs.
unfoldable pub interrupted_tick : Platform → ℕ → ℕ → (Job → Bool) → ℕ → Outbox → Outbox
interrupted_tick p batch_size max_attempts refuses done o =
    let (claimed, jobs) = claim_batch batch_size o.jobs in
    process_jobs p max_attempts refuses (take done claimed) (record o { jobs = jobs })
