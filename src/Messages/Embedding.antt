-- ===== src/Messages/Embedding.antt =====
-- backend/src/search/embeddingWorker.js and the reconciliation of backend/src/search/embeddingQueue.js.
-- A job reads its message, waits for the embedding service, and then writes: the steps are apart,
-- so that requests come in between.
pub mod Fresh
pub mod Stale
mod Examples
use silent_whisper.Prelude.{
  ℕ, zero, suc, ◌+◌, Bool, true, false, not, ◌||◌, Option, none, some, is_some, List, [], ◌∷◌, leb,
  ◌==◌, if◌then◌else◌, update,
}
use silent_whisper.Text.{Text}
use silent_whisper.Messages.Jobs.{
  JobStatus, pending, processing, failed, is_pending, EmbeddingJob, has_embedding_job,
  enqueue_embedding_job,
}

-- The texts of the messages, the queue, and what is stored of a message: its row of
-- message_embeddings with that of message_sentiment_scores, which one transaction writes.
-- Then the jobs of the batch that wait for their turn, and the job whose text is at the service.
pub record Search {ℓ} (A : Type ℓ) : Type ℓ where
  pub contents : ℕ → Option Text
  pub jobs : List EmbeddingJob
  pub stored : ℕ → Option A
  pub batch : List EmbeddingJob
  pub in_hand : Option (EmbeddingJob × Text)

abbrev in_process : EmbeddingJob → EmbeddingJob
in_process j = record j { job_status = processing }

-- The first jobs that are pending become those in process: the claimed ones, and the table.
unfoldable pub claim_batch : ℕ → List EmbeddingJob → List EmbeddingJob × List EmbeddingJob
claim_batch zero jobs = ([], jobs)
claim_batch (suc n) [] = ([], [])
claim_batch (suc n) (j ∷ jobs) =
    let (claimed, rest) = claim_batch n jobs in
    let (later, others) = claim_batch (suc n) jobs in
    if is_pending j.job_status
    then (in_process j ∷ claimed, in_process j ∷ rest)
    else (later, j ∷ others)

-- .where({ message_id }).del()
abbrev pub delete_job : ℕ → List EmbeddingJob → List EmbeddingJob
delete_job i [] = []
delete_job i (j ∷ jobs) =
    let rest = delete_job i jobs in if j.message_id == i then rest else j ∷ rest

abbrev next_status : ℕ → ℕ → JobStatus
next_status max_attempts attempts = if leb max_attempts attempts then failed else pending

abbrev retried : ℕ → ℕ → EmbeddingJob → EmbeddingJob
retried max_attempts attempts j = record j {
  job_status = next_status max_attempts attempts;
  attempts = attempts;
}

-- .where({ message_id }).update({ status, attempts, … })
abbrev pub retry_job : ℕ → ℕ → ℕ → List EmbeddingJob → List EmbeddingJob
retry_job i max_attempts attempts [] = []
retry_job i max_attempts attempts (j ∷ jobs) =
    let rest = retry_job i max_attempts attempts jobs in
    if j.message_id == i then retried max_attempts attempts j ∷ rest else j ∷ rest

module _ {ℓ} {A : Type ℓ} where
  -- The table-wide insert of the messages that have neither a job nor an embedding.
  unfoldable pub enqueue_missing_embedding_jobs : List ℕ → Search A → List EmbeddingJob
  enqueue_missing_embedding_jobs [] s = s.jobs
  enqueue_missing_embedding_jobs (id ∷ ids) s =
      let rest = enqueue_missing_embedding_jobs ids s in
      if has_embedding_job id s.jobs || is_some (s.stored id)
      then rest
      else enqueue_embedding_job false id rest

  -- The tick's next claim, when the batch before is done.
  abbrev pub claim_if : ℕ → Option (EmbeddingJob × Text) → List EmbeddingJob → Search A → Search A
  claim_if n (some w) batch s = s
  claim_if n none (j ∷ js) s = s
  claim_if n none [] s = record s {
    jobs = (claim_batch n s.jobs).1;
    batch = (claim_batch n s.jobs).0;
  }

  unfoldable pub claim : ℕ → Search A → Search A
  claim n s = claim_if n s.in_hand s.batch s

  -- The first part of processJob, up to the call of the embedding service.
  abbrev pub read_for : EmbeddingJob → List EmbeddingJob → Option Text → Search A → Search A
  read_for j js none s = record s { jobs = delete_job j.message_id s.jobs; batch = js }
  read_for j js (some t) s = record s { batch = js; in_hand = some (j, t) }

  abbrev pub read_if : Option (EmbeddingJob × Text) → List EmbeddingJob → Search A → Search A
  read_if (some w) batch s = s
  read_if none [] s = s
  read_if none (j ∷ js) s = read_for j js (s.contents j.message_id) s

  unfoldable pub read_next : Search A → Search A
  read_next s = read_if s.in_hand s.batch s

  -- The second part, with what the service and the transaction gave, or an error.
  abbrev pub settle_job : ℕ → EmbeddingJob → Option A → Search A → Search A
  settle_job max_attempts j none s = record s {
    jobs = retry_job j.message_id max_attempts (j.attempts + 1) s.jobs;
    in_hand = none;
  }
  settle_job max_attempts j (some a) s = record s {
    jobs = delete_job j.message_id s.jobs;
    stored = update s.stored j.message_id (some a);
    in_hand = none;
  }

  abbrev pub settle_if : (Text → A) → ℕ → Bool → Option (EmbeddingJob × Text) → Search A → Search A
  settle_if analyse max_attempts succeeds none s = s
  settle_if analyse max_attempts succeeds (some (j, t)) s =
      settle_job max_attempts j (if succeeds then some (analyse t) else none) s

  -- Whether the service and the transaction succeed, and what the service makes of a text then.
  unfoldable pub settle : (Text → A) → ℕ → Bool → Search A → Search A
  settle analyse max_attempts succeeds s = settle_if analyse max_attempts succeeds s.in_hand s

  -- A message is sent, edited or ticked: its text, and `enqueueEmbeddingJob`.
  unfoldable pub write : ℕ → Text → Search A → Search A
  write id t s = record s {
    contents = update s.contents id (some t);
    jobs = enqueue_embedding_job false id s.jobs;
  }

pub data Event : Type 0 where
  writes : ℕ → Text → Event
  reconciles : List ℕ → Event
  claims : ℕ → Event
  reads : Event
  settles : Bool → Event

module _ {ℓ} {A : Type ℓ} (analyse : Text → A) (max_attempts : ℕ) where
  unfoldable pub step : Search A → Event → Search A
  step s (writes id t) = write id t s
  step s (reconciles ids) = record s { jobs = enqueue_missing_embedding_jobs ids s }
  step s (claims n) = claim n s
  step s reads = read_next s
  step s (settles succeeds) = settle analyse max_attempts succeeds s

  unfoldable pub run : Search A → List Event → Search A
  run s [] = s
  run s (e ∷ es) = run (step s e) es
