-- ===== src/Messages/Jobs.antt =====
-- backend/src/services/messageSideEffectsQueue.js and backend/src/search/embeddingQueue.js: the
-- tables of jobs that follow a message.
pub mod Reconciled
use silent_whisper.Prelude.{
  ℕ, Bool, true, false, not, ◌&&◌, ◌||◌, Option, none, some, List, [], ◌∷◌, ◌++◌, ◌==◌,
  if◌then◌else◌,
}

pub data JobType : Type 0 where
  notification entity_link : JobType

pub data JobStatus : Type 0 where
  pending processing completed failed : JobStatus

-- A row of message_side_effect_jobs, with the key (message_id, job_type).
pub record SideEffectJob : Type 0 where
  pub message_id : ℕ
  pub job_type : JobType
  pub job_status : JobStatus
  pub attempts : ℕ

-- A row of embedding_jobs, with the key message_id.
pub record EmbeddingJob : Type 0 where
  pub message_id : ℕ
  pub job_status : JobStatus
  pub attempts : ℕ

abbrev pub same_type : JobType → JobType → Bool
same_type notification notification = true
same_type entity_link entity_link = true
same_type _ _ = false

-- status IN ('completed', 'failed')
abbrev pub is_over : JobStatus → Bool
is_over completed = true
is_over failed = true
is_over _ = false

abbrev pub is_pending : JobStatus → Bool
is_pending pending = true
is_pending _ = false

abbrev pub keyed : ℕ → JobType → SideEffectJob → Bool
keyed message_id type j = j.message_id == message_id && same_type j.job_type type

abbrev pub has_job : ℕ → JobType → List SideEffectJob → Bool
has_job message_id type [] = false
has_job message_id type (j ∷ js) = keyed message_id type j || has_job message_id type js

abbrev new_job : ℕ → JobType → SideEffectJob
new_job message_id type = record {
  message_id = message_id;
  job_type = type;
  job_status = pending;
  attempts = 0;
}

-- INSERT … ON CONFLICT (message_id, job_type) DO UPDATE … WHERE status IN (…)
unfoldable pub upsert_job : ℕ → JobType → List SideEffectJob → List SideEffectJob
upsert_job message_id type [] = new_job message_id type ∷ []
upsert_job message_id type (j ∷ js) =
    let rest = upsert_job message_id type js in
    if keyed message_id type j
    then (if is_over j.job_status then record j { job_status = pending; attempts = 0 } else j) ∷ js
    else j ∷ rest

-- The types of the jobs of a message in a channel with or without a workspace.
abbrev pub job_types : Option ℕ → List JobType
job_types none = notification ∷ []
job_types (some w) = notification ∷ entity_link ∷ []

-- The loop ends at the first insert that the database refuses.
abbrev pub upsert_all :
    (JobType → Bool) → ℕ → List JobType → List SideEffectJob → List SideEffectJob
upsert_all refuses message_id [] js = js
upsert_all refuses message_id (t ∷ types) js =
    if refuses t then js else upsert_all refuses message_id types (upsert_job message_id t js)

unfoldable pub enqueue_message_side_effect_jobs :
    (JobType → Bool) → ℕ → Option ℕ → List SideEffectJob → List SideEffectJob
enqueue_message_side_effect_jobs refuses message_id workspace_id js =
    upsert_all refuses message_id (job_types workspace_id) js

abbrev pub has_embedding_job : ℕ → List EmbeddingJob → Bool
has_embedding_job message_id [] = false
has_embedding_job message_id (j ∷ js) =
    j.message_id == message_id || has_embedding_job message_id js

-- insert(…).onConflict('message_id').ignore(), and a refused insert leaves the table too
unfoldable pub enqueue_embedding_job : Bool → ℕ → List EmbeddingJob → List EmbeddingJob
enqueue_embedding_job refused message_id js =
    if refused || has_embedding_job message_id js
    then js
    else (js ++ record { message_id = message_id; job_status = pending; attempts = 0 } ∷ [])

-- The messages with their channels' workspaces, for the two passes of the reconciliation.
abbrev pub Sent : Type 0
Sent = List (ℕ × Option ℕ)

abbrev pub needs : JobType → Option ℕ → Bool
needs notification w = true
needs entity_link none = false
needs entity_link (some w) = true

abbrev pub fill_missing : JobType → Sent → List SideEffectJob → List SideEffectJob
fill_missing type [] js = js
fill_missing type ((m, w) ∷ sent) js =
    if needs type w && not (has_job m type js)
    then fill_missing type sent (js ++ new_job m type ∷ [])
    else fill_missing type sent js

unfoldable pub enqueue_missing_message_side_effect_jobs :
    Sent → List SideEffectJob → List SideEffectJob
enqueue_missing_message_side_effect_jobs sent js =
    fill_missing entity_link sent (fill_missing notification sent js)
