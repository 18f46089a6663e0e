-- ===== src/Messages/Embedding/Fresh.antt =====
-- Which text the stored embeddings are of.
use silent_whisper.Prelude.{
  ℕ, zero, suc, ◌≡◌, refl, sym, Bool, true, false, not, ◌&&◌, ◌||◌, ◌⊎◌, inl, inr, Option, none,
  some, List, [], ◌∷◌, ◌++◌, arith, ◌==◌, ==_iff, Bool-cases,
}
use silent_whisper.Text.{Text}
use silent_whisper.Messages.Jobs.{pending, EmbeddingJob, has_embedding_job, enqueue_embedding_job}
use silent_whisper.Messages.Embedding.{
  Search, claim_batch, delete_job, retry_job, Event, writes, step,
}

has-append :
    (id : ℕ) (js : List EmbeddingJob) (j : EmbeddingJob)
    → has_embedding_job id (js ++ j ∷ []) ≡ (has_embedding_job id js || j.message_id == id)
has-append id [] j = ground arith
has-append id (k ∷ js) j = ground (arith, has-append id js j)

-- After an insert there is a job of the message, and the jobs of the others are those before.
pub has-enqueue :
    (id i : ℕ) (js : List EmbeddingJob)
    → has_embedding_job id (enqueue_embedding_job false i js) ≡ (i == id || has_embedding_job id js)
unfolding enqueue_embedding_job
has-enqueue id i js = elim (Bool-cases (has_embedding_job i js)) [
  | inr new ↦
      ground (
        arith,
        has-append id js (record { message_id = i; job_status = pending; attempts = 0 }),
        new,
      )
  | inl there ↦ elim (Bool-cases (i == id)) [
    | inr other ↦ ground (arith, there)
    | inl this ↦
        let here : has_embedding_job id js ≡ true = rw (sym ((==_iff i id).0 this)) there in
        ground (arith, there, here)
  ]
]

pub has-delete_job :
    (id i : ℕ) (js : List EmbeddingJob)
    → has_embedding_job id (delete_job i js) ≡ (not (i == id) && has_embedding_job id js)
has-delete_job id i [] = ground arith
has-delete_job id i (j ∷ js) = ground (arith, has-delete_job id i js)

pub has-retry_job :
    (id i m n : ℕ) (js : List EmbeddingJob)
    → has_embedding_job id (retry_job i m n js) ≡ has_embedding_job id js
has-retry_job id i m n [] = refl
has-retry_job id i m n (j ∷ js) = ground (arith, has-retry_job id i m n js)

pub has-claim_batch :
    (id n : ℕ) (js : List EmbeddingJob)
    → has_embedding_job id (claim_batch n js).1 ≡ has_embedding_job id js
unfolding claim_batch
has-claim_batch id zero js = refl
has-claim_batch id (suc n) [] = refl
has-claim_batch id (suc n) (j ∷ js) =
    ground (arith, has-claim_batch id n js, has-claim_batch id (suc n) js)

module _ {ℓ} {A : Type ℓ} (analyse : Text → A) (max_attempts : ℕ) where
  -- A text has a job in the table, or there is an embedding, and it is of that text.
  abbrev pub Fresh : Search A → ℕ → Text → Type ℓ
  Fresh s id t = (has_embedding_job id s.jobs ≡ true) ⊎ (s.stored id ≡ some (analyse t))

  -- The text at the service is still the text of its message.
  abbrev pub AtService : Search A → Option (EmbeddingJob × Text) → Type 0
  AtService s none = Unit
  AtService s (some (j, t)) = s.contents j.message_id ≡ some t

  pub record AllFresh (s : Search A) : Type ℓ where
    pub texts : (id : ℕ) (t : Text) → s.contents id ≡ some t → Fresh s id t
    pub service : AtService s s.in_hand

  -- No message is written while its own text is at the service.
  abbrev pub spares : Option (EmbeddingJob × Text) → ℕ → Bool
  spares none id = true
  spares (some (j, t)) id = not (j.message_id == id)

  abbrev pub spared : Search A → Event → Bool
  spared s (writes id t) = spares s.in_hand id
  spared s _ = true

  abbrev pub all_spared : Search A → List Event → Bool
  all_spared s [] = true
  all_spared s (e ∷ es) = spared s e && all_spared (step analyse max_attempts s e) es
