-- ===== src/Messages/Embedding/Stale.antt =====
-- What becomes of a text that is written while an earlier one is at the embedding service.
use silent_whisper.Prelude.{
  ℕ, zero, suc, ◌≡◌, refl, sym, subst, ◌∙◌, Bool, true, false, not, ◌&&◌, inl, inr, Option, none,
  some, is_some, List, [], ◌∷◌, arith, ◌==◌, ==_iff, Bool-cases,
}
use silent_whisper.Text.{Text}
use silent_whisper.Messages.Jobs.{EmbeddingJob, has_embedding_job}
use silent_whisper.Messages.Embedding.Fresh.{
  has-enqueue, has-delete_job, has-retry_job, has-claim_batch,
}
use silent_whisper.Messages.Embedding.{
  Search, claim_batch, enqueue_missing_embedding_jobs, claim_if, claim, read_for, read_if,
  read_next, settle_job, settle_if, settle, write, Event, writes, reconciles, claims, reads,
  settles, step, run,
}

has-claimed :
    (id n : ℕ) (js : List EmbeddingJob)
    → has_embedding_job id js ≡ false
    → has_embedding_job id (claim_batch n js).0 ≡ false
unfolding claim_batch
has-claimed id zero js h = refl
has-claimed id (suc n) [] h = refl
has-claimed id (suc n) (j ∷ js) h =
    let one = has-claimed id n js (ground (arith, h)) in
    let all = has-claimed id (suc n) js (ground (arith, h)) in ground (arith, h, one, all)

-- The job at the service is not of this message.
abbrev pub elsewhere : ℕ → Option (EmbeddingJob × Text) → Bool
elsewhere id none = true
elsewhere id (some (j, t)) = not (j.message_id == id)

-- Nobody writes this message.
abbrev pub leaves : ℕ → List Event → Bool
leaves id [] = true
leaves id (writes i t ∷ es) = not (i == id) && leaves id es
leaves id (e ∷ es) = leaves id es

module _ {ℓ} {A : Type ℓ} (analyse : Text → A) (max_attempts : ℕ) where
  -- The text of the message is u, the stored embedding is a, and no job is on its way.
  pub record Stale (id : ℕ) (u : Text) (a : A) (s : Search A) : Type ℓ where
    pub present : s.contents id ≡ some u
    pub stored : s.stored id ≡ some a
    pub no_job : has_embedding_job id s.jobs ≡ false
    pub no_claim : has_embedding_job id s.batch ≡ false
    pub no_call : elsewhere id s.in_hand ≡ true

  reconcile-skips :
      (id : ℕ) (ids : List ℕ) (s : Search A)
      → is_some (s.stored id) ≡ true
      → has_embedding_job id s.jobs ≡ false
      → has_embedding_job id (enqueue_missing_embedding_jobs ids s) ≡ false
  unfolding enqueue_missing_embedding_jobs
  reconcile-skips id [] s done none_left = none_left
  reconcile-skips id (i ∷ ids) s done none_left = elim (Bool-cases (i == id)) [
    | inl this ↦
        let here : is_some (s.stored i) ≡ true = rw ((==_iff i id).0 this) done in
        ground (arith, here, reconcile-skips id ids s done none_left)
    | inr other ↦ ground (
      arith,
      other,
      has-enqueue id i (enqueue_missing_embedding_jobs ids s),
      reconcile-skips id ids s done none_left,
    )
  ]

  after-write :
      (i : ℕ) (u : Text) (s : Search A)
      → ((write i u s).contents i ≡ some u) × ((write i u s).in_hand ≡ s.in_hand)
  unfolding write
  after-write i u s = (ground arith, refl)

  write-Stale :
      (id i : ℕ) (u t : Text) (a : A) (s : Search A)
      → (i == id) ≡ false
      → Stale id u a s
      → Stale id u a (write i t s)
  unfolding write
  write-Stale id i u t a s other h = record {
    present = (let p = h.present in ground (arith, other, p));
    stored = h.stored;
    no_job = (let n = h.no_job in ground (arith, other, n, has-enqueue id i s.jobs));
    no_claim = h.no_claim;
    no_call = h.no_call;
  }

  claim_if-Stale :
      (id n : ℕ) (u : Text) (a : A) (w : Option (EmbeddingJob × Text)) (b : List EmbeddingJob)
      (s : Search A)
      → Stale id u a s
      → Stale id u a (claim_if n w b s)
  claim_if-Stale id n u a (some w) b s h = h
  claim_if-Stale id n u a none (j ∷ js) s h = h
  claim_if-Stale id n u a none [] s h = record {
    present = h.present;
    stored = h.stored;
    no_job = has-claim_batch id n s.jobs ∙ h.no_job;
    no_claim = has-claimed id n s.jobs h.no_job;
    no_call = h.no_call;
  }

  read_for-Stale :
      (id : ℕ) (u : Text) (a : A) (j : EmbeddingJob) (js : List EmbeddingJob) (o : Option Text)
      (s : Search A)
      → has_embedding_job id (j ∷ js) ≡ false
      → Stale id u a s
      → Stale id u a (read_for j js o s)
  read_for-Stale id u a j js none s rest h = record {
    present = h.present;
    stored = h.stored;
    no_job = (let n = h.no_job in ground (arith, n, has-delete_job id j.message_id s.jobs));
    no_claim = ground (arith, rest);
    no_call = h.no_call;
  }
  read_for-Stale id u a j js (some t) s rest h = record {
    present = h.present;
    stored = h.stored;
    no_job = h.no_job;
    no_claim = ground (arith, rest);
    no_call = ground (arith, rest);
  }

  read_if-Stale :
      (id : ℕ) (u : Text) (a : A) (w : Option (EmbeddingJob × Text)) (b : List EmbeddingJob)
      (s : Search A)
      → has_embedding_job id b ≡ false
      → Stale id u a s
      → Stale id u a (read_if w b s)
  read_if-Stale id u a (some w) b s rest h = h
  read_if-Stale id u a none [] s rest h = h
  read_if-Stale id u a none (j ∷ js) s rest h =
      read_for-Stale id u a j js (s.contents j.message_id) s rest h

  settle_job-Stale :
      (id : ℕ) (u : Text) (a : A) (j : EmbeddingJob) (o : Option A) (s : Search A)
      → (j.message_id == id) ≡ false
      → Stale id u a s
      → Stale id u a (settle_job max_attempts j o s)
  settle_job-Stale id u a j none s other h = record {
    present = h.present;
    stored = h.stored;
    no_job = has-retry_job id j.message_id _ _ s.jobs ∙ h.no_job;
    no_claim = h.no_claim;
    no_call = refl;
  }
  settle_job-Stale id u a j (some x) s other h = record {
    present = h.present;
    stored = (let p = h.stored in ground (arith, other, p));
    no_job = (let n = h.no_job in ground (arith, n, has-delete_job id j.message_id s.jobs));
    no_claim = h.no_claim;
    no_call = refl;
  }

  settle_if-Stale :
      (id : ℕ) (u : Text) (a : A) (b : Bool) (w : Option (EmbeddingJob × Text)) (s : Search A)
      → elsewhere id w ≡ true
      → Stale id u a s
      → Stale id u a (settle_if analyse max_attempts b w s)
  settle_if-Stale id u a b none s away h = h
  settle_if-Stale id u a b (some (j, t)) s away h =
      settle_job-Stale id u a j _ s (ground (arith, away)) h

  run-Stale :
      (id : ℕ) (u : Text) (a : A) (s : Search A) (es : List Event)
      → leaves id es ≡ true
      → Stale id u a s
      → Stale id u a (run analyse max_attempts s es)
  unfolding run step claim read_next settle
  run-Stale id u a s [] free h = h
  run-Stale id u a s (writes i t ∷ es) free h =
      run-Stale id u a (write i t s) es (ground (arith, free))
        (write-Stale id i u t a s (ground (arith, free)) h)
  run-Stale id u a s (reconciles ids ∷ es) free h =
      run-Stale id u a (record s { jobs = enqueue_missing_embedding_jobs ids s }) es free
        (record {
          present = h.present;
          stored = h.stored;
          no_job = reconcile-skips id ids s (rw h.stored refl) h.no_job;
          no_claim = h.no_claim;
          no_call = h.no_call;
        })
  run-Stale id u a s (claims n ∷ es) free h =
      run-Stale id u a (claim n s) es free (claim_if-Stale id n u a s.in_hand s.batch s h)
  run-Stale id u a s (reads ∷ es) free h =
      run-Stale id u a (read_next s) es free (read_if-Stale id u a s.in_hand s.batch s h.no_claim h)
  run-Stale id u a s (settles b ∷ es) free h =
      run-Stale id u a (settle analyse max_attempts b s) es free
        (settle_if-Stale id u a b s.in_hand s h.no_call h)

  settle-success :
      (s : Search A) (j : EmbeddingJob) (t : Text)
      → s.in_hand ≡ some (j, t)
      → settle analyse max_attempts true s ≡ settle_job max_attempts j (some (analyse t)) s
  unfolding settle
  settle-success s j t hand = rw hand refl

  -- When a message is written while its earlier text is at the service, and that call succeeds,
  -- then, until the message is written again, and whatever else is written, reconciled, claimed,
  -- read and settled, it has its new text, the stored embedding is of the earlier one, and there is
  -- no job for it; the job at the service was the only one of the message in its batch.
  pub written_meanwhile_is_lost :
      (s : Search A) (j : EmbeddingJob) (t u : Text) (es : List Event)
      → s.in_hand ≡ some (j, t)
      → has_embedding_job j.message_id s.batch ≡ false
      → leaves j.message_id es ≡ true
      → let after = run analyse max_attempts s (writes j.message_id u ∷ settles true ∷ es) in
        (after.contents j.message_id ≡ some u)
        × (after.stored j.message_id ≡ some (analyse t))
        × (has_embedding_job j.message_id after.jobs ≡ false)
  unfolding run step
  written_meanwhile_is_lost s j t u es hand alone free =
      let i = j.message_id in
      let done = settle_job max_attempts j (some (analyse t)) (write i u s) in
      let (text, same) = after-write i u s in
      let left = has-delete_job i i (write i u s).jobs in
      let h = run-Stale i u (analyse t) done es free (record {
        present = text;
        stored = ground arith;
        no_job = ground (arith, left);
        no_claim = unfold write in alone;
        no_call = refl;
      }) in
      let end =
        subst (λ x. Stale i u (analyse t) (run analyse max_attempts x es))
          (sym (settle-success (write i u s) j t (same ∙ hand))) h in
      (end.present, end.stored, end.no_job)
