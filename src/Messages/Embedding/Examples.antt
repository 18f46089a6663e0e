-- ===== src/Messages/Embedding/Examples.antt =====
-- An edit that comes while its message is at the embedding service.
use silent_whisper.Prelude.{ℕ, ◌≡◌, refl, false, none, some, true, List, [], ◌∷◌, update, length}
use silent_whisper.Text.{Text, codes}
use silent_whisper.Messages.Jobs.{
  processing, EmbeddingJob, has_embedding_job, enqueue_embedding_job,
}
use silent_whisper.Messages.Embedding.{
  Event, Search, claim_batch, claim, read_next, settle, write, writes, reconciles, claims, reads,
  settles, step, run,
}
use silent_whisper.Messages.Embedding.Stale.{written_meanwhile_is_lost}

-- An embedding is here the length of the text.
abbrev analyse : Text → ℕ
analyse t = length t

abbrev start : Search ℕ
start = record { contents = λ _. none; jobs = []; stored = λ _. none; batch = []; in_hand = none }

one_after_the_other :
    (run analyse 5 start (
        writes 4 (codes "hi")
        ∷ claims 10
        ∷ reads
        ∷ settles true
        ∷ writes 4 (codes "hello")
        ∷ [])).stored
      4
    ≡ some 2
unfolding run step write claim claim_batch read_next settle enqueue_embedding_job
one_after_the_other = refl

-- The first call fails, the second succeeds.
abbrev day : List Event
day =
    writes 4 (codes "hi")
    ∷ claims 10
    ∷ reads
    ∷ settles false
    ∷ claims 10
    ∷ reads
    ∷ settles true
    ∷ []

tried_again : (run analyse 5 start day).stored 4 ≡ some 2
unfolding run step write claim claim_batch read_next settle enqueue_embedding_job
tried_again = refl

abbrev job : EmbeddingJob
job = record { message_id = 4; job_status = processing; attempts = 0 }

abbrev at_service : Search ℕ
at_service = record {
  contents = update (λ _. none) 4 (some (codes "hi"));
  jobs = job ∷ [];
  stored = λ _. none;
  batch = [];
  in_hand = some (job, codes "hi");
}

abbrev later_on : List Event
later_on = reconciles (4 ∷ []) ∷ writes 5 (codes "yes") ∷ claims 10 ∷ reads ∷ settles true ∷ []

written_meanwhile_is_lost_example :
    let after = run analyse 5 at_service (writes 4 (codes "hello") ∷ settles true ∷ later_on) in
    (after.contents 4 ≡ some (codes "hello"))
    × (after.stored 4 ≡ some 2)
    × (has_embedding_job 4 after.jobs ≡ false)
written_meanwhile_is_lost_example =
    written_meanwhile_is_lost analyse 5 at_service job (codes "hi") (codes "hello") later_on refl
      refl refl
