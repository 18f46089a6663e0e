-- ===== src/Audit/Retry/Examples.antt =====
-- Two events in the outbox, and a worker that ends between them.
use silent_whisper.Prelude.{◌≡◌, refl, true, false, none, [], ◌∷◌}
use silent_whisper.Text.{codes}
use silent_whisper.Audit.Chain.{Platform, Event, append_audit_event, empty_log}
use silent_whisper.Audit.Retry.{
  Outbox, pending, claim_batch, process_job, process_jobs, interrupted_tick,
}
use silent_whisper.Audit.Retry.Stuck.{jobs_with, none_pending, run_ticks, claimed_is_stuck}

abbrev platform : Platform
platform = record { sha256 = λ t. t; stringify = λ v. codes "x"; jsonb = λ v. v }

abbrev asked : Event
asked = record {
  actor_id = codes "u1";
  actor_ip = codes "::1";
  action_type = codes "AI_QUERY";
  target_resource = none;
  payload = none;
}

abbrev outbox : Outbox
outbox = record {
  jobs =
      record { id = 1; event = asked; job_status = pending; attempts = 0 }
      ∷ record { id = 2; event = asked; job_status = pending; attempts = 0 }
      ∷ [];
  log = empty_log;
}

-- The worker claimed both rows and ended after the first.
abbrev half_done : Outbox
half_done = interrupted_tick platform 10 3 (λ j. false) 1 outbox

second_is_claimed : none_pending (jobs_with 2 half_done.jobs) ≡ true
unfolding interrupted_tick claim_batch process_jobs process_job append_audit_event
second_is_claimed = refl

claimed_is_stuck_example :
    jobs_with 2 (run_ticks platform 3 ((10, λ j. false) ∷ (10, λ j. false) ∷ []) half_done).jobs
    ≡ jobs_with 2 half_done.jobs
claimed_is_stuck_example =
    claimed_is_stuck platform 3 2 ((10, λ j. false) ∷ (10, λ j. false) ∷ []) half_done
      second_is_claimed
