-- ===== src/Llm/Gate/World.antt =====
-- The gate among its clients (backend/src/llm/aiService.js): a request that got a slot releases
-- it once, in the `finally` of its call, and one that waits may be aborted.
use silent_whisper.Prelude.{
  ℕ, ◌+◌, ◌-◌, ◌≤◌, ◌<◌, ◌≡◌, Bool, Option, none, some, List, [], ◌∷◌, ◌++◌, arith, length, ltb,
  if◌then◌else◌, length-append, length-delete,
}
use silent_whisper.Llm.Gate.{
  Gate, Acquired, granted, queued, aborted, full, acquire_slot, on_abort, release, closed_gate,
}

-- The gate, how many requests run, who was let in, and who got a slot, each in order of time.
pub record World : Type 0 where
  pub gate : Gate
  pub open gate use *
  pub running : ℕ
  pub arrivals : List ℕ
  pub grants : List ℕ

pub data Event : Type 0 where
  arrive : Bool → ℕ → Event
  finish : Event
  give_up : ℕ → Event

abbrev pub start : World
start = record { gate = closed_gate; running = 0; arrivals = []; grants = [] }

-- What a request makes of the answer to its call.
abbrev pub admit : World → ℕ → Gate × Acquired → World
admit w r (g, granted) = record {
  gate = g;
  running = w.running + 1;
  arrivals = w.arrivals ++ r ∷ [];
  grants = w.grants ++ r ∷ [];
}
admit w r (g, queued p) = record w { gate = g; arrivals = w.arrivals ++ r ∷ [] }
admit w r (g, aborted) = record w { gate = g }
admit w r (g, full) = record w { gate = g }

-- A request ends, and the freed slot may start the next one.
abbrev pub pass_on : World → Gate × Option ℕ → World
pass_on w (g, none) = record w { gate = g; running = w.running - 1 }
pass_on w (g, some n) = record w { gate = g; grants = w.grants ++ n ∷ [] }

-- `release` is called by a running request only.
unfoldable pub step : (max_concurrent queue_max_depth : ℕ) → World → Event → World
step m d w (arrive signal_aborted r) = admit w r (acquire_slot m d signal_aborted r w.gate)
step m d w finish = if ltb 0 w.running then pass_on w (release w.gate) else w
step m d w (give_up r) = record w { gate = on_abort r w.gate }

unfoldable pub run : (max_concurrent queue_max_depth : ℕ) → World → List Event → World
run m d w [] = w
run m d w (e ∷ es) = run m d (step m d w e) es

pub record IsSound (m d : ℕ) (w : World) : Type 0 where
  pub counted : w.in_flight ≡ w.running
  pub capped : w.in_flight ≤ m
  pub bounded : length w.queue ≤ d
  pub busy : 0 < length w.queue → m ≤ w.in_flight

pub step-IsSound : (m d : ℕ) (w : World) (e : Event) → IsSound m d w → IsSound m d (step m d w e)
unfolding step acquire_slot release on_abort
step-IsSound m d w (arrive b r) h = ground (arith, length-append w.queue (r ∷ []))
step-IsSound m d w finish h = ground arith
step-IsSound m d w (give_up r) h = ground (arith, length-delete w.queue r)

-- Arrivals, ends and aborts in whatever order lead from a sound state to a sound state: the counter
-- is the number of running requests, at most the cap; the queue is at most its depth; and a request
-- waits only while the cap is reached.
pub run-IsSound :
    (m d : ℕ) (w : World) (es : List Event) → IsSound m d w → IsSound m d (run m d w es)
unfolding run
run-IsSound m d w [] h = h
run-IsSound m d w (e ∷ es) h = run-IsSound m d (step m d w e) es (step-IsSound m d w e h)
