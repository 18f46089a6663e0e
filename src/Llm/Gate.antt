-- ===== src/Llm/Gate.antt =====
-- backend/src/llm/concurrencyGate.js: the cap on running AI calls and the queue behind it, and
-- backend/src/search/embeddingConcurrencyGate.js, the same cap with no queue.
pub mod World
pub mod Fifo
mod Examples
use silent_whisper.Prelude.{
  ℕ, ◌+◌, ◌-◌, Bool, true, false, Option, none, some, List, [], ◌∷◌, ◌++◌, length, delete, ltb, leb,
  if◌then◌else◌,
}

-- The module's two variables; an entry of the queue is the request that waits.
pub record Gate : Type 0 where
  pub in_flight : ℕ
  pub queue : List ℕ

-- How `acquireSlot` answers: the slot, a place in the queue, or one of its two rejections.
pub data Acquired : Type 0 where
  granted : Acquired
  queued : ℕ → Acquired
  aborted : Acquired
  full : Acquired

unfoldable pub acquire_slot :
    (max_concurrent queue_max_depth : ℕ) → Bool → ℕ → Gate → Gate × Acquired
acquire_slot max_concurrent queue_max_depth signal_aborted entry g =
    if signal_aborted
    then (g, aborted)
    else if ltb g.in_flight max_concurrent
    then (record g { in_flight = g.in_flight + 1 }, granted)
    else if leb queue_max_depth (length g.queue)
    then (g, full)
    else (record g { queue = g.queue ++ entry ∷ [] }, queued (length (g.queue ++ entry ∷ [])))

-- The listener of a queued entry's signal.
unfoldable pub on_abort : ℕ → Gate → Gate
on_abort entry g = record g { queue = delete g.queue entry }

-- The second part is the request that the freed slot goes to.
release_to : List ℕ → Gate → Gate × Option ℕ
release_to [] g = (record g { in_flight = g.in_flight - 1 }, none)
release_to (next ∷ rest) g = (record g { queue = rest }, some next)

unfoldable pub release : Gate → Gate × Option ℕ
unfolding release_to
release g = release_to g.queue g

abbrev pub closed_gate : Gate
closed_gate = record { in_flight = 0; queue = [] }

unfoldable pub try_acquire : ℕ → ℕ → ℕ × Bool
try_acquire max_concurrent in_flight =
    if leb max_concurrent in_flight then (in_flight, false) else (in_flight + 1, true)

unfoldable pub release_embedding : ℕ → ℕ
release_embedding in_flight = in_flight - 1
