-- ===== src/Llm/Gate/Examples.antt =====
-- Runs of the gate.
use mathlib.Core.List.{Sublistᴰ}
use silent_whisper.Prelude.{◌≡◌, ◌++◌, refl, arith, List, [], ◌∷◌, false}
use silent_whisper.Llm.Gate.{acquire_slot, on_abort, release}
use silent_whisper.Llm.Gate.World.{
  Event, arrive, finish, give_up, start, step, run, IsSound, run-IsSound,
}
use silent_whisper.Llm.Gate.Fifo.{run_fifo}

abbrev script : List Event
script = arrive false 1 ∷ arrive false 2 ∷ arrive false 3 ∷ give_up 2 ∷ finish ∷ []

script_serves : (run 1 2 start script).grants ≡ 1 ∷ 3 ∷ []
unfolding run step acquire_slot on_abort release
script_serves = refl

start-IsSound : IsSound 1 2 start
start-IsSound = record {
  counted = refl;
  capped = omega arith;
  bounded = omega arith;
  busy = λ h. absurd (omega arith);
}

run-IsSound_example : IsSound 1 2 (run 1 2 start script)
run-IsSound_example = run-IsSound 1 2 start script start-IsSound

run_fifo_example :
    Sublistᴰ
      ((run 1 2 start script).grants ++ (run 1 2 start script).queue)
      (run 1 2 start script).arrivals
run_fifo_example = run_fifo 1 2 script
