-- ===== src/Llm/Gate/Fifo.antt =====
-- The order in which waiting requests get their slots.
use mathlib.Core.List.{Sublistᴰ, append_assoc, append-nil}
use mathlib.Core.List.Sublistᴰ as Sub
use silent_whisper.Prelude.{
  ℕ, ◌≡◌, refl, ◌⊎◌, Bool, true, false, inl, inr, List, [], ◌∷◌, ◌++◌, arith, length, delete, ltb,
  ◌==◌, if◌then◌else◌, Bool-cases,
}
use silent_whisper.Llm.Gate.{acquire_slot, on_abort, release}
use silent_whisper.Llm.Gate.World.{
  World, Event, arrive, finish, give_up, start, step, run, IsSound, step-IsSound,
}

-- Who has got or awaits a slot, in the order of the slots.
abbrev pub served : World → List ℕ
served w = w.grants ++ w.queue

delete-sublist : (xs : List ℕ) (a : ℕ) → Sublistᴰ (delete xs a) xs
delete-sublist [] a = Sublistᴰ.slnil
delete-sublist (x ∷ xs) a =
    elim (x == a) as (λ b. Sublistᴰ (if b then delete xs a else x ∷ delete xs a) (x ∷ xs)) [
      | true ↦ Sublistᴰ.cons (delete-sublist xs a)
      | false ↦ Sublistᴰ.cons-cons refl (delete-sublist xs a)
    ]

empty_of_length : (xs : List ℕ) → length xs ≡ 0 → xs ≡ []
empty_of_length [] h = refl
empty_of_length (x ∷ xs) h = absurd (omega arith)

abbrev Extends : World → ℕ → World → Type 0
Extends w r w' =
    ((served w' ≡ served w ++ r ∷ []) × (w'.arrivals ≡ w.arrivals ++ r ∷ []))
    ⊎ ((served w' ≡ served w) × (w'.arrivals ≡ w.arrivals))

arrive_served :
    (m d : ℕ) (w : World) (b : Bool) (r : ℕ) → IsSound m d w → Extends w r (step m d w (arrive b r))
unfolding step acquire_slot
arrive_served m d w b r h = elim (Bool-cases (ltb 0 (length w.queue))) [
  | inl some_wait ↦ ground (arith, append_assoc w.grants w.queue (r ∷ []))
  | inr idle ↦
      let e : w.queue ≡ [] = empty_of_length w.queue (ground arith) in
      ground (
        arith,
        e,
        append-nil w.grants,
        append-nil (w.grants ++ r ∷ []),
        append_assoc w.grants [] (r ∷ []),
      )
]

finish_served :
    (m d : ℕ) (w : World)
    → (served (step m d w finish) ≡ served w) × ((step m d w finish).arrivals ≡ w.arrivals)
unfolding step release
finish_served m d w = go w.queue refl
  where
    go :
        (q : List ℕ)
        → w.queue ≡ q
        → (served (step m d w finish) ≡ served w) × ((step m d w finish).arrivals ≡ w.arrivals)
    go [] e = (ground (arith, e), ground (arith, e))
    go (n ∷ q) e = (ground (arith, e, append_assoc w.grants (n ∷ []) q), ground (arith, e))

-- An event extends the arrivals and what is served by the same requests, or drops a waiting one.
step-served :
    (m d : ℕ) (w : World) (e : Event)
    → IsSound m d w
    → Sublistᴰ (served w) w.arrivals
    → Sublistᴰ (served (step m d w e)) (step m d w e).arrivals
unfolding step on_abort
step-served m d w (give_up r) h s =
    Sub.trans (Sub.append (Sub.refl w.grants) (delete-sublist w.queue r)) s
step-served m d w finish h s = let (p, q) = finish_served m d w in rw (p, q) s
step-served m d w (arrive b r) h s = elim (arrive_served m d w b r h) [
  | inl (p, q) ↦ rw (p, q) (Sub.append s (Sub.refl (r ∷ [])))
  | inr (p, q) ↦ rw (p, q) s
]

run-served :
    (m d : ℕ) (w : World) (es : List Event)
    → IsSound m d w
    → Sublistᴰ (served w) w.arrivals
    → Sublistᴰ (served (run m d w es)) (run m d w es).arrivals
unfolding run
run-served m d w [] h s = s
run-served m d w (e ∷ es) h s =
    run-served m d (step m d w e) es (step-IsSound m d w e h) (step-served m d w e h s)

-- With a fixed cap nobody overtakes: the requests that got a slot, in the order of their slots,
-- followed by those that wait, in the order of the queue, are a sublist of the arrivals in their
-- order, whatever arrived, ended or gave up since the gate was idle.
pub run_fifo :
    (m d : ℕ) (es : List Event)
    → Sublistᴰ ((run m d start es).grants ++ (run m d start es).queue) (run m d start es).arrivals
run_fifo m d es =
    run-served m d start es
      (record {
        counted = refl;
        capped = omega arith;
        bounded = omega arith;
        busy = λ h. absurd (omega arith);
      })
      Sublistᴰ.slnil
