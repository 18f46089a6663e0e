-- ===== src/Messages/Jobs/Reconciled.antt =====
-- What the reconciliation of the side-effect jobs leaves.
use silent_whisper.Prelude.{
  ℕ, ◌≡◌, refl, Bool, true, not, ◌&&◌, ◌||◌, List, [], ◌∷◌, ◌++◌, arith, ==_refl, Bool-cases, inl,
  inr,
}
use silent_whisper.Messages.Jobs.{
  JobType, notification, entity_link, SideEffectJob, same_type, keyed, has_job, new_job, Sent,
  needs, fill_missing, enqueue_missing_message_side_effect_jobs,
}

-- Every message that needs a job of the type has one.
abbrev pub covered : JobType → Sent → List SideEffectJob → Bool
covered type [] js = true
covered type ((m, w) ∷ sent) js = (not (needs type w) || has_job m type js) && covered type sent js

same_type_refl : (t : JobType) → same_type t t ≡ true
same_type_refl notification = refl
same_type_refl entity_link = refl

has-append :
    (m : ℕ) (t : JobType) (js : List SideEffectJob) (j : SideEffectJob)
    → has_job m t (js ++ j ∷ []) ≡ (has_job m t js || keyed m t j)
has-append m t [] j = ground arith
has-append m t (k ∷ js) j = ground (arith, has-append m t js j)

-- The pass for one type takes no job away.
has-fill :
    (m : ℕ) (t type : JobType) (sent : Sent) (js : List SideEffectJob)
    → has_job m t js ≡ true
    → has_job m t (fill_missing type sent js) ≡ true
has-fill m t type [] js h = h
has-fill m t type ((i, w) ∷ sent) js h =
    elim (Bool-cases (needs type w && not (has_job i type js))) [
      | inl missing ↦
          rw missing
            (has-fill m t type sent _ (ground (arith, h, has-append m t js (new_job i type))))
      | inr there ↦ rw there (has-fill m t type sent js h)
    ]

covered-fill :
    (type : JobType) (sent : Sent) (js : List SideEffectJob)
    → covered type sent (fill_missing type sent js) ≡ true
covered-fill type [] js = refl
covered-fill type ((i, w) ∷ sent) js = elim (Bool-cases (needs type w && not (has_job i type js))) [
  | inl missing ↦
      let js' = js ++ new_job i type ∷ [] in
      let here : has_job i type js' ≡ true =
        ground (arith, has-append i type js (new_job i type), same_type_refl type, ==_refl i) in
      let kept = has-fill i type type sent js' here in
      rw missing (ground (arith, kept, covered-fill type sent js'))
  | inr there ↦
      let ih = covered-fill type sent js in
      elim (Bool-cases (has_job i type js)) [
        | inl has ↦ rw there (ground (arith, has-fill i type type sent js has, ih))
        | inr none_there ↦ rw there (ground (arith, none_there, ih))
      ]
]

-- The pass for another type leaves the coverage.
covered_stays :
    (type other : JobType) (sent all : Sent) (js : List SideEffectJob)
    → covered type sent js ≡ true
    → covered type sent (fill_missing other all js) ≡ true
covered_stays type other [] all js h = refl
covered_stays type other ((m, w) ∷ sent) all js h =
    let ih = covered_stays type other sent all js (ground (arith, h)) in
    elim (Bool-cases (has_job m type js)) [
      | inl has ↦ ground (arith, has-fill m type other all js has, ih)
      | inr none_there ↦ ground (arith, none_there, ih, h)
    ]

-- A pass over messages that all have their job changes nothing.
fill_nothing :
    (type : JobType) (sent : Sent) (js : List SideEffectJob)
    → covered type sent js ≡ true
    → fill_missing type sent js ≡ js
fill_nothing type [] js h = refl
fill_nothing type ((m, w) ∷ sent) js h = ground (arith, fill_nothing type sent js)

-- After the reconciliation every message has its notification job, every message of a workspace
-- has its job for entity links, and a second reconciliation changes nothing.
reconciliation_covers :
    (sent : Sent) (js : List SideEffectJob)
    → let after = enqueue_missing_message_side_effect_jobs sent js in
      (covered notification sent after ≡ true)
      × (covered entity_link sent after ≡ true)
      × (enqueue_missing_message_side_effect_jobs sent after ≡ after)
unfolding enqueue_missing_message_side_effect_jobs
reconciliation_covers sent js =
    let first = fill_missing notification sent js in
    let after = fill_missing entity_link sent first in
    let notified =
      covered_stays notification entity_link sent sent first (covered-fill notification sent js) in
    let linked = covered-fill entity_link sent first in
    (
      notified,
      linked,
      rw (fill_nothing notification sent after notified)
          (fill_nothing entity_link sent after linked),
    )
