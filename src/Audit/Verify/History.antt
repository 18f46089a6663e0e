-- ===== src/Audit/Verify/History.antt =====
-- Append and check together.
use silent_whisper.Prelude.{
  ℕ, suc, ◌+◌, ◌<◌, ◌≡◌, refl, ap, ◌∙◌, List, [], ◌∷◌, ◌++◌, Bool-cases, inl, inr, arith, length,
  ◌||◌,
}
use silent_whisper.Text.{Text}
use silent_whisper.Audit.Json.{Json, Reordered}
use silent_whisper.Audit.Chain.{
  Platform, Event, Row, Log, genesis_hash, last_hash, next_row, append_audit_event, after,
  append_all, empty_log, is_empty,
}
use silent_whisper.Audit.Verify.{
  passed, Verdict, verified, broken, out_of_fuel, verify_audit_chain, last_id_of,
}
use silent_whisper.Audit.Verify.Append.{history_verifies}
use silent_whisper.Audit.Verify.Pages.{Ascending, Agrees, verify_audit_chain-Agrees}

last_id_of-snoc : (lo : ℕ) (rs : List Row) (r : Row) → last_id_of lo (rs ++ r ∷ []) ≡ r.id
unfolding last_id_of
last_id_of-snoc lo [] r = refl
last_id_of-snoc lo (x ∷ xs) r = last_id_of-snoc x.id xs r

Ascending-snoc :
    (lo : ℕ) (rs : List Row) (r : Row)
    → Ascending lo rs
    → last_id_of lo rs < r.id
    → Ascending lo (rs ++ r ∷ [])
unfolding last_id_of
Ascending-snoc lo [] r a h = (h, tt)
Ascending-snoc lo (x ∷ xs) r a h = (a.0, Ascending-snoc x.id xs r a.1 h)

-- The sequence is past every id that was given.
abbrev Numbered : Log → Type 0
Numbered log = Ascending 0 log.rows × (last_id_of 0 log.rows < log.next_id)

after-Numbered : (p : Platform) (log : Log) (e : Event) → Numbered log → Numbered (after p log e)
unfolding append_audit_event next_row
after-Numbered p log e h =
    elim (Bool-cases (is_empty e.actor_id || is_empty e.actor_ip || is_empty e.action_type)) [
      | inl bad ↦ rw (bad, after) h
      | inr good ↦
          rw (good, after)
            (Ascending-snoc 0 log.rows (next_row p log e) h.0 h.1, rw last_id_of-snoc (omega arith))
    ]

append_all-Numbered :
    (p : Platform) (log : Log) (es : List Event) → Numbered log → Numbered (append_all p log es)
unfolding append_all
append_all-Numbered p log [] h = h
append_all-Numbered p log (e ∷ es) h =
    append_all-Numbered p (after p log e) es (after-Numbered p log e h)

is_verified :
    (n : ℕ) (rs : List Row) (v : Verdict) (t : Text)
    → Agrees n rs v (passed t)
    → v ≡ verified (n + length rs)
is_verified n rs (verified m) t a = ap verified a
is_verified n rs (broken m i q) t a = absurd a
is_verified n rs out_of_fuel t a = absurd a

-- Where JSONB gives payloads back with their keys in any order: after any history of calls on an
-- empty table, those that raise included, the check in pages of any size but 0 ends and reports
-- the log verified, with the number of its rows.
pub history_verifies_in_pages :
    (p : Platform) (jsonb_reorders : (v : Json) → Reordered v (p.jsonb v)) (b : ℕ) (es : List Event)
    → verify_audit_chain p (suc b) (append_all p empty_log es)
      ≡ verified (length (append_all p empty_log es).rows)
history_verifies_in_pages p jsonb_reorders b es =
    let log = append_all p empty_log es in
    let n = append_all-Numbered p empty_log es (tt, unfold last_id_of in omega arith) in
    is_verified 0 log.rows (verify_audit_chain p (suc b) log) (last_hash genesis_hash log.rows)
      (rw (history_verifies p jsonb_reorders es) at (verify_audit_chain-Agrees p b log n.0))
    ∙ ap verified (omega arith)
