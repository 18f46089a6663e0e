-- ===== src/Audit/Verify/Append.antt =====
-- What `appendAuditEvent` writes passes the check.

use silent_whisper.Prelude.{◌≡◌, refl, sym, ap, ◌∙◌, Option, none, some, List, [], ◌∷◌, ◌++◌, arith}
use silent_whisper.Text.{Text, text_eq_refl}
use silent_whisper.Audit.Json.{
  Json, Reordered, same, in_obj, kept, no_fields, canonicalize-Reordered,
}
use silent_whisper.Audit.Chain.{
  Platform, Event, Row, Log, genesis_hash, event_json, canonical_text, compute_row_hash, last_hash,
  stored, next_row, after, json_or_null, append_audit_event, append_all, empty_log,
}
use silent_whisper.Audit.Verify.{passed, check_rows, verify_all}

module _ (p : Platform) where
  -- The check of two parts, of which the first passes, goes on with the second.
  pub check_rows-append :
      (h h' : Text) (xs ys : List Row)
      → check_rows p h xs ≡ passed h'
      → check_rows p h (xs ++ ys) ≡ check_rows p h' ys
  unfolding check_rows
  check_rows-append h h' [] ys e = ground arith
  check_rows-append h h' (x ∷ xs) ys e = ground (arith, check_rows-append x.curr_row_hash h' xs ys)

  pub passed-last_hash :
      (h h' : Text) (xs : List Row) → check_rows p h xs ≡ passed h' → h' ≡ last_hash h xs
  unfolding check_rows last_hash
  passed-last_hash h h' [] e = ground arith
  passed-last_hash h h' (x ∷ xs) e = ground (arith, passed-last_hash x.curr_row_hash h' xs)

  abbrev pub Passes : Log → Type 0
  Passes log = check_rows p genesis_hash log.rows ≡ passed (last_hash genesis_hash log.rows)

  module _ (jsonb_reorders : (v : Json) → Reordered v (p.jsonb v)) where
    stored-Reordered : (e : Event) → Reordered (event_json e) (event_json (stored p e))
    unfolding event_json stored
    stored-Reordered e = in_obj (
        kept same
          (kept same (kept same (kept same (kept (payload-Reordered e.payload) no_fields)))))
      where
        payload-Reordered :
            (o : Option Json)
            → Reordered
                (json_or_null o)
                (json_or_null (elim o [ none ↦ none | some v ↦ some (p.jsonb v) ]))
        payload-Reordered none = same
        payload-Reordered (some v) = jsonb_reorders v

    hash-stored :
        (h : Text) (e : Event) → compute_row_hash p h (stored p e) ≡ compute_row_hash p h e
    unfolding compute_row_hash canonical_text
    hash-stored h e =
        ap (λ v. p.sha256 (h ++ p.stringify v))
          (sym
            (canonicalize-Reordered (event_json e) (event_json (stored p e)) (stored-Reordered e)))

    -- The new row alone passes after the hash that it names.
    next_row_passes :
        (log : Log) (e : Event)
        → check_rows p (last_hash genesis_hash log.rows) (next_row p log e ∷ [])
          ≡ passed (next_row p log e).curr_row_hash
    unfolding check_rows next_row
    next_row_passes log e =
        let h = last_hash genesis_hash log.rows in
        rw (hash-stored h e) (rw (text_eq_refl h) (rw (text_eq_refl (compute_row_hash p h e)) refl))

    appended_checks :
        (log : Log) (e : Event)
        → Passes log
        → (h : Text) × (check_rows p genesis_hash (log.rows ++ next_row p log e ∷ []) ≡ passed h)
    appended_checks log e h = (
      (next_row p log e).curr_row_hash,
      check_rows-append genesis_hash (last_hash genesis_hash log.rows) log.rows
            (next_row p log e ∷ []) h
          ∙ next_row_passes log e,
    )

    pub append-Passes : (log : Log) (e : Event) → Passes log → Passes (after p log e)
    unfolding append_audit_event
    append-Passes log e h =
        let (h', q) = appended_checks log e h in
        let rows = log.rows ++ next_row p log e ∷ [] in
        ground (arith, q, passed-last_hash genesis_hash h' rows q)

    append_all-Passes : (log : Log) (es : List Event) → Passes log → Passes (append_all p log es)
    unfolding append_all
    append_all-Passes log [] h = h
    append_all-Passes log (e ∷ es) h = append_all-Passes (after p log e) es (append-Passes log e h)

    -- Where JSONB gives payloads back with their keys in any order: after any history of calls on
    -- an empty table, those that raise included, the stored rows pass the check from the genesis
    -- hash to the hash of the newest row.
    pub history_verifies :
        (es : List Event)
        → verify_all p (append_all p empty_log es)
          ≡ passed (last_hash genesis_hash (append_all p empty_log es).rows)
    unfolding verify_all
    history_verifies es = append_all-Passes empty_log es (unfold check_rows last_hash in refl)
