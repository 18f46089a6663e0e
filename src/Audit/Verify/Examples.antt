-- ===== src/Audit/Verify/Examples.antt =====
-- Logs of a toy platform: the digest is the first 64 characters of the text, filled up with zeros.
use silent_whisper.Prelude.{
  ℕ, zero, suc, ◌≤◌, ◌≡◌, refl, ap, none, some, List, [], ◌∷◌, ◌++◌, arith, length, take,
  length-append, ◌⊎◌,
}
use silent_whisper.Text.{Text, codes}
use silent_whisper.Audit.Json.{
  same, swapped, in_obj, null, num, obj, end, field, canonicalize, canonicalize-Reordered,
}
use silent_whisper.Audit.Chain.{
  Platform, Event, Log, zeros, genesis_hash, append_all, empty_log, last_hash, compute_row_hash,
  canonical_text, event_json,
}
use silent_whisper.Audit.Verify.{
  hash_mismatch, verified, broken, verify_all, verify_audit_chain, check_rows, verify_pages,
  on_page, newer, last_id_of,
}
use silent_whisper.Audit.Verify.Append.{history_verifies}
use silent_whisper.Audit.Verify.Pages.{Agrees, verify_audit_chain-Agrees}
use silent_whisper.Audit.Verify.History.{history_verifies_in_pages}
use silent_whisper.Audit.Verify.Tamper.{SameEvents, Collide, tampering_needs_collision}

abbrev toy : Platform
toy = record { sha256 = λ t. take 64 (t ++ zeros 64); stringify = λ v. codes "x"; jsonb = λ v. v }

length-take : (n : ℕ) (t : Text) → n ≤ length t → length (take n t) ≡ n
length-take zero t h = refl
length-take (suc n) [] h = absurd (omega arith)
length-take (suc n) (c ∷ t) h = ap suc (length-take n t (omega arith))

toy_digest_length : (t : Text) → length (toy.sha256 t) ≡ 64
toy_digest_length t = length-take 64 (t ++ zeros 64) (omega (arith, length-append t (zeros 64)))

abbrev login : Event
login = record {
  actor_id = codes "u1";
  actor_ip = codes "::1";
  action_type = codes "LOGIN";
  target_resource = none;
  payload = none;
}

abbrev rename : Event
rename = record login {
  payload = some (obj (field (codes "b") (num 1) (field (codes "a") null end)));
}

abbrev nameless : Event
nameless = record login { actor_id = [] }

abbrev two_events : List Event
two_events = login ∷ nameless ∷ rename ∷ []

canonicalize-Reordered_example :
    canonicalize (obj (field (codes "b") (num 1) (field (codes "a") null end)))
    ≡ canonicalize (obj (field (codes "a") null (field (codes "b") (num 1) end)))
canonicalize-Reordered_example =
    canonicalize-Reordered (obj (field (codes "b") (num 1) (field (codes "a") null end)))
      (obj (field (codes "a") null (field (codes "b") (num 1) end)))
      (in_obj (swapped (λ e. ground (arith, e))))

history_verifies_in_pages_example :
    verify_audit_chain toy 1 (append_all toy empty_log two_events)
    ≡ verified (length (append_all toy empty_log two_events).rows)
history_verifies_in_pages_example = history_verifies_in_pages toy (λ v. same) 0 two_events

-- A row whose hash is wrong, after one that is right.
abbrev forged : Log
forged = record {
  rows =
      record { id = 1; event = login; prev_row_hash = genesis_hash; curr_row_hash = zeros 64 }
      ∷ record { id = 5; event = rename; prev_row_hash = zeros 64; curr_row_hash = codes "wrong" }
      ∷ [];
  next_id = 6;
}

forged_is_reported : verify_audit_chain toy 1 forged ≡ broken 2 5 hash_mismatch
unfolding verify_audit_chain verify_pages on_page newer last_id_of check_rows compute_row_hash
    genesis_hash canonical_text event_json canonicalize
forged_is_reported = refl

verify_audit_chain-Agrees_example :
    Agrees 0 forged.rows (verify_audit_chain toy 1 forged) (verify_all toy forged)
verify_audit_chain-Agrees_example =
    verify_audit_chain-Agrees toy 0 forged (omega arith, (omega arith, tt))

tampering_needs_collision_example :
    SameEvents toy
      (append_all toy empty_log two_events).rows
      (append_all toy empty_log two_events).rows
    ⊎ Collide toy
        (append_all toy empty_log two_events).rows
        (append_all toy empty_log two_events).rows
tampering_needs_collision_example =
    tampering_needs_collision toy toy_digest_length (append_all toy empty_log two_events)
      (append_all toy empty_log two_events)
      (last_hash genesis_hash (append_all toy empty_log two_events).rows) refl
      (history_verifies toy (λ v. same) two_events) (history_verifies toy (λ v. same) two_events)
