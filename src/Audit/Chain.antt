-- ===== src/Audit/Chain.antt =====
-- backend/src/audit/auditService.js: the rows of audit_logs, their hashes, and `appendAuditEvent`.

use silent_whisper.Prelude.{
  ℕ, ◌+◌, Bool, true, false, ◌||◌, Option, none, some, List, [], ◌∷◌, ◌++◌, if◌then◌else◌,
}
use silent_whisper.Text.{Text, codes}
use silent_whisper.Audit.Json.{Json, null, str, obj, end, field, canonicalize}

-- What the code takes from outside: SHA-256 in hexadecimal digits, `JSON.stringify`, and the
-- value that a JSONB column gives back for the one that was written.
pub record Platform : Type 0 where
  pub sha256 : Text → Text
  pub stringify : Json → Text
  pub jsonb : Json → Json

abbrev pub zeros : ℕ → Text
zeros ℕ.zero = []
zeros (ℕ.suc n) = b'0' ∷ zeros n

unfoldable pub genesis_hash : Text
genesis_hash = zeros 64

pub record Event : Type 0 where
  pub actor_id : Text
  pub actor_ip : Text
  pub action_type : Text
  pub target_resource : Option Text
  pub payload : Option Json

pub record Row : Type 0 where
  pub id : ℕ
  pub event : Event
  pub prev_row_hash : Text
  pub curr_row_hash : Text

-- The table in the order of `id`, and the sequence behind that column.
pub record Log : Type 0 where
  pub rows : List Row
  pub next_id : ℕ

-- value ?? null
abbrev pub text_or_null : Option Text → Json
text_or_null none = null
text_or_null (some t) = str t

abbrev pub json_or_null : Option Json → Json
json_or_null none = null
json_or_null (some v) = v

-- The object that is hashed with the hash of the row before.
unfoldable pub event_json : Event → Json
event_json e = obj (
    field (codes "actorId") (str e.actor_id) (
      field (codes "actorIp") (str e.actor_ip) (
        field (codes "actionType") (str e.action_type) (
          field (codes "targetResource") (text_or_null e.target_resource)
            (field (codes "payload") (json_or_null e.payload) end)))))

unfoldable pub canonical_text : Platform → Event → Text
canonical_text p e = p.stringify (canonicalize (event_json e))

unfoldable pub compute_row_hash : Platform → Text → Event → Text
compute_row_hash p prev e = p.sha256 (prev ++ canonical_text p e)

-- The hash of the newest row.
unfoldable pub last_hash : Text → List Row → Text
last_hash h [] = h
last_hash h (r ∷ rs) = last_hash r.curr_row_hash rs

abbrev pub is_empty : Text → Bool
is_empty [] = true
is_empty (c ∷ t) = false

-- An event as the table gives it back.
unfoldable pub stored : Platform → Event → Event
stored p e = record e { payload = elim e.payload [ none ↦ none | some v ↦ some (p.jsonb v) ] }

unfoldable pub next_row : Platform → Log → Event → Row
next_row p log e =
    let prev = last_hash genesis_hash log.rows in
    record {
      id = log.next_id;
      event = stored p e;
      prev_row_hash = prev;
      curr_row_hash = compute_row_hash p prev e;
    }

-- `none` is the error that a missing field raises, before anything is read or written.
unfoldable pub append_audit_event : Platform → Log → Event → Option (Log × Row)
append_audit_event p log e =
    if is_empty e.actor_id || is_empty e.actor_ip || is_empty e.action_type
    then none
    else (let row = next_row p log e in
        some (record { rows = log.rows ++ row ∷ []; next_id = log.next_id + 1 }, row))

abbrev pub empty_log : Log
empty_log = record { rows = []; next_id = 1 }

-- The table after a call, one that raises included.
abbrev pub after : Platform → Log → Event → Log
after p log e = elim (append_audit_event p log e) [ none ↦ log | some (log', _) ↦ log' ]

-- The calls of a whole history.
unfoldable pub append_all : Platform → Log → List Event → Log
append_all p log [] = log
append_all p log (e ∷ es) = append_all p (after p log e) es
