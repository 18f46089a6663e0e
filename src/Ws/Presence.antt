-- ===== src/Ws/Presence.antt =====
-- backend/src/ws/presence.js: who is online, away or not tracked at all.
use silent_whisper.Prelude.{
  ℕ, ◌-◌, ◌≡◌, refl, Bool, true, false, ◌&&◌, Option, none, some, List, [], ◌∷◌, arith, ltb,
  if◌then◌else◌,
}
use silent_whisper.Ws.Table.{Table, get, put, remove}

pub data Status : Type 0 where
  online away offline : Status

pub record Entry : Type 0 where
  pub last_heartbeat : ℕ
  pub status : Status

-- The `presence_update` events that a call broadcasts.
abbrev pub Updates : Type 0
Updates = List (ℕ × Status)

abbrev pub is_online : Option Entry → Bool
is_online none = false
is_online (some e) = elim e.status [ online ↦ true | _ ↦ false ]

unfoldable pub record_heartbeat : ℕ → ℕ → Table Entry → Table Entry × Updates
record_heartbeat now user_id m = (
  put m user_id (record { last_heartbeat = now; status = online }),
  if is_online (get m user_id) then [] else (user_id, online) ∷ [],
)

-- The first argument is getConnectionCount(userId).
unfoldable pub handle_disconnect : ℕ → ℕ → Table Entry → Table Entry × Updates
handle_disconnect connection_count user_id m =
    if ltb 0 connection_count then (m, []) else (remove m user_id, (user_id, offline) ∷ [])

abbrev status_or_offline : Option Entry → Status
status_or_offline none = offline
status_or_offline (some e) = e.status

unfoldable pub get_status : ℕ → Table Entry → Status
get_status user_id m = status_or_offline (get m user_id)

abbrev is_stale : ℕ → ℕ → Entry → Bool
is_stale stale_ms now e = is_online (some e) && ltb stale_ms (now - e.last_heartbeat)

abbrev downgrade : ℕ → ℕ → Entry → Entry
downgrade stale_ms now e = if is_stale stale_ms now e then record e { status = away } else e

unfoldable pub sweep_stale_presence : ℕ → ℕ → Table Entry → Table Entry × Updates
sweep_stale_presence stale_ms now [] = ([], [])
sweep_stale_presence stale_ms now ((u, e) ∷ m) =
    let (m', updates) = sweep_stale_presence stale_ms now m in
    (
      (u, downgrade stale_ms now e) ∷ m',
      if is_stale stale_ms now e then (u, away) ∷ updates else updates,
    )

get-sweep :
    (s now : ℕ) (m : Table Entry) (u : ℕ)
    → get (sweep_stale_presence s now m).0 u
      ≡ elim (get m u) [ none ↦ none | some e ↦ some (downgrade s now e) ]
unfolding sweep_stale_presence
get-sweep s now [] u = refl
get-sweep s now ((v, e) ∷ m) u = ground (arith, get-sweep s now m u)

-- What a sweep makes of a user's status: who has no entry is offline, and who is online turns
-- away when the last heartbeat is older than the stale period.
abbrev pub aged : ℕ → ℕ → Option Entry → Status
aged s now none = offline
aged s now (some e) = elim e.status [
  | online ↦ if ltb s (now - e.last_heartbeat) then away else online
  | away ↦ away
  | offline ↦ offline
]

status-downgrade :
    (s now : ℕ) (o : Option Entry)
    → status_or_offline (elim o [ none ↦ none | some e ↦ some (downgrade s now e) ]) ≡ aged s now o
status-downgrade s now none = refl
status-downgrade s now (some e) = ground arith

-- A sweep turns a user who is online away when the last heartbeat is older than the stale period,
-- and leaves the status of every other user, also of those without an entry.
sweep-aged :
    (s now : ℕ) (m : Table Entry) (u : ℕ)
    → get_status u (sweep_stale_presence s now m).0 ≡ aged s now (get m u)
unfolding get_status
sweep-aged s now m u = rw (get-sweep s now m u) (status-downgrade s now (get m u))
