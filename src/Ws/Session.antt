-- ===== src/Ws/Session.antt =====
-- backend/src/ws/server.js: what a frame or a closed socket does to the state of the server. A
-- handler that waits for the database is the part after the wait, with the answer as an argument.
pub mod Sound
pub mod Closing
mod Examples
use silent_whisper.Prelude.{
  ℕ, ◌+◌, Bool, true, false, not, ◌&&◌, Option, none, some, is_some, List, [], ◌∷◌, has, leb, ◌==◌,
  if◌then◌else◌,
}
use silent_whisper.Text.{Text}
use silent_whisper.Auth.Accounts.{Account, House, Outside, active_account, find_account}
use silent_whisper.Ws.Table.{Table}
use silent_whisper.Ws.Registry.{
  Registry, register_connection, unregister_connection, get_connection_count, join_room, leave_room,
  leave_all_rooms, broadcast_to_room,
}
use silent_whisper.Ws.Presence.{Entry, record_heartbeat, handle_disconnect}
use silent_whisper.Ws.RateLimiter.{Limits, Window, is_message_rate_limited}

-- The state of the modules, the user of each authenticated socket, and the sockets that are open.
pub record Server : Type 0 where
  pub registry : Registry
  pub presence : Table Entry
  pub windows : Table Window
  pub user_of : ℕ → Option ℕ
  pub is_open : ℕ → Bool

pub record Config : Type 0 where
  pub limits : Limits
  pub max_connections_per_user : ℕ

abbrev with_value {ℓ} : {A : Type ℓ} → (ℕ → A) → ℕ → A → ℕ → A
with_value f k a j = if k == j then a else f j

-- ws.close(…): the socket is no longer open; its `close` event comes later
unfoldable pub close : ℕ → Server → Server
close ws s = record s { is_open = with_value s.is_open ws false }

-- The end of a handshake that passed.
unfoldable pub enter : ℕ → ℕ → ℕ → Server → Server
unfolding record_heartbeat
enter now ws user_id s = record s {
  user_of = with_value s.user_of ws (some user_id);
  presence = (record_heartbeat now user_id s.presence).0;
}

unfoldable pub register : ℕ → ℕ → Server → Server
register ws user_id s = record s { registry = register_connection user_id ws s.registry }

-- What depends on the user whom the socket has already.
authenticate_as : Config → ℕ → ℕ → ℕ → Option ℕ → Server → Server
authenticate_as c now ws user_id (some v) s =
    if v == user_id then enter now ws user_id s else close ws s
authenticate_as c now ws user_id none s =
    if leb c.max_connections_per_user (get_connection_count user_id s.registry)
    then close ws s
    else enter now ws user_id (register ws user_id s)

abbrev active_user : ℕ → Option Account → Option ℕ
active_user id a = if active_account a then some id else none

-- handleAuthenticate up to the answer of the database: the user whom the token names, where that
-- account is there and active.
unfoldable pub claimed_user : Outside → Text → House → Option ℕ
claimed_user o access_token h = elim (o.verify_access_token access_token) [
  | none ↦ none
  | some id ↦ active_user id (find_account id h.accounts)
]

-- The rest of handleAuthenticate, with that user or none.
unfoldable pub handle_authenticate : Config → ℕ → ℕ → Option ℕ → Server → Server
unfolding authenticate_as
handle_authenticate c now ws none s = close ws s
handle_authenticate c now ws (some user_id) s = authenticate_as c now ws user_id (s.user_of ws) s

-- handleJoin; the Boolean tells whether `requireChannelMember` passed.
unfoldable pub handle_join : ℕ → ℕ → Bool → Server → Server
handle_join ws channel_id false s = s
handle_join ws channel_id true s = record s { registry = join_room channel_id ws s.registry }

unfoldable pub handle_leave : ℕ → ℕ → Server → Server
handle_leave ws channel_id s = record s { registry = leave_room channel_id ws s.registry }

-- handleMessage up to the database; the second part tells whether the message goes on.
unfoldable pub handle_message : Config → ℕ → ℕ → ℕ → ℕ → Server → Server × Bool
handle_message c now ws user_id channel_id s =
    if not (has (s.registry.joined_channels ws) channel_id)
    then (s, false)
    else (let (windows, refused) = is_message_rate_limited c.limits now user_id s.windows in
        (record s { windows = windows }, not refused))

-- The sockets that a stored message goes to.
unfoldable pub delivered_to : ℕ → Server → List ℕ
delivered_to channel_id s = broadcast_to_room s.is_open channel_id none s.registry

abbrev leave_server : ℕ → Option ℕ → Server → Server
leave_server ws none s = s
leave_server ws (some user_id) s =
    let r = unregister_connection user_id ws (leave_all_rooms ws s.registry) in
    record s {
      registry = r;
      presence = (handle_disconnect (get_connection_count user_id r) user_id s.presence).0;
    }

-- The `close` event, after which the socket is not open.
unfoldable pub on_close : ℕ → Server → Server
unfolding close
on_close ws s = close ws (leave_server ws (s.user_of ws) s)

-- A frame of a socket; `unknown` is one of another type, or without the member that its type
-- wants.
pub data Frame : Type 0 where
  malformed : Frame
  authenticate : Option ℕ → Frame
  join : ℕ → Bool → Frame
  leave : ℕ → Frame
  message : ℕ → Frame
  heartbeat : Frame
  unknown : Frame

-- The switch over the types of frames of an authenticated socket.
on_authenticated : Config → ℕ → ℕ → ℕ → Frame → Server → Server
on_authenticated c now ws user_id (join channel_id member) s = handle_join ws channel_id member s
on_authenticated c now ws user_id (leave channel_id) s = handle_leave ws channel_id s
on_authenticated c now ws user_id (message channel_id) s =
    (handle_message c now ws user_id channel_id s).0
on_authenticated c now ws user_id heartbeat s = record s {
  presence = (record_heartbeat now user_id s.presence).0;
}
on_authenticated c now ws user_id _ s = s

on_other : Config → ℕ → ℕ → Option ℕ → Frame → Server → Server
unfolding on_authenticated
on_other c now ws none f s = close ws s
on_other c now ws (some user_id) f s = on_authenticated c now ws user_id f s

-- ws.on('message')
unfoldable pub on_message : Config → ℕ → ℕ → Frame → Server → Server
unfolding on_other
on_message c now ws malformed s = s
on_message c now ws (authenticate claims) s = handle_authenticate c now ws claims s
on_message c now ws f s = on_other c now ws (s.user_of ws) f s

pub data Event : Type 0 where
  opened : ℕ → Event
  frame : ℕ → ℕ → Frame → Event
  closed : ℕ → Event

-- A new socket has an identity that no socket had before: it is unknown, and opens.
unfoldable pub step : Config → Server → Event → Server
step c s (opened ws) = record s { is_open = with_value s.is_open ws true }
step c s (frame now ws f) = on_message c now ws f s
step c s (closed ws) = on_close ws s

unfoldable pub run : Config → Server → List Event → Server
run c s [] = s
run c s (e ∷ es) = run c (step c s e) es

abbrev pub start : Server
start = record {
  registry = record { user_connections = []; channel_rooms = []; joined_channels = λ _. [] };
  presence = [];
  windows = [];
  user_of = λ _. none;
  is_open = λ _. false;
}
