-- ===== src/Ws/Registry.antt =====
-- backend/src/ws/connectionRegistry.js: who is connected, and which socket sits in which room.
pub mod Rooms
use silent_whisper.Prelude.{
  ℕ, Bool, true, false, not, ◌&&◌, Option, none, some, List, [], ◌∷◌, ◌++◌, length, has, add,
  delete, ◌==◌, if◌then◌else◌,
}
use silent_whisper.Ws.Table.{Table, get, members, add_to, drop_from}

-- The module's two maps, from users and from channels to sets of sockets, and the sets that the
-- sockets carry as `joinedChannels`.
pub record Registry : Type 0 where
  pub user_connections : Table (List ℕ)
  pub channel_rooms : Table (List ℕ)
  pub joined_channels : ℕ → List ℕ

unfoldable pub register_connection : ℕ → ℕ → Registry → Registry
register_connection user_id ws r = record r {
  user_connections = add_to r.user_connections user_id ws;
}

unfoldable pub unregister_connection : ℕ → ℕ → Registry → Registry
unregister_connection user_id ws r = record r {
  user_connections = drop_from r.user_connections user_id ws;
}

unfoldable pub get_connection_count : ℕ → Registry → ℕ
get_connection_count user_id r = length (members r.user_connections user_id)

-- The set of one socket is replaced.
abbrev pub rejoin : (ℕ → List ℕ) → ℕ → List ℕ → ℕ → List ℕ
rejoin f ws s v = if ws == v then s else f v

unfoldable pub join_room : ℕ → ℕ → Registry → Registry
join_room channel_id ws r = record r {
  channel_rooms = add_to r.channel_rooms channel_id ws;
  joined_channels = rejoin r.joined_channels ws (add (r.joined_channels ws) channel_id);
}

unfoldable pub leave_room : ℕ → ℕ → Registry → Registry
leave_room channel_id ws r = record r {
  channel_rooms = drop_from r.channel_rooms channel_id ws;
  joined_channels = rejoin r.joined_channels ws (delete (r.joined_channels ws) channel_id);
}

-- The loop over a copy of the socket's set.
unfoldable pub leave_rooms : List ℕ → ℕ → Registry → Registry
leave_rooms [] ws r = r
leave_rooms (c ∷ cs) ws r = leave_rooms cs ws (leave_room c ws r)

unfoldable pub leave_all_rooms : ℕ → Registry → Registry
unfolding leave_rooms
leave_all_rooms ws r = leave_rooms (r.joined_channels ws) ws r

-- ws !== excludeWs
abbrev pub is_excluded : Option ℕ → ℕ → Bool
is_excluded none ws = false
is_excluded (some e) ws = e == ws

-- The sockets of a set that get the payload: the open ones, less the excluded one.
abbrev pub receivers : (ℕ → Bool) → Option ℕ → List ℕ → List ℕ
receivers is_open exclude [] = []
receivers is_open exclude (ws ∷ set) =
    let rest = receivers is_open exclude set in
    if not (is_excluded exclude ws) && is_open ws then ws ∷ rest else rest

unfoldable pub broadcast_to_room : (ℕ → Bool) → ℕ → Option ℕ → Registry → List ℕ
broadcast_to_room is_open channel_id exclude r =
    receivers is_open exclude (members r.channel_rooms channel_id)

unfoldable pub send_to_user : (ℕ → Bool) → ℕ → Registry → List ℕ
send_to_user is_open user_id r = receivers is_open none (members r.user_connections user_id)

-- The sockets that get the error frame, and those that are closed.
unfoldable pub disconnect_user : (ℕ → Bool) → ℕ → Registry → List ℕ × List ℕ
unfolding send_to_user
disconnect_user is_open user_id r =
    (send_to_user is_open user_id r, members r.user_connections user_id)

abbrev pub all_receivers : (ℕ → Bool) → Table (List ℕ) → List ℕ
all_receivers is_open [] = []
all_receivers is_open ((u, set) ∷ m) = receivers is_open none set ++ all_receivers is_open m

unfoldable pub broadcast_to_all_authenticated : (ℕ → Bool) → Registry → List ℕ
broadcast_to_all_authenticated is_open r = all_receivers is_open r.user_connections
