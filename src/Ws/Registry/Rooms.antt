-- ===== src/Ws/Registry/Rooms.antt =====
-- Rooms and the sets that the sockets carry are two views of one relation.
use silent_whisper.Prelude.{
  ℕ, ◌≡◌, refl, Bool, not, ◌&&◌, ◌||◌, Option, List, [], ◌∷◌, arith, has, has-add, has-delete, ◌==◌,
}
use silent_whisper.Ws.Table.{members, has-add_to, has-drop_from}
use silent_whisper.Ws.Registry.{
  Registry, join_room, leave_room, leave_rooms, leave_all_rooms, is_excluded, receivers,
  broadcast_to_room,
}

abbrev pub in_room : Registry → ℕ → ℕ → Bool
in_room r c ws = has (members r.channel_rooms c) ws

abbrev pub Mirrored : Registry → Type 0
Mirrored r = (c ws : ℕ) → in_room r c ws ≡ has (r.joined_channels ws) c

-- A join puts the socket into the room, and changes no other place in a room.
pub in_room-join :
    (r : Registry) (c ws d v : ℕ)
    → in_room (join_room c ws r) d v ≡ ((c == d && ws == v) || in_room r d v)
unfolding join_room
in_room-join r c ws d v = has-add_to r.channel_rooms c d ws v

pub in_room-leave :
    (r : Registry) (c ws d v : ℕ)
    → in_room (leave_room c ws r) d v ≡ (not (c == d && ws == v) && in_room r d v)
unfolding leave_room
in_room-leave r c ws d v = has-drop_from r.channel_rooms c d ws v

pub join-Mirrored : (r : Registry) (c ws : ℕ) → Mirrored r → Mirrored (join_room c ws r)
unfolding join_room
join-Mirrored r c ws m d v =
    ground (
      arith,
      has-add_to r.channel_rooms c d ws v,
      has-add (r.joined_channels ws) c d,
      m d v,
      m d ws,
    )

pub leave-Mirrored : (r : Registry) (c ws : ℕ) → Mirrored r → Mirrored (leave_room c ws r)
unfolding leave_room
leave-Mirrored r c ws m d v = ground (
  arith,
  has-drop_from r.channel_rooms c d ws v,
  has-delete (r.joined_channels ws) c d,
  m d v,
  m d ws,
)

pub leave_rooms-Mirrored :
    (cs : List ℕ) (ws : ℕ) (r : Registry) → Mirrored r → Mirrored (leave_rooms cs ws r)
unfolding leave_rooms
leave_rooms-Mirrored [] ws r m = m
leave_rooms-Mirrored (c ∷ cs) ws r m =
    leave_rooms-Mirrored cs ws (leave_room c ws r) (leave-Mirrored r c ws m)

-- The rooms after a socket left some.
pub in_room-leave_rooms :
    (cs : List ℕ) (ws : ℕ) (r : Registry) (d v : ℕ)
    → in_room (leave_rooms cs ws r) d v ≡ (not (has cs d && ws == v) && in_room r d v)
unfolding leave_rooms
in_room-leave_rooms [] ws r d v = ground arith
in_room-leave_rooms (c ∷ cs) ws r d v =
    ground (arith, in_room-leave_rooms cs ws (leave_room c ws r) d v, in_room-leave r c ws d v)

-- When the rooms and the sets of the sockets agree, leaving all rooms takes the socket out of
-- every room, and leaves every other socket in the rooms in which it was.
pub leave_all_rooms_lem :
    (r : Registry) (ws c v : ℕ)
    → Mirrored r
    → in_room (leave_all_rooms ws r) c v ≡ (not (ws == v) && in_room r c v)
unfolding leave_all_rooms
leave_all_rooms_lem r ws c v m =
    ground (arith, in_room-leave_rooms (r.joined_channels ws) ws r c v, m c v)

has-receivers :
    (is_open : ℕ → Bool) (e : Option ℕ) (s : List ℕ) (v : ℕ)
    → has (receivers is_open e s) v ≡ (has s v && not (is_excluded e v) && is_open v)
has-receivers is_open e [] v = refl
has-receivers is_open e (x ∷ s) v = ground (arith, has-receivers is_open e s v)

-- When the rooms and the sets of the sockets agree, a broadcast reaches a socket exactly when the
-- socket has joined the channel, is open and is not the excluded one.
pub broadcast_reaches :
    (is_open : ℕ → Bool) (c : ℕ) (e : Option ℕ) (r : Registry) (v : ℕ)
    → Mirrored r
    → has (broadcast_to_room is_open c e r) v
      ≡ (has (r.joined_channels v) c && not (is_excluded e v) && is_open v)
unfolding broadcast_to_room
broadcast_reaches is_open c e r v m =
    ground (arith, has-receivers is_open e (members r.channel_rooms c) v, m c v)
