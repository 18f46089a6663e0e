-- ===== src/Ws/Session/Closing.antt =====
-- What is left of a socket that closed.
use silent_whisper.Prelude.{
  ℕ, ◌<◌, ◌≡◌, true, false, none, some, arith, has, leb, ltb, if◌then◌else◌, ==_refl,
}
use silent_whisper.Ws.Table.{Table, members, get-put, get-remove, has-add_to, has-drop_from}
use silent_whisper.Ws.Registry.{
  register_connection, unregister_connection, get_connection_count, leave_all_rooms,
}
use silent_whisper.Ws.Registry.Rooms.{in_room, leave_all_rooms_lem}
use silent_whisper.Ws.Presence.{
  Entry, online, offline, get_status, record_heartbeat, handle_disconnect,
}
use silent_whisper.Ws.Session.{
  Server, Config, close, enter, register, handle_authenticate, on_close, authenticate, on_message,
  closed, frame, step,
}
use silent_whisper.Ws.Session.Sound.{Sound, connections-leave_rooms}

status_after :
    (count u : ℕ) (m : Table Entry)
    → get_status u (handle_disconnect count u m).0
      ≡ (if ltb 0 count then get_status u m else offline)
unfolding handle_disconnect get_status
status_after count u m = ground (arith, get-remove m u u, ==_refl u)

-- When an authenticated socket closes in a sound state, it is in no room and among the connections
-- of no user, and its user is shown as offline if that was the last connection and as before
-- otherwise.
closed_is_gone :
    (c : Config) (s : Server) (ws u : ℕ)
    → Sound c s
    → s.user_of ws ≡ some u
    → ((d : ℕ) → in_room (step c s (closed ws)).registry d ws ≡ false)
      × ((x : ℕ) → has (members (step c s (closed ws)).registry.user_connections x) ws ≡ false)
      × (get_status u (step c s (closed ws)).presence ≡ (
          if ltb 0 (get_connection_count u (step c s (closed ws)).registry)
          then get_status u s.presence
          else offline))
unfolding step on_close
closed_is_gone c s ws u h e =
    let r = s.registry in
    let kept : (leave_all_rooms ws r).user_connections ≡ r.user_connections =
      unfold leave_all_rooms in connections-leave_rooms c (r.joined_channels ws) ws r in
    let count = get_connection_count u (unregister_connection u ws (leave_all_rooms ws r)) in
    rw e (
      (λ d.
          unfold unregister_connection in ground (arith, leave_all_rooms_lem r ws d ws h.mirrored)),
      (λ x.
          unfold unregister_connection in
          ground (arith, kept, has-drop_from r.user_connections u x ws ws, h.owned x ws)),
      status_after count u s.presence,
    )

-- When the `close` event of a socket that is not yet authenticated comes before the database
-- answers its `authenticate` frame for a user below the limit, the socket is closed and yet a
-- connection of the user, who is shown as online.
pub late_authentication_leaks :
    (c : Config) (s : Server) (now ws u : ℕ)
    → s.user_of ws ≡ none
    → get_connection_count u s.registry < c.max_connections_per_user
    → ((step c (step c s (closed ws)) (frame now ws (authenticate (some u)))).is_open ws ≡ false)
      × (has
            (members
              (step c
                (step c s (closed ws))
                (frame now ws (authenticate (some u)))).registry.user_connections
              u)
            ws
          ≡ true)
      × (get_status u
            (step c (step c s (closed ws)) (frame now ws (authenticate (some u)))).presence
          ≡ online)
unfolding step on_close on_message handle_authenticate close enter register register_connection
    get_status record_heartbeat
late_authentication_leaks c s now ws u e free =
    let full : leb c.max_connections_per_user (get_connection_count u s.registry) ≡ false =
      ground arith in
    rw (e, e, full)
      (
        ground (arith, ==_refl ws),
        ground (arith, has-add_to s.registry.user_connections u u ws ws, ==_refl ws, ==_refl u),
        ground (
          arith,
          get-put s.presence u u (record { last_heartbeat = now; status = online }),
          ==_refl u,
        ),
      )
