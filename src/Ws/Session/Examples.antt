-- ===== src/Ws/Session/Examples.antt =====
-- Sockets of one user.
use silent_whisper.Prelude.{◌≤◌, ◌≡◌, refl, true, false, some, is_some, List, [], ◌∷◌, arith, has}
use silent_whisper.Ws.Table.{Table, members, add_to}
use silent_whisper.Ws.Registry.{
  register_connection, get_connection_count, join_room, broadcast_to_room,
}
use silent_whisper.Ws.Presence.{Entry, online, get_status}
use silent_whisper.Ws.RateLimiter.{Limits, accepted, window_lets_at_most}
use silent_whisper.Ws.Session.{
  Config, enter, register, handle_authenticate, handle_join, on_message, authenticate, join, Event,
  opened, closed, frame, step, run, delivered_to, start,
}
use silent_whisper.Ws.Session.Sound.{Sound, run-Sound, start-Sound, delivered_to_authenticated}
use silent_whisper.Ws.Session.Closing.{late_authentication_leaks}

abbrev limits : Limits
limits = record { message_window_ms = 1000; max_messages_per_window = 2 }

abbrev config : Config
config = record { limits = limits; max_connections_per_user = 1 }

-- Socket 1 becomes a socket of user 7 and joins channel 5.
abbrev script : List Event
script = opened 1 ∷ frame 0 1 (authenticate (some 7)) ∷ frame 1 1 (join 5 true) ∷ []

run-Sound_example : Sound config (run config start script)
run-Sound_example = run-Sound config start script (start-Sound config)

script_delivers : has (delivered_to 5 (run config start script)) 1 ≡ true
unfolding run step on_message handle_authenticate handle_join enter register register_connection
    get_connection_count join_room add_to delivered_to broadcast_to_room
script_delivers = refl

delivered_to_authenticated_example :
    (is_some ((run config start script).user_of 1) ≡ true)
    × (has ((run config start script).registry.joined_channels 1) 5 ≡ true)
    × ((run config start script).is_open 1 ≡ true)
delivered_to_authenticated_example = delivered_to_authenticated config script 5 1 script_delivers

script_knows : (run config start script).user_of 1 ≡ some 7
unfolding run step on_message handle_authenticate handle_join enter register register_connection
    get_connection_count
script_knows = refl

script-Sound : Sound config (run config start script)
script-Sound = run-Sound config start script (start-Sound config)

nobody_yet : get_connection_count 7 start.registry ≡ 0
unfolding get_connection_count
nobody_yet = refl

late_authentication_leaks_example :
    ((step config (step config start (closed 1)) (frame 3 1 (authenticate (some 7)))).is_open 1
      ≡ false)
    × (has
          (members
            (step config
              (step config start (closed 1))
              (frame 3 1 (authenticate (some 7)))).registry.user_connections
            7)
          1
        ≡ true)
    × (get_status 7
          (step config (step config start (closed 1)) (frame 3 1 (authenticate (some 7)))).presence
        ≡ online)
late_authentication_leaks_example =
    late_authentication_leaks config start 3 1 7 refl (omega (arith, nobody_yet))

abbrev seen : Table Entry
seen =
    (7, record { last_heartbeat = 95; status = online })
    ∷ (8, record { last_heartbeat = 20; status = online })
    ∷ []

window_lets_at_most_example : accepted limits 7 [] ((7, 50) ∷ (8, 60) ∷ (7, 70) ∷ (7, 80) ∷ []) ≤ 2
window_lets_at_most_example =
    window_lets_at_most limits 7 50 [] ((8, 60) ∷ (7, 70) ∷ (7, 80) ∷ []) refl (omega arith)
      ((λ e. omega arith), ((λ e. omega arith), ((λ e. omega arith), tt)))
