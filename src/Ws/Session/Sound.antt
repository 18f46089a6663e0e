-- ===== src/Ws/Session/Sound.antt =====
-- What holds of the server whatever frames and closings come in whatever order.
use silent_whisper.Prelude.{
  ℕ, ◌≤◌, ◌<◌, ◌≡◌, refl, sym, ap, ◌∙◌, true, false, Option, none, some, is_some, List, [], ◌∷◌,
  arith, length, has, length-add, length-delete, leb, ◌==◌, Bool-cases, ==_iff, inl, inr, ==_iff,
  inl, inr,
}
use silent_whisper.Ws.Table.{members, members-add_to, members-drop_from, has-add_to, has-drop_from}
use silent_whisper.Ws.Registry.{
  Registry, register_connection, unregister_connection, get_connection_count, join_room, leave_room,
  leave_rooms, leave_all_rooms,
}
use silent_whisper.Ws.Registry.Rooms.{
  in_room, Mirrored, in_room-join, in_room-leave, join-Mirrored, leave-Mirrored,
  leave_rooms-Mirrored, leave_all_rooms_lem, broadcast_reaches,
}
use silent_whisper.Ws.Session.{
  Server, Config, close, enter, register, handle_authenticate, handle_join, handle_leave,
  handle_message, on_close, Frame, malformed, authenticate, join, leave, message, heartbeat,
  unknown, on_message, Event, opened, frame, closed, step, run, delivered_to, start,
}

-- The rooms agree with the sets of the sockets, only authenticated sockets sit in rooms, a
-- connection of a user is a socket of that user, and nobody has more than the configured number.
pub record Sound (c : Config) (s : Server) : Type 0 where
  pub mirrored : Mirrored s.registry
  pub known : (d ws : ℕ) → in_room s.registry d ws ≡ true → is_some (s.user_of ws) ≡ true
  pub owned :
      (u ws : ℕ) → has (members s.registry.user_connections u) ws ≡ true → s.user_of ws ≡ some u
  pub capped : (u : ℕ) → length (members s.registry.user_connections u) ≤ c.max_connections_per_user

module _ (c : Config) where
  close-Sound : (ws : ℕ) (s : Server) → Sound c s → Sound c (close ws s)
  unfolding close
  close-Sound ws s h = record {
    mirrored = h.mirrored;
    known = h.known;
    owned = h.owned;
    capped = h.capped;
  }

  -- A renewal by the same user.
  renew-Sound :
      (now ws u : ℕ) (s : Server) → s.user_of ws ≡ some u → Sound c s → Sound c (enter now ws u s)
  unfolding enter
  renew-Sound now ws u s e h = record {
    mirrored = h.mirrored;
    known = λ d v p. ground (arith, h.known d v p);
    owned = λ x v p. ground (arith, h.owned x v p);
    capped = h.capped;
  }

  first-Sound :
      (now ws u : ℕ) (s : Server)
      → s.user_of ws ≡ none
      → get_connection_count u s.registry < c.max_connections_per_user
      → Sound c s
      → Sound c (enter now ws u (register ws u s))
  unfolding enter register register_connection get_connection_count
  first-Sound now ws u s e free h = record {
    mirrored = h.mirrored;
    known = λ d v p. ground (arith, h.known d v p);
    owned = λ x v p. ground (arith, has-add_to s.registry.user_connections u x ws v, h.owned x v);
    capped = λ x. ground (
      arith,
      members-add_to s.registry.user_connections u x ws,
      length-add (members s.registry.user_connections u) ws,
      h.capped x,
    );
  }

  join-Sound :
      (ws d u : ℕ) (s : Server)
      → s.user_of ws ≡ some u
      → Sound c s
      → Sound c (handle_join ws d true s)
  unfolding handle_join
  join-Sound ws d u s e h = record {
    mirrored = join-Mirrored s.registry d ws h.mirrored;
    known = λ x v p. ground (arith, in_room-join s.registry d ws x v, h.known x v);
    owned = unfold join_room in h.owned;
    capped = unfold join_room in h.capped;
  }

  leave-Sound : (ws d : ℕ) (s : Server) → Sound c s → Sound c (handle_leave ws d s)
  unfolding handle_leave
  leave-Sound ws d s h = record {
    mirrored = leave-Mirrored s.registry d ws h.mirrored;
    known = λ x v p. ground (arith, in_room-leave s.registry d ws x v, h.known x v);
    owned = unfold leave_room in h.owned;
    capped = unfold leave_room in h.capped;
  }

  message-Sound :
      (now ws u d : ℕ) (s : Server) → Sound c s → Sound c (handle_message c now ws u d s).0
  unfolding handle_message
  message-Sound now ws u d s h = elim (Bool-cases (has (s.registry.joined_channels ws) d)) [
    | inl here ↦
        rw here
          (record { mirrored = h.mirrored; known = h.known; owned = h.owned; capped = h.capped })
    | inr away ↦ rw away h
  ]

  pub connections-leave_rooms :
      (cs : List ℕ) (ws : ℕ) (r : Registry)
      → (leave_rooms cs ws r).user_connections ≡ r.user_connections
  unfolding leave_rooms leave_room
  connections-leave_rooms [] ws r = refl
  connections-leave_rooms (x ∷ cs) ws r = connections-leave_rooms cs ws (leave_room x ws r)

  on_close-Sound :
      (ws : ℕ) (s : Server) (o : Option ℕ) → s.user_of ws ≡ o → Sound c s → Sound c (on_close ws s)
  unfolding on_close
  on_close-Sound ws s none e h = rw e (close-Sound ws s h)
  on_close-Sound ws s (some u) e h =
      let r = s.registry in
      let kept : (leave_all_rooms ws r).user_connections ≡ r.user_connections =
        unfold leave_all_rooms in connections-leave_rooms (r.joined_channels ws) ws r in
      rw e (record {
        mirrored =
            unfold unregister_connection leave_all_rooms in
            leave_rooms-Mirrored (r.joined_channels ws) ws r h.mirrored;
        known =
            unfold unregister_connection in
            λ d v p. ground (arith, leave_all_rooms_lem r ws d v h.mirrored, h.known d v);
        owned =
            unfold unregister_connection in
            λ x v p. ground (arith, kept, has-drop_from r.user_connections u x ws v, h.owned x v);
        capped =
            unfold unregister_connection in
            λ x. ground (
              arith,
              kept,
              members-drop_from r.user_connections u x ws,
              length-delete (members r.user_connections u) ws,
              h.capped x,
            );
      })

  authenticate-Sound :
      (now ws u : ℕ) (s : Server) (o : Option ℕ)
      → s.user_of ws ≡ o
      → Sound c s
      → Sound c (handle_authenticate c now ws (some u) s)
  unfolding handle_authenticate
  authenticate-Sound now ws u s none e h =
      elim (Bool-cases (leb c.max_connections_per_user (get_connection_count u s.registry))) [
        | inl full ↦ rw (e, full) (close-Sound ws s h)
        | inr free ↦ rw (e, free) (first-Sound now ws u s e (ground arith) h)
      ]
  authenticate-Sound now ws u s (some v) e h = elim (Bool-cases (v == u)) [
    | inl same ↦ rw (e, same) (renew-Sound now ws u s (e ∙ ap some ((==_iff v u).0 same)) h)
    | inr other ↦ rw (e, other) (close-Sound ws s h)
  ]

  -- A frame of a socket whose user is known or not.
  other-Sound :
      (now ws : ℕ) (f : Frame) (s : Server) (o : Option ℕ)
      → s.user_of ws ≡ o
      → Sound c s
      → Sound c (on_message c now ws f s)
  unfolding on_message
  other-Sound now ws malformed s o e h = h
  other-Sound now ws (authenticate none) s o e h = unfold handle_authenticate in close-Sound ws s h
  other-Sound now ws (authenticate (some u)) s o e h = authenticate-Sound now ws u s o e h
  other-Sound now ws (join d b) s none e h = rw e (close-Sound ws s h)
  other-Sound now ws (leave d) s none e h = rw e (close-Sound ws s h)
  other-Sound now ws (message d) s none e h = rw e (close-Sound ws s h)
  other-Sound now ws heartbeat s none e h = rw e (close-Sound ws s h)
  other-Sound now ws unknown s none e h = rw e (close-Sound ws s h)
  other-Sound now ws (join d true) s (some u) e h = rw e (join-Sound ws d u s e h)
  other-Sound now ws (join d false) s (some u) e h = rw e (unfold handle_join in h)
  other-Sound now ws (leave d) s (some u) e h = rw e (leave-Sound ws d s h)
  other-Sound now ws (message d) s (some u) e h = rw e (message-Sound now ws u d s h)
  other-Sound now ws heartbeat s (some u) e h =
      rw e (record { mirrored = h.mirrored; known = h.known; owned = h.owned; capped = h.capped })
  other-Sound now ws unknown s (some u) e h = rw e h

  step-Sound : (s : Server) (e : Event) → Sound c s → Sound c (step c s e)
  unfolding step
  step-Sound s (opened ws) h = record {
    mirrored = h.mirrored;
    known = h.known;
    owned = h.owned;
    capped = h.capped;
  }
  step-Sound s (frame now ws f) h = other-Sound now ws f s (s.user_of ws) refl h
  step-Sound s (closed ws) h = on_close-Sound ws s (s.user_of ws) refl h

-- Frames, openings and closings of sockets in whatever order lead from a sound state to a sound
-- one: rooms agree with the sets of the sockets, only authenticated sockets sit in rooms, a
-- connection of a user is a socket of that user, and nobody has too many connections.
pub run-Sound : (c : Config) (s : Server) (es : List Event) → Sound c s → Sound c (run c s es)
unfolding run
run-Sound c s [] h = h
run-Sound c s (e ∷ es) h = run-Sound c (step c s e) es (step-Sound c s e h)

pub start-Sound : (c : Config) → Sound c start
start-Sound c = record {
  mirrored = λ d v. refl;
  known = λ d v p. cc;
  owned = λ x v p. cc;
  capped = λ x. omega arith;
}

-- After any frames, openings and closings from the start, a message in a channel goes to a socket
-- only when the socket is authenticated, has joined the channel and is open.
pub delivered_to_authenticated :
    (c : Config) (es : List Event) (d ws : ℕ)
    → has (delivered_to d (run c start es)) ws ≡ true
    → (is_some ((run c start es).user_of ws) ≡ true)
      × (has ((run c start es).registry.joined_channels ws) d ≡ true)
      × ((run c start es).is_open ws ≡ true)
unfolding delivered_to
delivered_to_authenticated c es d ws h =
    let s = run c start es in
    let sound = run-Sound c start es (start-Sound c) in
    let reached = sym (broadcast_reaches s.is_open d none s.registry ws sound.mirrored) ∙ h in
    (
      ground (arith, sound.mirrored d ws, sound.known d ws, reached),
      ground (arith, reached),
      ground (arith, reached),
    )
