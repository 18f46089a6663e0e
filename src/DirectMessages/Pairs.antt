-- ===== src/DirectMessages/Pairs.antt =====
-- Conversations of two users (backend/src/routes/directMessages.js).
use silent_whisper.Prelude.{
  ℕ, ◌≡◌, refl, sym, ◌∙◌, subst, true, false, Option, none, some, List, [], ◌∷◌, ◌++◌, ◌==◌, arith,
  ==_refl, has,
}
use silent_whisper.Errors.{ok_injective, Ensures, Ensures-bind, Ensures-ok}
use silent_whisper.Validation.{uuid, assert_uuid}
use silent_whisper.Authz.Database.{direct}
use silent_whisper.Workspaces.Tables.{Caller}
use silent_whisper.Messages.{Message}
use silent_whisper.DirectMessages.{
  DmChannel, Seat, Desk, Moment, members_of, cutoff_for, is_pair, connects, connecting, IsChoice,
  find_existing_direct_channel, is_channel, repeats, seats_in, Started, reuse_or_open, start_direct,
}
use silent_whisper.DirectMessages.Seats.{
  housed, is_conversation, members-other, members-append, append_nothing, found_pair,
  insert_channel-Opened, Opened-members, Opened-housed,
}

pub is_pair-swap : (a b : ℕ) (us : List ℕ) → is_pair b a us ≡ is_pair a b us
is_pair-swap a b us = ground arith

pub connecting-swap :
    (a b : ℕ) (ss : List Seat) (ms : List Message) (cs : List DmChannel)
    → connecting b a none ss ms cs ≡ connecting a b none ss ms cs
connecting-swap a b ss ms [] = refl
connecting-swap a b ss ms (c ∷ cs) =
    rw (is_pair-swap a b (members_of c.id ss), connecting-swap a b ss ms cs) refl

-- The seats of another channel do not change who a channel connects.
connects-later :
    (a b d : ℕ) (us : List ℕ) (ss : List Seat) (ms : List Message) (c : DmChannel)
    → (c.id == d) ≡ false
    → connects b a none (ss ++ seats_in d us) ms c ≡ connects a b none ss ms c
connects-later a b d us ss ms c other =
    let flipped : (d == c.id) ≡ false = ground (arith, other) in
    rw
      (
        members-append c.id ss (seats_in d us),
        members-other c.id d us flipped,
        append_nothing (members_of c.id ss),
        is_pair-swap a b (members_of c.id ss),
      )
      refl

pub connecting-later :
    (a b : ℕ) (us : List ℕ) (ss : List Seat) (ms : List Message) (cs : List DmChannel)
    (d : DmChannel)
    → is_channel d.id cs ≡ false
    → connecting a b none ss ms cs ≡ []
    → connects b a none (ss ++ seats_in d.id us) ms d ≡ true
    → connecting b a none (ss ++ seats_in d.id us) ms (cs ++ d ∷ []) ≡ d.id ∷ []
connecting-later a b us ss ms [] d new missing this = rw this refl
connecting-later a b us ss ms (c ∷ cs) d new missing this =
    let before : connects a b none ss ms c ≡ false = ground (arith, missing) in
    let after = connects-later a b d.id us ss ms c (ground (arith, new)) ∙ before in
    rw after (
      connecting-later a b us ss ms cs d (ground (arith, new)) (ground (arith, missing, before))
        this)

-- The two users are the members of the channel of an answer.
abbrev pub Meets : ℕ → ℕ → Started → Type 0
Meets a b r =
    (housed r.desk.channels r.desk.channel_members ≡ true)
    × (is_conversation r.id r.desk.channels ≡ true)
    × (is_pair a b (members_of r.id r.desk.channel_members) ≡ true)

is_conversation-append :
    (cs : List DmChannel) (id now : ℕ)
    → is_conversation id
        (cs ++ record { id = id; workspace_id = none; type = direct; created_at = now } ∷ [])
      ≡ true
is_conversation-append [] id now = rw (==_refl id) refl
is_conversation-append (c ∷ cs) id now = ground (arith, is_conversation-append cs id now)

pub pair_of_two : (a b : ℕ) → repeats (a ∷ b ∷ []) ≡ false → is_pair a b (a ∷ b ∷ []) ≡ true
pair_of_two a b differ = rw (==_refl a, ==_refl b) (ground (arith, differ))

reuse_or_open-Meets :
    (e : Moment) (c : Caller) (t : ℕ) (desk : Desk) (k : Option ℕ) (o : Option ℕ)
    → housed desk.channels desk.channel_members ≡ true
    → ((i : ℕ)
        → o ≡ some i
        → has (connecting c.id t k desk.channel_members desk.messages desk.channels) i ≡ true)
    → Ensures (reuse_or_open e c t desk o) (Meets c.id t)
unfolding reuse_or_open
reuse_or_open-Meets e c t desk k (some id) kept found =
    let (there, pair) =
      found_pair c.id t k desk.channel_members desk.messages desk.channels id (found id refl) in
    Ensures-ok _ (kept, there, pair)
reuse_or_open-Meets e c t desk k none kept found = Ensures-bind _ λ d opening.
    let o = (insert_channel-Opened e c direct (c.id ∷ t ∷ []) _ desk).at d opening in
    Ensures-ok _ (
      Opened-housed e direct (c.id ∷ t ∷ []) desk d kept o,
      rw o.channels_are (is_conversation-append desk.channels e.new_id e.now),
      rw (Opened-members e direct (c.id ∷ t ∷ []) desk d kept o) (pair_of_two c.id t o.distinct),
    )

-- A user who starts a conversation with another, whose identifier is spelt as the database does,
-- gets a channel outside workspaces that has these two as its members and nobody else, whichever
-- of several the database chooses; every member stays one of a known channel.
pub start_direct-Meets :
    (e : Moment) (c : Caller) (t : ℕ) (desk : Desk)
    → IsChoice e.first
    → housed desk.channels desk.channel_members ≡ true
    → Ensures (start_direct e c (uuid t) desk) (Meets c.id t)
unfolding start_direct find_existing_direct_channel assert_uuid
start_direct-Meets e c t desk choice kept = Ensures-bind _ λ i same. Ensures-bind _ λ _ _.
    Ensures-bind _ λ _ _.
      let it : t ≡ i = ok_injective same in
      let rows =
        connecting c.id i (cutoff_for e c.id desk) desk.channel_members desk.messages
          desk.channels in
      subst (λ j. Ensures (reuse_or_open e c i desk (e.first rows)) (Meets c.id j)) (sym it)
        (reuse_or_open-Meets e c i desk (cutoff_for e c.id desk) (e.first rows) kept
          (choice.of_rows rows))
