-- ===== src/DirectMessages/Seats.antt =====
-- Who is a member of which conversation after a write.
use silent_whisper.Prelude.{
  ℕ, ◌≡◌, refl, ◌∙◌, ap, subst, Bool, true, false, not, ◌&&◌, ◌||◌, Option, none, is_some, List, [],
  ◌∷◌, ◌++◌, ◌==◌, arith, Bool-cases, inl, inr, ==_iff, ==_refl, has,
}
use silent_whisper.Errors.{Ensures, Ensures-bind, Ensures-ok, throw_if-false}
use silent_whisper.Authz.Database.{ChannelType, Payload}
use silent_whisper.Workspaces.Tables.{Caller}
use silent_whisper.Messages.{Message}
use silent_whisper.DirectMessages.{
  DmChannel, Seat, Desk, Moment, members_of, is_direct, is_pair, connects, connecting, is_channel,
  repeats, seats_in, insert_channel,
}

abbrev pub housed : List DmChannel → List Seat → Bool
housed cs [] = true
housed cs (s ∷ ss) = is_channel s.channel_id cs && housed cs ss

-- A channel for two, outside workspaces, has this identifier.
abbrev pub is_conversation : ℕ → List DmChannel → Bool
is_conversation id [] = false
is_conversation id (c ∷ cs) =
    (c.id == id && is_direct c.type && not (is_some c.workspace_id)) || is_conversation id cs

members-none :
    (id : ℕ) (cs : List DmChannel) (ss : List Seat)
    → housed cs ss ≡ true
    → is_channel id cs ≡ false
    → members_of id ss ≡ []
members-none id cs [] kept new = refl
members-none id cs (s ∷ ss) kept new = elim (Bool-cases (s.channel_id == id)) [
  | inl same ↦
      let here : is_channel id cs ≡ true =
        subst (λ i. is_channel i cs ≡ true) ((==_iff s.channel_id id).0 same)
          (ground (arith, kept)) in
      absurd (cc)
  | inr other ↦ rw other (members-none id cs ss (ground (arith, kept)) new)
]

members-seats : (c : ℕ) (us : List ℕ) → members_of c (seats_in c us) ≡ us
members-seats c [] = refl
members-seats c (u ∷ us) = rw (==_refl c, members-seats c us) refl

pub members-other : (c d : ℕ) (us : List ℕ) → (d == c) ≡ false → members_of c (seats_in d us) ≡ []
members-other c d [] other = refl
members-other c d (u ∷ us) other = rw (other, members-other c d us other) refl

pub members-append :
    (c : ℕ) (ss ts : List Seat) → members_of c (ss ++ ts) ≡ members_of c ss ++ members_of c ts
members-append c [] ts = refl
members-append c (s ∷ ss) ts = ground (arith, members-append c ss ts)

pub append_nothing : (us : List ℕ) → us ++ [] ≡ us
append_nothing [] = refl
append_nothing (u ∷ us) = ap (λ vs. u ∷ vs) (append_nothing us)

connects-parts :
    (a b : ℕ) (k : Option ℕ) (ss : List Seat) (ms : List Message) (c : DmChannel)
    → connects a b k ss ms c ≡ true
    → ((is_direct c.type && not (is_some c.workspace_id)) ≡ true)
      × (is_pair a b (members_of c.id ss) ≡ true)
connects-parts a b k ss ms c h = (ground (arith, h), ground (arith, h))

pub found_pair :
    (a b : ℕ) (k : Option ℕ) (ss : List Seat) (ms : List Message) (cs : List DmChannel) (i : ℕ)
    → has (connecting a b k ss ms cs) i ≡ true
    → (is_conversation i cs ≡ true) × (is_pair a b (members_of i ss) ≡ true)
found_pair a b k ss ms [] i e = absurd (cc)
found_pair a b k ss ms (c ∷ cs) i e = elim (Bool-cases (connects a b k ss ms c)) [
  | inr other ↦
      let (there, pair) = found_pair a b k ss ms cs i (ground (arith, e, other)) in
      (ground (arith, there), pair)
  | inl this ↦ elim (Bool-cases (c.id == i)) [
    | inl same ↦
        let (outside, pair) = connects-parts a b k ss ms c this in
        subst (λ j. (is_conversation j (c ∷ cs) ≡ true) × (is_pair a b (members_of j ss) ≡ true))
          ((==_iff c.id i).0 same) (rw (==_refl c.id, outside) refl, pair)
    | inr differ ↦
        let (there, pair) = found_pair a b k ss ms cs i (ground (arith, e, this, differ)) in
        (ground (arith, there), pair)
  ]
]

is_channel-append :
    (id : ℕ) (cs : List DmChannel) (c : DmChannel)
    → is_channel id (cs ++ c ∷ []) ≡ (is_channel id cs || c.id == id)
is_channel-append id [] c = ground (arith)
is_channel-append id (d ∷ cs) c = ground (arith, is_channel-append id cs c)

housed-more :
    (cs : List DmChannel) (c : DmChannel) (ss : List Seat)
    → housed cs ss ≡ true
    → housed (cs ++ c ∷ []) ss ≡ true
housed-more cs c [] kept = refl
housed-more cs c (s ∷ ss) kept =
    ground (arith, kept, is_channel-append s.channel_id cs c, housed-more cs c ss)

housed-append :
    (cs : List DmChannel) (ss ts : List Seat)
    → housed cs ss ≡ true
    → housed cs ts ≡ true
    → housed cs (ss ++ ts) ≡ true
housed-append cs [] ts old new = new
housed-append cs (s ∷ ss) ts old new = ground (arith, old, housed-append cs ss ts)

housed-seats :
    (cs : List DmChannel) (id : ℕ) (us : List ℕ)
    → is_channel id cs ≡ true
    → housed cs (seats_in id us) ≡ true
housed-seats cs id [] there = refl
housed-seats cs id (u ∷ us) there = rw there (housed-seats cs id us there)

-- What opening a channel does, as far as members go.
pub record Opened (e : Moment) (type : ChannelType) (us : List ℕ) (desk desk' : Desk) : Type 0 where
  pub new_channel : is_channel e.new_id desk.channels ≡ false
  pub distinct : repeats us ≡ false
  pub channels_are :
      desk'.channels
      ≡ desk.channels
        ++ record { id = e.new_id; workspace_id = none; type = type; created_at = e.now } ∷ []
  pub members_are : desk'.channel_members ≡ desk.channel_members ++ seats_in e.new_id us
  pub users_are : desk'.users ≡ desk.users
  pub messages_are : desk'.messages ≡ desk.messages

pub insert_channel-Opened :
    (e : Moment) (c : Caller) (type : ChannelType) (us : List ℕ) (p : Payload) (desk : Desk)
    → Ensures (insert_channel e c type us p desk) (Opened e type us desk)
unfolding insert_channel
insert_channel-Opened e c type us p desk = Ensures-bind _ λ _ free.
    let off = throw_if-false _ _ free in
    Ensures-ok _ (record {
      new_channel = ground (arith, off);
      distinct = ground (arith, off);
      channels_are = refl;
      members_are = refl;
      users_are = refl;
      messages_are = refl;
    })

pub Opened-members :
    (e : Moment) (type : ChannelType) (us : List ℕ) (desk desk' : Desk)
    → housed desk.channels desk.channel_members ≡ true
    → Opened e type us desk desk'
    → members_of e.new_id desk'.channel_members ≡ us
Opened-members e type us desk desk' kept o =
    ap (members_of e.new_id) o.members_are
    ∙ members-append e.new_id desk.channel_members (seats_in e.new_id us)
    ∙ rw (members-none e.new_id desk.channels desk.channel_members kept o.new_channel)
        (members-seats e.new_id us)

pub Opened-housed :
    (e : Moment) (type : ChannelType) (us : List ℕ) (desk desk' : Desk)
    → housed desk.channels desk.channel_members ≡ true
    → Opened e type us desk desk'
    → housed desk'.channels desk'.channel_members ≡ true
Opened-housed e type us desk desk' kept o =
    rw (o.channels_are, o.members_are)
      (housed-append _ desk.channel_members (seats_in e.new_id us)
        (housed-more desk.channels _ desk.channel_members kept)
        (housed-seats _ e.new_id us
          (rw (is_channel-append e.new_id desk.channels _, o.new_channel) (==_refl e.new_id))))
