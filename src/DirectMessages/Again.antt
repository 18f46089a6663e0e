-- ===== src/DirectMessages/Again.antt =====
-- A search for a conversation after one was opened (backend/src/routes/directMessages.js).
use silent_whisper.Prelude.{
  ==_iff, length, has, List, ◌≤◌, ℕ, ◌≡◌, refl, sym, ◌∙◌, ap, subst, true, false, ◌&&◌, Option,
  none, some, is_some, [], ◌∷◌, ◌++◌, ◌==◌, arith, Option-cases, inl, inr,
}
use silent_whisper.Errors.{
  ok_injective, ok, Ensures, Ensures-bind, Ensures-ok, ◌>>=◌, throw_if, throw_if-false, or_throw,
}
use silent_whisper.Validation.{uuid, assert_uuid}
use silent_whisper.Authz.Database.{direct}
use silent_whisper.Workspaces.Tables.{Caller}
use silent_whisper.DirectMessages.{
  is_pair, Desk, Moment, find_user, members_of, cutoff_for, connecting, IsChoice,
  find_existing_direct_channel, seats_in, Started, reuse_or_open, start_direct,
}
use silent_whisper.DirectMessages.Seats.{housed, insert_channel-Opened, Opened-members}
use silent_whisper.DirectMessages.Pairs.{
  is_pair-swap, connecting-swap, connecting-later, pair_of_two,
}

-- A choice from one row is that row, and no choice means no row.
module _ (first : List ℕ → Option ℕ) (choice : IsChoice first) where
  only_row : (i : ℕ) → first (i ∷ []) ≡ some i
  only_row i = elim (Option-cases (first (i ∷ []))) [
    | inl missing ↦ absurd (ground (arith, missing, choice.some_row i []))
    | inr (j, found) ↦
        let hit : i ≡ j =
          (==_iff i j).0 (let h = choice.of_rows (i ∷ []) j found in ground (arith, h)) in
        rw hit (rw hit at found)
  ]

  no_choice : (is : List ℕ) → first is ≡ none → is ≡ []
  no_choice [] missing = refl
  no_choice (i ∷ is) missing = absurd (ground (arith, missing, choice.some_row i is))

only_member : (is : List ℕ) (i : ℕ) → length is ≤ 1 → has is i ≡ true → is ≡ i ∷ []
only_member [] i few h = absurd (cc)
only_member (j ∷ []) i few h = rw ((==_iff j i).0 (ground (arith, h))) refl
only_member (j ∷ k ∷ is) i few h = absurd (omega arith)

-- Seen from the other side, the channel of the answer is the only one of the two.
abbrev Found : ℕ → ℕ → Desk → Started → Type 0
Found a b desk r =
    (connecting b a none r.desk.channel_members r.desk.messages r.desk.channels ≡ r.id ∷ [])
    × (r.desk.users ≡ desk.users)

reuse_or_open-Found :
    (e : Moment) (c : Caller) (t : ℕ) (desk : Desk) (o : Option ℕ)
    → IsChoice e.first
    → housed desk.channels desk.channel_members ≡ true
    → length (connecting c.id t none desk.channel_members desk.messages desk.channels) ≤ 1
    → e.first (connecting c.id t none desk.channel_members desk.messages desk.channels) ≡ o
    → Ensures (reuse_or_open e c t desk o) (Found c.id t desk)
unfolding reuse_or_open
reuse_or_open-Found e c t desk (some id) choice kept few found =
    let rows = connecting c.id t none desk.channel_members desk.messages desk.channels in
    Ensures-ok _ (
      connecting-swap c.id t desk.channel_members desk.messages desk.channels
          ∙ only_member rows id few (choice.of_rows rows id found),
      refl,
    )
reuse_or_open-Found e c t desk none choice kept few missing = Ensures-bind _ λ d opening.
    let o = (insert_channel-Opened e c direct (c.id ∷ t ∷ []) _ desk).at d opening in
    let seated : members_of e.new_id (desk.channel_members ++ seats_in e.new_id (c.id ∷ t ∷ []))
        ≡ c.id ∷ t ∷ [] =
      sym (ap (members_of e.new_id) o.members_are)
      ∙ Opened-members e direct (c.id ∷ t ∷ []) desk d kept o in
    let pair : is_pair t c.id
          (members_of e.new_id (desk.channel_members ++ seats_in e.new_id (c.id ∷ t ∷ [])))
        ≡ true =
      ap (is_pair t c.id) seated
      ∙ is_pair-swap c.id t (c.id ∷ t ∷ [])
      ∙ pair_of_two c.id t o.distinct in
    Ensures-ok _ (
      rw (o.channels_are, o.members_are, o.messages_are)
          (connecting-later c.id t (c.id ∷ t ∷ []) desk.channel_members desk.messages desk.channels
            (record { id = e.new_id; workspace_id = none; type = direct; created_at = e.now })
            o.new_channel (no_choice e.first choice _ missing) (ap (λ b. b && true) pair)),
      o.users_are,
    )

start_direct-Found :
    (e : Moment) (c : Caller) (t : ℕ) (desk : Desk)
    → IsChoice e.first
    → housed desk.channels desk.channel_members ≡ true
    → cutoff_for e c.id desk ≡ none
    → length (connecting c.id t none desk.channel_members desk.messages desk.channels) ≤ 1
    → Ensures (start_direct e c (uuid t) desk) (λ r. Found c.id t desk r × ((t == c.id) ≡ false))
unfolding start_direct find_existing_direct_channel assert_uuid
start_direct-Found e c t desk choice kept never few = Ensures-bind _ λ i same.
    Ensures-bind _ λ _ other. Ensures-bind _ λ _ _.
      let it : t ≡ i = ok_injective same in
      let rows =
        connecting c.id i (cutoff_for e c.id desk) desk.channel_members desk.messages
          desk.channels in
      let few' : length (connecting c.id i none desk.channel_members desk.messages desk.channels)
          ≤ 1 =
        subst
          (λ j.
            length (connecting c.id j none desk.channel_members desk.messages desk.channels) ≤ 1)
          it few in
      subst
        (λ j.
          Ensures (reuse_or_open e c i desk (e.first rows))
            (λ r. Found c.id j desk r × ((j == c.id) ≡ false)))
        (sym it)
        (record {
          at = λ r done. (
            (reuse_or_open-Found e c i desk (e.first rows) choice kept few' (rw never refl)).at r
                done,
            throw_if-false _ _ other,
          );
        })

-- Let two users archive no conversations and have one with each other at most. When the one starts
-- one with the other, and then, at any time and with no request in between, the other with the
-- first, the second gets the channel that the first has got, and no other is made. Every
-- member is one of a known channel before, and the first user has an account.
pub start_direct_again :
    (e e' : Moment) (c c' : Caller) (desk : Desk) (r : Started)
    → IsChoice e.first
    → IsChoice e'.first
    → housed desk.channels desk.channel_members ≡ true
    → cutoff_for e c.id desk ≡ none
    → cutoff_for e' c'.id desk ≡ none
    → length (connecting c.id c'.id none desk.channel_members desk.messages desk.channels) ≤ 1
    → is_some (find_user c.id desk.users) ≡ true
    → start_direct e c (uuid c'.id) desk ≡ ok r
    → start_direct e' c' (uuid c.id) r.desk
      ≡ ok (record { desk = r.desk; id = r.id; created = false })
unfolding start_direct find_existing_direct_channel reuse_or_open assert_uuid ◌>>=◌ throw_if
    or_throw
start_direct_again e e' c c' desk r choice choice' kept never never' few there done =
    let ((found, users), differ) =
      (start_direct-Found e c c'.id desk choice kept never few).at r done in
    let flipped : (c.id == c'.id) ≡ false = ground (arith, differ) in
    let cutoff : cutoff_for e' c'.id r.desk ≡ none = rw users never' in
    elim (Option-cases (find_user c.id desk.users)) [
      | inl missing ↦ absurd (ground (arith, there, missing))
      | inr (u, present) ↦
          let still : find_user c.id r.desk.users ≡ some u = rw users present in
          rw (flipped, still, cutoff, found, only_row e'.first choice' r.id) refl
    ]
