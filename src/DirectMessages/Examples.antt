-- ===== src/DirectMessages/Examples.antt =====
-- Three users, two of whom talk to each other.
use silent_whisper.Prelude.{
  ℕ, ◌≡◌, refl, has, List, Option, arith, ==_refl, true, false, none, some, [], ◌∷◌,
}
use silent_whisper.Text.{codes}
use silent_whisper.Errors.{ok, err, Ensures, Ensures-ok, ◌>>=◌, or_throw, throw_if}
use silent_whisper.Validation.{uuid, respelled, assert_uuid}
use silent_whisper.Workspaces.Tables.{Caller}
use silent_whisper.DirectMessages.{
  Desk, Moment, cutoff_for, members_of, Started, resolve_effective_archive_days, archive_cutoff,
  IsChoice, find_existing_direct_channel, insert_channel, reuse_or_open, start_direct, start_group,
  assert_uuids,
}
use silent_whisper.DirectMessages.Seats.{housed}
use silent_whisper.DirectMessages.Pairs.{Meets, start_direct-Meets}
use silent_whisper.DirectMessages.Again.{start_direct_again}
use silent_whisper.DirectMessages.Groups.{IsGroup, start_group-IsGroup}

abbrev ann : Caller
ann = record { id = 1; ip = codes "::1" }

abbrev bob : Caller
bob = record { id = 2; ip = codes "::1" }

-- Nobody archives conversations.
abbrev desk : Desk
desk = record {
  users =
      record { id = 1; dm_auto_archive_days = some 0 }
      ∷ record { id = 2; dm_auto_archive_days = none }
      ∷ record { id = 3; dm_auto_archive_days = some 0 }
      ∷ [];
  channels = [];
  channel_members = [];
  messages = [];
  log = [];
}

abbrev head : List ℕ → Option ℕ
head [] = none
head (i ∷ is) = some i

has-head : (is : List ℕ) (i : ℕ) → head is ≡ some i → has is i ≡ true
has-head [] i e = absurd (cc)
has-head (j ∷ is) i e = let same : j ≡ i = cc in rw same (rw (==_refl i) refl)

head-IsChoice : IsChoice head
head-IsChoice = record { no_row = refl; some_row = λ i is. refl; of_rows = has-head }

abbrev moment : Moment
moment = record { now = 1000; new_id = 50; first = head; auto_archive_default_days = 0 }

abbrev next_moment : Moment
next_moment = record moment { now = 2000; new_id = 51 }

abbrev opened : Started
opened = elim (start_direct moment ann (uuid 2) desk) [
  | ok r ↦ r
  | err e ↦ record { desk = desk; id = 0; created = false }
]

opened_for_two : members_of 50 opened.desk.channel_members ≡ 1 ∷ 2 ∷ []
unfolding start_direct reuse_or_open insert_channel find_existing_direct_channel assert_uuid ◌>>=◌
    or_throw throw_if
opened_for_two = refl

-- Ann asks for a conversation with herself, by her identifier in upper case, and gets Bob's.
respelled_self_meets_another :
    start_direct next_moment ann (respelled 1) opened.desk
    ≡ ok (record { desk = opened.desk; id = 50; created = false })
unfolding start_direct reuse_or_open insert_channel find_existing_direct_channel assert_uuid
    archive_cutoff resolve_effective_archive_days ◌>>=◌ or_throw throw_if
respelled_self_meets_another = refl

start_direct-Meets_example : Ensures (start_direct moment ann (uuid 2) desk) (Meets 1 2)
start_direct-Meets_example = start_direct-Meets moment ann 2 desk head-IsChoice refl

opened_lem : start_direct moment ann (uuid 2) desk ≡ ok opened
unfolding start_direct reuse_or_open insert_channel find_existing_direct_channel assert_uuid ◌>>=◌
    or_throw throw_if
opened_lem = refl

never_archives : cutoff_for moment 1 desk ≡ none
unfolding archive_cutoff resolve_effective_archive_days
never_archives = refl

never_archives_either : cutoff_for next_moment 2 desk ≡ none
unfolding archive_cutoff resolve_effective_archive_days
never_archives_either = refl

start_direct_again_example :
    start_direct next_moment bob (uuid 1) opened.desk
    ≡ ok (record { desk = opened.desk; id = opened.id; created = false })
start_direct_again_example =
    start_direct_again moment next_moment ann bob desk opened head-IsChoice head-IsChoice refl
      never_archives never_archives_either (omega arith) refl opened_lem

group_of_three :
    Ensures
      (start_group moment ann (some (uuid 2 ∷ uuid 2 ∷ uuid 1 ∷ uuid 3 ∷ [])) desk)
      (λ d. members_of 50 d.channel_members ≡ 1 ∷ 2 ∷ 3 ∷ [])
unfolding start_group insert_channel assert_uuids assert_uuid ◌>>=◌ or_throw throw_if
group_of_three = Ensures-ok _ refl

start_group-IsGroup_example :
    Ensures (start_group moment ann (some (uuid 2 ∷ uuid 2 ∷ uuid 1 ∷ uuid 3 ∷ [])) desk) (λ d.
      (housed d.channels d.channel_members ≡ true) × IsGroup 1 (members_of 50 d.channel_members))
start_group-IsGroup_example =
    start_group-IsGroup moment ann (some (uuid 2 ∷ uuid 2 ∷ uuid 1 ∷ uuid 3 ∷ [])) desk refl
