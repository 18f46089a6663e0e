-- ===== src/DirectMessages.antt =====
-- backend/src/routes/directMessages.js: conversations of two users and of groups, which are
-- channels without a workspace.
pub mod Seats
pub mod Pairs
pub mod Again
pub mod Groups
mod Examples
use silent_whisper.Prelude.{
  ℕ, ◌≡◌, ◌+◌, ◌*◌, ◌-◌, String, Bool, true, false, not, ◌&&◌, ◌||◌, Option, none, some, is_some,
  List, [], ◌∷◌, ◌++◌, ◌==◌, ltb, leb, length, has, map, if◌then◌else◌,
}
use silent_whisper.Errors.{
  AppError, validation_error, not_found_error, unhandled_error, Result, ok, err, ◌>>=◌, ◌>>◌,
  throw_if, or_throw,
}
use silent_whisper.Validation.{Param, uuid, respelled, is_plain, assert_uuid}
use silent_whisper.Authz.Database.{
  ChannelType, direct, group_dm, AuditEvent, Payload, direct_message_with, group_of,
  channel_membership_change,
}
use silent_whisper.Workspaces.Tables.{Caller}
use silent_whisper.Messages.{Message}

pub record DmUser : Type 0 where
  pub id : ℕ
  pub dm_auto_archive_days : Option ℕ

pub record DmChannel : Type 0 where
  pub id : ℕ
  pub workspace_id : Option ℕ
  pub type : ChannelType
  pub created_at : ℕ

-- A row of channel_members, with both columns as its key.
pub record Seat : Type 0 where
  pub channel_id : ℕ
  pub user_id : ℕ

pub record Desk : Type 0 where
  pub users : List DmUser
  pub channels : List DmChannel
  pub channel_members : List Seat
  pub messages : List Message
  pub log : List AuditEvent

-- The clock, the identifier that the database makes, the row that it gives first where a query
-- names no order, and config.dm.autoArchiveDefaultDays.
pub record Moment : Type 0 where
  pub now : ℕ
  pub new_id : ℕ
  pub first : List ℕ → Option ℕ
  pub auto_archive_default_days : ℕ

abbrev pub find_user : ℕ → List DmUser → Option DmUser
find_user id [] = none
find_user id (u ∷ us) = if u.id == id then some u else find_user id us

abbrev pub members_of : ℕ → List Seat → List ℕ
members_of c [] = []
members_of c (s ∷ ss) =
    let rest = members_of c ss in if s.channel_id == c then s.user_id ∷ rest else rest

abbrev pub or_default : ℕ → Option ℕ → ℕ
or_default d none = d
or_default d (some n) = n

unfoldable pub resolve_effective_archive_days : ℕ → Option DmUser → ℕ
resolve_effective_archive_days default_days none = default_days
resolve_effective_archive_days default_days (some u) =
    or_default default_days u.dm_auto_archive_days

-- A time before the epoch is the epoch, which no row is older than.
unfoldable pub archive_cutoff : ℕ → ℕ → Option ℕ
archive_cutoff now days = if days == 0 then none else some (now - days * 24 * 60 * 60 * 1000)

abbrev pub cutoff_for : Moment → ℕ → Desk → Option ℕ
cutoff_for e id desk =
    archive_cutoff e.now
      (resolve_effective_archive_days e.auto_archive_default_days (find_user id desk.users))

abbrev pub later : ℕ → Option ℕ → Option ℕ
later t none = some t
later t (some u) = some (if leb t u then u else t)

-- max(created_at) of the messages of a channel outside threads
abbrev pub latest : ℕ → List Message → Option ℕ
latest c [] = none
latest c (m ∷ ms) =
    let rest = latest c ms in
    if m.channel_id == c && not (is_some m.parent_message_id) then later m.created_at rest else rest

abbrev pub is_awake : Option ℕ → List Message → DmChannel → Bool
is_awake none ms c = true
is_awake (some cutoff) ms c = leb cutoff (or_default c.created_at (latest c.id ms))

abbrev pub is_direct : ChannelType → Bool
is_direct direct = true
is_direct _ = false

abbrev pub is_pair : ℕ → ℕ → List ℕ → Bool
is_pair a b us = has us a && has us b && length us == 2

-- The conditions of the query in findExistingDirectChannel.
abbrev pub connects : ℕ → ℕ → Option ℕ → List Seat → List Message → DmChannel → Bool
connects a b cutoff ss ms c =
    is_direct c.type
    && not (is_some c.workspace_id)
    && is_pair a b (members_of c.id ss)
    && is_awake cutoff ms c

-- The channels that the query of findExistingDirectChannel selects.
abbrev pub connecting : ℕ → ℕ → Option ℕ → List Seat → List Message → List DmChannel → List ℕ
connecting a b cutoff ss ms [] = []
connecting a b cutoff ss ms (c ∷ cs) =
    let rest = connecting a b cutoff ss ms cs in
    if connects a b cutoff ss ms c then c.id ∷ rest else rest

-- The query names no order, so that the database chooses which row is the first.
unfoldable pub find_existing_direct_channel :
    (List ℕ → Option ℕ) → ℕ → ℕ → Option ℕ → List Seat → List Message → List DmChannel → Option ℕ
find_existing_direct_channel first a b cutoff ss ms cs = first (connecting a b cutoff ss ms cs)

-- What a database does that chooses: it gives a row where there are rows, and one of them.
pub record IsChoice (first : List ℕ → Option ℕ) : Type 0 where
  pub no_row : first [] ≡ none
  pub some_row : (i : ℕ) (is : List ℕ) → is_some (first (i ∷ is)) ≡ true
  pub of_rows : (is : List ℕ) (i : ℕ) → first is ≡ some i → has is i ≡ true

abbrev pub is_channel : ℕ → List DmChannel → Bool
is_channel id [] = false
is_channel id (c ∷ cs) = c.id == id || is_channel id cs

abbrev pub repeats : List ℕ → Bool
repeats [] = false
repeats (u ∷ us) = has us u || repeats us

abbrev pub seats_in : ℕ → List ℕ → List Seat
seats_in c [] = []
seats_in c (u ∷ us) = record { channel_id = c; user_id = u } ∷ seats_in c us

-- The two inserts and the audit event; a key that is there already is an error.
unfoldable pub insert_channel :
    Moment → Caller → ChannelType → List ℕ → Payload → Desk → Result Desk
insert_channel e caller type us payload desk = do
  throw_if (is_channel e.new_id desk.channels || repeats us) unhandled_error
  ok (record desk {
    channels =
        desk.channels
        ++ record { id = e.new_id; workspace_id = none; type = type; created_at = e.now } ∷ [];
    channel_members = desk.channel_members ++ seats_in e.new_id us;
    log =
        desk.log
        ++ record {
          actor_id = caller.id;
          actor_ip = caller.ip;
          action_type = channel_membership_change;
          target_resource = e.new_id;
          payload = payload;
        }
          ∷ [];
  })

-- What POST / answers, and the tables after it.
pub record Started : Type 0 where
  pub desk : Desk
  pub id : ℕ
  pub created : Bool

unfoldable pub reuse_or_open : Moment → Caller → ℕ → Desk → Option ℕ → Result Started
reuse_or_open e caller target desk (some id) = ok (record { desk = desk; id = id; created = false })
reuse_or_open e caller target desk none = do
  opened ←
      insert_channel e caller direct (caller.id ∷ target ∷ []) (direct_message_with target) desk
  ok (record { desk = opened; id = e.new_id; created = true })

-- POST /direct-messages
unfoldable pub start_direct : Moment → Caller → Param → Desk → Result Started
start_direct e caller target_param desk = do
  target ← assert_uuid target_param "targetUserId must be a valid UUID"
  throw_if (is_plain target_param && target == caller.id)
      (validation_error "Cannot start a direct message with yourself")
  or_throw (find_user target desk.users) (not_found_error "User not found")
  reuse_or_open e caller target desk (
      find_existing_direct_channel e.first caller.id target (cutoff_for e caller.id desk)
        desk.channel_members desk.messages desk.channels)

abbrev pub max_group_dm_members : ℕ
max_group_dm_members = 20

unfoldable pub assert_uuids : List Param → Result (List Param)
assert_uuids [] = ok []
assert_uuids (p ∷ ps) = do
  assert_uuid p "memberIds[] must be a valid UUID"
  rest ← assert_uuids ps
  ok (p ∷ rest)

abbrev pub same_text : Param → Param → Bool
same_text (uuid a) (uuid b) = a == b
same_text (respelled a) (respelled b) = a == b
same_text _ _ = false

abbrev pub drop_text : Param → List Param → List Param
drop_text q [] = []
drop_text q (p ∷ ps) = let rest = drop_text q ps in if same_text p q then rest else p ∷ rest

-- [...new Set(texts)]: the first of equal texts stays.
abbrev pub without_repeats : List Param → List Param
without_repeats [] = []
without_repeats (p ∷ ps) = p ∷ drop_text p (without_repeats ps)

-- The identifiers of the texts that are not the caller's identifier.
abbrev pub others : ℕ → List Param → List ℕ
others caller [] = []
others caller (uuid n ∷ ps) = let rest = others caller ps in if n == caller then rest else n ∷ rest
others caller (respelled n ∷ ps) = n ∷ others caller ps
others caller (_ ∷ ps) = others caller ps

-- The number of users whose identifier is in the list.
abbrev pub users_in : List DmUser → List ℕ → ℕ
users_in [] ids = 0
users_in (u ∷ us) ids = let rest = users_in us ids in if has ids u.id then rest + 1 else rest

-- POST /group-direct-messages; a body without a list is `none`
unfoldable pub start_group : Moment → Caller → Option (List Param) → Desk → Result Desk
start_group e caller member_ids desk = do
  ids ← or_throw member_ids (validation_error "memberIds must be a non-empty array")
  throw_if (length ids == 0) (validation_error "memberIds must be a non-empty array")
  throw_if (ltb max_group_dm_members (length ids))
      (validation_error "memberIds must include at most 20 users")
  ids ← assert_uuids ids
  let targets = others caller.id (without_repeats ids)
  throw_if (length targets == 0) (validation_error "memberIds must include at least one other user")
  throw_if (not (users_in desk.users targets == length targets))
      (validation_error "One or more memberIds do not exist")
  insert_channel e caller group_dm (caller.id ∷ targets) (group_of targets) desk
