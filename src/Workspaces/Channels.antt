-- ===== src/Workspaces/Channels.antt =====
-- The routes on the channels of a workspace and on their members.
use silent_whisper.Prelude.{
  ℕ, String, Bool, true, false, not, Option, none, some, is_some, if◌then◌else◌, update,
}
use silent_whisper.Text.{Text, text_eq}
use silent_whisper.Errors.{
  AppError, validation_error, not_found_error, Result, ok, err, ◌>>=◌, ◌>>◌, throw_if, or_throw,
}
use silent_whisper.Validation.{Param, Value, assert_uuid, assert_username, assert_name, assert_enum}
use silent_whisper.Authz.Database.{
  Db, Channel, ChannelType, public, user_by_id, user_by_username, action, channel_created,
  channel_renamed, channel_member, channel_created_event, channel_renamed_event,
  channel_membership_change,
}
use silent_whisper.Authz.Membership.{
  get_channel, is_channel_member, require_workspace_member_or_system_admin,
  require_workspace_not_archived, require_channel_member, require_channel_member_or_system_admin,
}
use silent_whisper.Workspaces.Tables.{
  Caller, Done, answer, no_body, channel_body, channel_name_body, append_audit_event,
  update_channel, insert_channel_member, delete_channel_member, lies_here, creatable_channel_types,
  when,
}
use silent_whisper.Workspaces.Lifecycle.{bad_workspace_id}
use silent_whisper.Workspaces.Members.{bad_user_id}

abbrev bad_channel_id : String
bad_channel_id = "channelId must be a valid UUID"

abbrev not_here : AppError
not_here = validation_error "Channel not found in this workspace"

-- POST /:workspaceId/channels, with the identifier that the database makes for the new row
unfoldable pub create_channel : ℕ → Caller → Param → Value → Value → Db → Result Done
create_channel new_id caller workspace_param name type db = do
  workspace_id ← assert_uuid workspace_param bad_workspace_id
  access ← require_workspace_member_or_system_admin db caller.id workspace_id
  require_workspace_not_archived db workspace_id
  name ← assert_name name "channel name must be 1-100 characters"
  type ← assert_enum type creatable_channel_types "type must be one of: PUBLIC, PRIVATE"
  let row : Channel = record { workspace_id = some workspace_id; name = name; type = type }
  let inserted = record db { channels = update db.channels new_id (some row) }
  answer 201 (channel_body new_id row (not access.via_system_admin_override)) (
      append_audit_event caller channel_created_event new_id (channel_created workspace_id type) (
        when (not access.via_system_admin_override)
          (insert_channel_member new_id caller.id inserted) inserted))

-- PATCH /:workspaceId/channels/:channelId
unfoldable pub rename_channel : Caller → Param → Param → Value → Db → Result Done
rename_channel caller workspace_param channel_param name db = do
  workspace_id ← assert_uuid workspace_param bad_workspace_id
  channel_id ← assert_uuid channel_param bad_channel_id
  channel ← require_channel_member_or_system_admin db caller.id channel_id
  throw_if (not (lies_here workspace_param workspace_id channel.workspace_id)) not_here
  require_workspace_not_archived db workspace_id
  name ← assert_name name "channel name must be 1-100 characters"
  answer 200 (channel_name_body channel_id workspace_id name) (
      when (not (text_eq channel.name name))
        (append_audit_event caller channel_renamed_event channel_id
          (channel_renamed workspace_id channel.name name)
          (update_channel channel_id (λ c. record c { name = name }) db))
        db)

abbrev pub is_public : ChannelType → Bool
is_public public = true
is_public _ = false

-- A channel that is missing or lies elsewhere is not found.
unfoldable pub channel_here : Param → ℕ → Option Channel → Result Channel
channel_here p workspace_id none = err not_here
channel_here p workspace_id (some c) =
    if lies_here p workspace_id c.workspace_id then ok c else err not_here

-- POST /:workspaceId/channels/:channelId/join
unfoldable pub join_channel : Caller → Param → Param → Db → Result Done
join_channel caller workspace_param channel_param db = do
  workspace_id ← assert_uuid workspace_param bad_workspace_id
  channel_id ← assert_uuid channel_param bad_channel_id
  require_workspace_member_or_system_admin db caller.id workspace_id
  require_workspace_not_archived db workspace_id
  channel ← channel_here workspace_param workspace_id (get_channel db channel_id)
  throw_if (not (is_public channel.type)) (
      validation_error "Only public channels can be self-joined; ask an existing member to add you")
  answer 204 no_body (
      when (not (is_channel_member db caller.id channel_id))
        (append_audit_event caller channel_membership_change channel_id (action "join")
          (insert_channel_member channel_id caller.id db))
        db)

-- The role of a user in the workspace of a channel.
unfoldable pub role_in : Db → Option ℕ → ℕ → Bool
role_in db none user_id = false
role_in db (some workspace_id) user_id = is_some (db.workspace_members workspace_id user_id)

unfoldable pub not_archived_in : Db → Option ℕ → Result (Unit {0})
not_archived_in db none = ok tt
not_archived_in db (some workspace_id) = require_workspace_not_archived db workspace_id

-- POST /:workspaceId/channels/:channelId/members
unfoldable pub add_channel_member : Caller → Param → Param → Value → Db → Result Done
add_channel_member caller workspace_param channel_param username db = do
  workspace_id ← assert_uuid workspace_param bad_workspace_id
  channel_id ← assert_uuid channel_param bad_channel_id
  username ← assert_username username
  channel ← require_channel_member_or_system_admin db caller.id channel_id
  throw_if (not (lies_here workspace_param workspace_id channel.workspace_id)) not_here
  not_archived_in db channel.workspace_id
  target ←
      or_throw (user_by_username username db.users)
        (validation_error "No user with that username exists")
  throw_if (not (role_in db channel.workspace_id target.id))
      (validation_error "Target user is not a member of this workspace")
  answer 204 no_body (
      when (not (is_channel_member db target.id channel_id))
        (append_audit_event caller channel_membership_change channel_id
          (channel_member "add" target.id target.username)
          (insert_channel_member channel_id target.id db))
        db)

-- channel_members joined with users
unfoldable pub channel_member_name : Db → ℕ → ℕ → Option Text
channel_member_name db channel_id user_id =
    if db.channel_members channel_id user_id
    then elim (user_by_id user_id db.users) [ none ↦ none | some u ↦ some u.username ]
    else none

-- DELETE /:workspaceId/channels/:channelId/members/:userId
unfoldable pub remove_channel_member : Caller → Param → Param → Param → Db → Result Done
remove_channel_member caller workspace_param channel_param user_param db = do
  workspace_id ← assert_uuid workspace_param bad_workspace_id
  channel_id ← assert_uuid channel_param bad_channel_id
  target_user_id ← assert_uuid user_param bad_user_id
  channel ← require_channel_member_or_system_admin db caller.id channel_id
  throw_if (not (lies_here workspace_param workspace_id channel.workspace_id)) not_here
  not_archived_in db channel.workspace_id
  name ←
      or_throw (channel_member_name db channel_id target_user_id)
        (not_found_error "Channel member not found")
  answer 204 no_body (
      append_audit_event caller channel_membership_change channel_id
        (channel_member "remove" target_user_id name)
        (delete_channel_member channel_id target_user_id db))

-- POST /:workspaceId/channels/:channelId/leave
unfoldable pub leave_channel : Caller → Param → Param → Db → Result Done
leave_channel caller workspace_param channel_param db = do
  workspace_id ← assert_uuid workspace_param bad_workspace_id
  channel_id ← assert_uuid channel_param bad_channel_id
  channel ← require_channel_member db caller.id channel_id
  throw_if (not (lies_here workspace_param workspace_id channel.workspace_id)) not_here
  not_archived_in db channel.workspace_id
  answer 204 no_body (
      append_audit_event caller channel_membership_change channel_id (action "leave")
        (delete_channel_member channel_id caller.id db))
