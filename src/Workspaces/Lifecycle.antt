-- ===== src/Workspaces/Lifecycle.antt =====
-- The routes on a workspace itself.
use silent_whisper.Prelude.{
  ℕ, String, false, not, Option, none, some, is_some, List, [], ◌∷◌, if◌then◌else◌, update,
}
use silent_whisper.Text.{Text, text_eq}
use silent_whisper.Errors.{validation_error, Result, ok, err, ◌>>=◌, ◌>>◌}
use silent_whisper.Validation.{
  Param, Value, undefined, assert_uuid, assert_name, assert_boolean, assert_enum,
}
use silent_whisper.Authz.Permissions.{
  Role, owner, member, workspace_archive, workspace_change_visibility, workspace_manage_settings,
}
use silent_whisper.Authz.Database.{
  Db, Workspace, Visibility, discoverable, private, organizations_of, no_payload, action,
  visibility_changed, renamed, workspace_created, workspace_membership_change,
  workspace_archive_status_change, workspace_visibility_changed, workspace_renamed,
}
use silent_whisper.Authz.Membership.{
  workspace_not_found, get_workspace_role, require_org_member, require_org_not_archived,
  require_workspace_permission, require_workspace_not_archived,
}
use silent_whisper.Workspaces.Tables.{
  Caller, Done, answer, workspace_body, archived_body, visibility_body, settings_body, name_body,
  append_audit_event, update_workspace, insert_member, read_workspace, workspace_visibility,
  same_visibility, when,
}

abbrev pub bad_workspace_id : String
bad_workspace_id = "workspaceId must be a valid UUID"

-- The caller's only organization.
sole_organization : List ℕ → Result ℕ
sole_organization [] =
    err
      (validation_error "You do not belong to any organization; specify organizationId explicitly")
sole_organization (o ∷ []) = ok o
sole_organization (o ∷ _ ∷ _) =
    err (
      validation_error
        "You belong to more than one organization; specify organizationId explicitly")

unfoldable pub resolve_caller_organization : Db → ℕ → Option ℕ → Result ℕ
unfolding sole_organization
resolve_caller_organization db user_id (some requested) = do
  require_org_member db user_id requested
  ok requested
resolve_caller_organization db user_id none =
    sole_organization (organizations_of user_id db.organization_members)

-- `undefined` leaves the default
optional_visibility : Value → Result Visibility
optional_visibility undefined = ok private
optional_visibility v =
    assert_enum v workspace_visibility "visibility must be one of: DISCOVERABLE, PRIVATE"

optional_organization : Option Param → Result (Option ℕ)
optional_organization none = ok none
optional_organization (some p) = do
  id ← assert_uuid p "organizationId must be a valid UUID"
  ok (some id)

abbrev pub new_workspace : ℕ → Text → Visibility → ℕ → Workspace
new_workspace owner_id name visibility organization_id = record {
  name = name;
  owner_id = owner_id;
  organization_id = organization_id;
  visibility = visibility;
  managers_can_archive = false;
  archived_at = none;
  archived_by = none;
}

-- POST /, with the identifier that the database makes for the new row
unfoldable pub create_workspace : ℕ → Caller → Value → Value → Option Param → Db → Result Done
unfolding optional_visibility optional_organization
create_workspace new_id caller name visibility organization db = do
  name ← assert_name name "workspace name must be 1-100 characters"
  visibility ← optional_visibility visibility
  requested ← optional_organization organization
  organization_id ← resolve_caller_organization db caller.id requested
  require_org_not_archived db organization_id
  let row = new_workspace caller.id name visibility organization_id
  let inserted = record db { workspaces = update db.workspaces new_id (some row) }
  answer 201 (workspace_body new_id row owner) (
      append_audit_event caller workspace_created new_id no_payload
        (insert_member new_id caller.id owner inserted))

-- The workspace that a stranger may know of.
unfoldable pub discoverable_workspace : Option Workspace → Result Workspace
discoverable_workspace none = err workspace_not_found
discoverable_workspace (some w) =
    if same_visibility w.visibility discoverable then ok w else err workspace_not_found

-- What depends on the role that the caller already has.
unfoldable pub subscribed_reply : Caller → ℕ → Workspace → Option Role → Db → Result Done
subscribed_reply caller workspace_id workspace (some role) db =
    answer 200 (workspace_body workspace_id workspace role) db
subscribed_reply caller workspace_id workspace none db =
    answer 200 (workspace_body workspace_id workspace member) (
      append_audit_event caller workspace_membership_change workspace_id (action "subscribe")
        (insert_member workspace_id caller.id member db))

-- POST /:workspaceId/subscribe
unfoldable pub subscribe : Caller → Param → Db → Result Done
subscribe caller workspace_param db = do
  workspace_id ← assert_uuid workspace_param bad_workspace_id
  workspace ← discoverable_workspace (db.workspaces workspace_id)
  require_workspace_not_archived db workspace_id
  subscribed_reply caller workspace_id workspace (get_workspace_role db caller.id workspace_id) db

-- What depends on the time at which the workspace was archived.
unfoldable pub archived_reply : ℕ → Caller → ℕ → Option ℕ → Db → Result Done
archived_reply now caller workspace_id (some t) db =
    answer 200 (archived_body workspace_id (some t)) db
archived_reply now caller workspace_id none db =
    answer 200 (archived_body workspace_id (some now)) (
      append_audit_event caller workspace_archive_status_change workspace_id (action "archive") (
        update_workspace workspace_id
          (λ w. record w { archived_at = some now; archived_by = some caller.id }) db))

-- POST /:workspaceId/archive
unfoldable pub archive : ℕ → Caller → Param → Db → Result Done
archive now caller workspace_param db = do
  workspace_id ← assert_uuid workspace_param bad_workspace_id
  require_workspace_permission db caller.id workspace_id workspace_archive
  workspace ← read_workspace workspace_id db
  archived_reply now caller workspace_id workspace.archived_at db

-- POST /:workspaceId/unarchive
unfoldable pub unarchive : Caller → Param → Db → Result Done
unarchive caller workspace_param db = do
  workspace_id ← assert_uuid workspace_param bad_workspace_id
  require_workspace_permission db caller.id workspace_id workspace_archive
  workspace ← read_workspace workspace_id db
  answer 200 (archived_body workspace_id none) (
      when (is_some workspace.archived_at)
        (append_audit_event caller workspace_archive_status_change workspace_id (action "unarchive")
          (update_workspace workspace_id (λ w. record w { archived_at = none; archived_by = none })
            db))
        db)

-- POST /:workspaceId/visibility
unfoldable pub change_visibility : Caller → Param → Value → Db → Result Done
change_visibility caller workspace_param visibility db = do
  workspace_id ← assert_uuid workspace_param bad_workspace_id
  require_workspace_permission db caller.id workspace_id workspace_change_visibility
  require_workspace_not_archived db workspace_id
  visibility ←
      assert_enum visibility workspace_visibility "visibility must be one of: DISCOVERABLE, PRIVATE"
  workspace ← read_workspace workspace_id db
  answer 200 (visibility_body workspace_id visibility) (
      when (not (same_visibility workspace.visibility visibility))
        (append_audit_event caller workspace_visibility_changed workspace_id
          (visibility_changed workspace.visibility visibility)
          (update_workspace workspace_id (λ w. record w { visibility = visibility }) db))
        db)

-- POST /:workspaceId/settings
unfoldable pub change_settings : Caller → Param → Value → Db → Result Done
change_settings caller workspace_param managers_can_archive db = do
  workspace_id ← assert_uuid workspace_param bad_workspace_id
  require_workspace_permission db caller.id workspace_id workspace_manage_settings
  delegated ← assert_boolean managers_can_archive "managersCanArchive must be a boolean"
  answer 200 (settings_body workspace_id delegated)
      (update_workspace workspace_id (λ w. record w { managers_can_archive = delegated }) db)

-- PATCH /:workspaceId
unfoldable pub rename_workspace : Caller → Param → Value → Db → Result Done
rename_workspace caller workspace_param name db = do
  workspace_id ← assert_uuid workspace_param bad_workspace_id
  require_workspace_permission db caller.id workspace_id workspace_manage_settings
  require_workspace_not_archived db workspace_id
  name ← assert_name name "workspace name must be 1-100 characters"
  workspace ← read_workspace workspace_id db
  answer 200 (name_body workspace_id name) (
      when (not (text_eq workspace.name name))
        (append_audit_event caller workspace_renamed workspace_id (renamed workspace.name name)
          (update_workspace workspace_id (λ w. record w { name = name }) db))
        db)
