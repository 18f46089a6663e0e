-- ===== src/Workspaces/Members.antt =====
-- The routes on the members of a workspace.
use silent_whisper.Prelude.{
  ℕ, String, Bool, true, false, ◌||◌, Option, none, some, is_some, ◌==◌, if◌then◌else◌,
}
use silent_whisper.Text.{Text}
use silent_whisper.Errors.{
  validation_error, not_found_error, conflict_error, unhandled_error, Result, ok, ◌>>=◌, ◌>>◌,
  throw_if, or_throw,
}
use silent_whisper.Validation.{Param, Value, undefined, assert_uuid, assert_username, assert_enum}
use silent_whisper.Authz.Permissions.{
  Role, owner, manager, member, Permission, workspace_manage_members, workspace_manage_managers,
  workspace_transfer_ownership,
}
use silent_whisper.Authz.Database.{
  Db, User, user_by_id, user_by_username, added, role_changed, removed, transferred,
  workspace_membership_change, workspace_ownership_transferred,
}
use silent_whisper.Authz.Membership.{
  is_manager, get_workspace_role, require_workspace_member, require_workspace_permission,
  require_workspace_not_archived,
}
use silent_whisper.Workspaces.Tables.{
  Caller, Done, answer, no_body, member_body, owner_body, append_audit_event, update_workspace,
  insert_member, update_role, remove_member, read_workspace, assignable_workspace_roles, is_owner,
}
use silent_whisper.Workspaces.Lifecycle.{bad_workspace_id}

abbrev pub bad_user_id : String
bad_user_id = "userId must be a valid UUID"

abbrev pub role_message : String
role_message = "role must be one of: MANAGER, MEMBER"

unfoldable pub optional_role : Value → Result Role
optional_role undefined = ok member
optional_role v = assert_enum v assignable_workspace_roles role_message

-- The permission that granting a role wants.
abbrev pub granting : Role → Permission
granting r = if is_manager r then workspace_manage_managers else workspace_manage_members

-- A member's role with the user's name.
pub record MemberRow : Type 0 where
  pub username : Text
  pub system_role : Role

abbrev pub with_name : Role → Option User → Option MemberRow
with_name r none = none
with_name r (some u) = some (record { username = u.username; system_role = r })

-- workspace_members joined with users
unfoldable pub member_row : Db → ℕ → ℕ → Option MemberRow
member_row db workspace_id user_id = elim (db.workspace_members workspace_id user_id) [
  | none ↦ none
  | some r ↦ with_name r (user_by_id user_id db.users)
]

-- POST /:workspaceId/members
unfoldable pub add_member : Caller → Param → Value → Value → Db → Result Done
add_member caller workspace_param username role db = do
  workspace_id ← assert_uuid workspace_param bad_workspace_id
  username ← assert_username username
  role ← optional_role role
  require_workspace_permission db caller.id workspace_id (granting role)
  require_workspace_not_archived db workspace_id
  target ←
      or_throw (user_by_username username db.users)
        (validation_error "No user with that username exists")
  throw_if (is_some (get_workspace_role db target.id workspace_id))
      (conflict_error "User is already a member of this workspace")
  answer 201 (member_body target.id target.username role) (
      append_audit_event caller workspace_membership_change workspace_id
        (added target.id target.username role) (insert_member workspace_id target.id role db))

-- The second permission, which only some requests need.
unfoldable pub also_require : Bool → Result (Unit {0}) → Result (Unit {0})
also_require true check = check
also_require false check = ok tt

unfoldable pub require_manage_managers : Db → ℕ → ℕ → Result (Unit {0})
require_manage_managers db user_id workspace_id = do
  require_workspace_permission db user_id workspace_id workspace_manage_managers
  ok tt

-- PATCH /:workspaceId/members/:userId
unfoldable pub change_role : Caller → Param → Param → Value → Db → Result Done
change_role caller workspace_param user_param role db = do
  workspace_id ← assert_uuid workspace_param bad_workspace_id
  target_user_id ← assert_uuid user_param bad_user_id
  require_workspace_permission db caller.id workspace_id workspace_manage_members
  require_workspace_not_archived db workspace_id
  role ← assert_enum role assignable_workspace_roles role_message
  target ←
      or_throw (member_row db workspace_id target_user_id)
        (not_found_error "Workspace member not found")
  throw_if (is_owner target.system_role) (
      conflict_error
        "Cannot change the workspace owner's role directly; use POST /:workspaceId/transfer-ownership to change ownership")
  also_require (is_manager target.system_role || is_manager role)
      (require_manage_managers db caller.id workspace_id)
  answer 200 (member_body target_user_id target.username role) (
      append_audit_event caller workspace_membership_change workspace_id
        (role_changed target_user_id target.username target.system_role role)
        (update_role workspace_id target_user_id role db))

-- DELETE /:workspaceId/members/:userId
unfoldable pub delete_member : Caller → Param → Param → Db → Result Done
delete_member caller workspace_param user_param db = do
  workspace_id ← assert_uuid workspace_param bad_workspace_id
  target_user_id ← assert_uuid user_param bad_user_id
  require_workspace_permission db caller.id workspace_id workspace_manage_members
  require_workspace_not_archived db workspace_id
  target ←
      or_throw (member_row db workspace_id target_user_id)
        (not_found_error "Workspace member not found")
  throw_if (is_owner target.system_role)
      (conflict_error "Cannot remove the workspace owner; transfer ownership first")
  also_require (is_manager target.system_role) (require_manage_managers db caller.id workspace_id)
  answer 204 no_body (
      append_audit_event caller workspace_membership_change workspace_id
        (removed "remove" target_user_id target.username)
        (remove_member workspace_id target_user_id db))

-- POST /:workspaceId/leave
unfoldable pub leave_workspace : Caller → Param → Db → Result Done
leave_workspace caller workspace_param db = do
  workspace_id ← assert_uuid workspace_param bad_workspace_id
  require_workspace_member db caller.id workspace_id
  require_workspace_not_archived db workspace_id
  target ← or_throw (member_row db workspace_id caller.id) unhandled_error
  throw_if (is_owner target.system_role)
      (conflict_error "Cannot leave a workspace you own; transfer ownership first")
  answer 204 no_body (
      append_audit_event caller workspace_membership_change workspace_id
        (removed "leave" caller.id target.username) (remove_member workspace_id caller.id db))

-- POST /:workspaceId/transfer-ownership
unfoldable pub transfer_ownership : Caller → Param → Value → Db → Result Done
transfer_ownership caller workspace_param username db = do
  workspace_id ← assert_uuid workspace_param bad_workspace_id
  require_workspace_permission db caller.id workspace_id workspace_transfer_ownership
  require_workspace_not_archived db workspace_id
  workspace ← read_workspace workspace_id db
  let current_owner_id = workspace.owner_id
  username ← assert_username username
  target ←
      or_throw (user_by_username username db.users)
        (validation_error "No user with that username exists")
  or_throw (get_workspace_role db target.id workspace_id)
      (validation_error "Target user is not a member of this workspace")
  throw_if (target.id == current_owner_id)
      (validation_error "Target user is already the workspace owner")
  answer 200 (owner_body workspace_id target.id) (
      append_audit_event caller workspace_ownership_transferred workspace_id
        (transferred current_owner_id target.id target.username)
        (update_workspace workspace_id (λ w. record w { owner_id = target.id })
          (update_role workspace_id target.id owner
            (update_role workspace_id current_owner_id manager db))))
