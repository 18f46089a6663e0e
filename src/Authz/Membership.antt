-- ===== src/Authz/Membership.antt =====
-- backend/src/authz/membershipService.js, one definition for each function.
use silent_whisper.Prelude.{
  ℕ, Bool, true, false, not, ◌&&◌, Option, none, some, is_some, if◌then◌else◌,
}
use silent_whisper.Errors.{
  AppError, forbidden_error, not_found_error, conflict_error, Result, ok, err, ◌>>=◌, ◌>>◌,
  throw_if, or_throw,
}
use silent_whisper.Authz.Permissions.{
  Role, manager, OrgRole, Permission, workspace_archive, workspace_role_permissions,
  org_role_permissions, same_permission, includes,
}
use silent_whisper.Authz.Database.{Db, Workspace, Organization, Channel, user_by_id, org_role_of}

-- What the permission checks return.
pub record Access : Type 0 where
  pub role : Option Role
  pub via_system_admin_override : Bool

pub record OrgAccess : Type 0 where
  pub role : Option OrgRole
  pub via_system_admin_override : Bool

abbrev pub workspace_not_found : AppError
workspace_not_found = not_found_error "Workspace not found"

abbrev pub organization_not_found : AppError
organization_not_found = not_found_error "Organization not found"

abbrev pub channel_not_found : AppError
channel_not_found = not_found_error "Channel not found"

unfoldable pub get_workspace_role : Db → ℕ → ℕ → Option Role
get_workspace_role db user_id workspace_id = db.workspace_members workspace_id user_id

unfoldable pub require_workspace_member : Db → ℕ → ℕ → Result Role
unfolding get_workspace_role
require_workspace_member db user_id workspace_id =
    or_throw (get_workspace_role db user_id workspace_id) workspace_not_found

unfoldable pub is_system_admin_user : Db → ℕ → Bool
is_system_admin_user db user_id = elim (user_by_id user_id db.users) [
  | none ↦ false
  | some u ↦ u.is_system_admin
]

abbrev pub is_manager : Role → Bool
is_manager manager = true
is_manager _ = false

-- workspace?.managers_can_archive
abbrev pub delegates_archive : Option Workspace → Bool
delegates_archive none = false
delegates_archive (some w) = w.managers_can_archive

abbrev pub override : Access
override = record { role = none; via_system_admin_override = true }

abbrev pub genuine : Role → Access
genuine r = record { role = some r; via_system_admin_override = false }

unfoldable pub require_workspace_permission : Db → ℕ → ℕ → Permission → Result Access
unfolding is_system_admin_user require_workspace_member
require_workspace_permission db user_id workspace_id permission =
    if is_system_admin_user db user_id
    then (do or_throw (db.workspaces workspace_id) workspace_not_found; ok override)
    else do
      role ← require_workspace_member db user_id workspace_id
      throw_if (not (includes (workspace_role_permissions role) permission))
          (forbidden_error "Insufficient workspace privileges")
      throw_if
          (is_manager role
            && same_permission permission workspace_archive
            && not (delegates_archive (db.workspaces workspace_id)))
          (forbidden_error "Archiving is not delegated to managers for this workspace")
      ok (genuine role)

-- Without a role: the override, for a system administrator and a workspace that is there.
override_or_hide : Db → ℕ → ℕ → Result Access
unfolding is_system_admin_user
override_or_hide db user_id workspace_id =
    if is_system_admin_user db user_id
    then (do or_throw (db.workspaces workspace_id) workspace_not_found; ok override)
    else err workspace_not_found

unfoldable pub require_workspace_member_or_system_admin : Db → ℕ → ℕ → Result Access
unfolding get_workspace_role override_or_hide
require_workspace_member_or_system_admin db user_id workspace_id =
    elim (get_workspace_role db user_id workspace_id) [
      | some role ↦ ok (genuine role)
      | none ↦ override_or_hide db user_id workspace_id
    ]

unfoldable pub require_system_admin : Db → ℕ → Result (Unit {0})
unfolding is_system_admin_user
require_system_admin db user_id =
    throw_if (not (is_system_admin_user db user_id))
      (forbidden_error "System admin privileges required")

unfoldable pub get_org_role : Db → ℕ → ℕ → Option OrgRole
unfolding org_role_of
get_org_role db user_id organization_id =
    org_role_of organization_id user_id db.organization_members

unfoldable pub require_org_member : Db → ℕ → ℕ → Result OrgRole
unfolding get_org_role
require_org_member db user_id organization_id =
    or_throw (get_org_role db user_id organization_id) organization_not_found

unfoldable pub require_org_permission : Db → ℕ → ℕ → Permission → Result OrgAccess
unfolding is_system_admin_user require_org_member
require_org_permission db user_id organization_id permission =
    if is_system_admin_user db user_id
    then (do
      or_throw (db.organizations organization_id) organization_not_found
      ok (record { role = none; via_system_admin_override = true }))
    else do
      role ← require_org_member db user_id organization_id
      throw_if (not (includes (org_role_permissions role) permission))
          (forbidden_error "Insufficient organization privileges")
      ok (record { role = some role; via_system_admin_override = false })

-- workspace?.archived_at
abbrev pub workspace_archived : Option Workspace → Bool
workspace_archived none = false
workspace_archived (some w) = is_some w.archived_at

abbrev pub org_archived : Option Organization → Bool
org_archived none = false
org_archived (some o) = is_some o.archived_at

unfoldable pub require_workspace_not_archived : Db → ℕ → Result (Unit {0})
require_workspace_not_archived db workspace_id =
    throw_if (workspace_archived (db.workspaces workspace_id))
      (conflict_error "This workspace is archived")

unfoldable pub require_org_not_archived : Db → ℕ → Result (Unit {0})
require_org_not_archived db organization_id =
    throw_if (org_archived (db.organizations organization_id))
      (conflict_error "This organization is archived")

unfoldable pub get_channel : Db → ℕ → Option Channel
get_channel db channel_id = db.channels channel_id

unfoldable pub is_channel_member : Db → ℕ → ℕ → Bool
is_channel_member db user_id channel_id = db.channel_members channel_id user_id

unfoldable pub require_channel_member : Db → ℕ → ℕ → Result Channel
unfolding get_channel is_channel_member
require_channel_member db user_id channel_id = do
  channel ← or_throw (get_channel db channel_id) channel_not_found
  throw_if (not (is_channel_member db user_id channel_id)) channel_not_found
  ok channel

unfoldable pub require_channel_member_or_system_admin : Db → ℕ → ℕ → Result Channel
unfolding is_system_admin_user get_channel require_channel_member
require_channel_member_or_system_admin db user_id channel_id =
    if is_system_admin_user db user_id
    then or_throw (get_channel db channel_id) channel_not_found
    else require_channel_member db user_id channel_id
