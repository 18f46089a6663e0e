-- ===== src/Authz/Database.antt =====
-- The tables that the authorization and the workspace routes read and write. A table with a
-- unique key is a function of the key; one that is searched is a list of rows.
use silent_whisper.Prelude.{
  ℕ, String, Bool, Option, none, some, List, [], ◌∷◌, ◌++◌, ◌⊎◌, ◌==◌, ◌&&◌, if◌then◌else◌,
}
use silent_whisper.Text.{Text, text_eq}
use silent_whisper.Authz.Permissions.{Role, OrgRole}

pub record User : Type 0 where
  pub id : ℕ
  pub username : Text
  pub is_system_admin : Bool

pub record Organization : Type 0 where
  pub name : Text
  pub archived_at : Option ℕ
  pub archived_by : Option ℕ

pub record OrgMember : Type 0 where
  pub organization_id : ℕ
  pub user_id : ℕ
  pub org_role : OrgRole

pub data Visibility : Type 0 where
  discoverable private : Visibility

pub record Workspace : Type 0 where
  pub name : Text
  pub owner_id : ℕ
  pub organization_id : ℕ
  pub visibility : Visibility
  pub managers_can_archive : Bool
  pub archived_at : Option ℕ
  pub archived_by : Option ℕ

pub data ChannelType : Type 0 where
  public private_channel direct group_dm : ChannelType

pub record Channel : Type 0 where
  pub workspace_id : Option ℕ
  pub name : Text
  pub type : ChannelType

-- What the routes put into the payload of an audit event.
pub data Payload : Type 0 where
  no_payload : Payload
  action : String → Payload
  added : ℕ → Text → Role → Payload
  role_changed : ℕ → Text → Role → Role → Payload
  removed : String → ℕ → Text → Payload
  transferred : ℕ → ℕ → Text → Payload
  visibility_changed : Visibility → Visibility → Payload
  renamed : Text → Text → Payload
  channel_created : ℕ → ChannelType → Payload
  channel_renamed : ℕ → Text → Text → Payload
  channel_member : String → ℕ → Text → Payload
  invited : ℕ → Text → Role → Payload
  invitation_resolved : String → ℕ → OrgRole ⊎ Role → Payload
  organization_named : Text → Payload
  direct_message_with : ℕ → Payload
  group_of : List ℕ → Payload
  invitation_made : ℕ → OrgRole ⊎ Role → Payload
  invitation_scope : String → Payload
  org_member_added : ℕ → Text → OrgRole → Payload
  org_role_changed : ℕ → Text → OrgRole → OrgRole → Payload
  task_toggled : ℕ → ℕ → Bool → Payload
  content_edited : ℕ → ℕ → ℕ → Payload

pub data ActionType : Type 0 where
  workspace_created workspace_membership_change workspace_archive_status_change : ActionType
  workspace_ownership_transferred workspace_visibility_changed workspace_renamed : ActionType
  channel_created_event channel_renamed_event channel_membership_change : ActionType
  organization_membership_change message_task_toggled message_edited : ActionType
  organization_created organization_renamed organization_archive_status_change : ActionType
  invitation_created invitation_redeemed invitation_revoked : ActionType

-- A call of `appendAuditEvent`.
pub record AuditEvent : Type 0 where
  pub actor_id : ℕ
  pub actor_ip : Text
  pub action_type : ActionType
  pub target_resource : ℕ
  pub payload : Payload

pub record Db : Type 0 where
  pub users : List User
  pub organizations : ℕ → Option Organization
  pub organization_members : List OrgMember
  pub workspaces : ℕ → Option Workspace
  pub workspace_members : ℕ → ℕ → Option Role
  pub channels : ℕ → Option Channel
  pub channel_members : ℕ → ℕ → Bool
  pub audit_events : List AuditEvent

-- db('users').where({ id }).first()
unfoldable pub user_by_id : ℕ → List User → Option User
user_by_id i [] = none
user_by_id i (u ∷ us) = if u.id == i then some u else user_by_id i us

-- db('users').where({ username }).first()
unfoldable pub user_by_username : Text → List User → Option User
user_by_username n [] = none
user_by_username n (u ∷ us) = if text_eq u.username n then some u else user_by_username n us

unfoldable pub org_role_of : ℕ → ℕ → List OrgMember → Option OrgRole
org_role_of organization_id user_id [] = none
org_role_of organization_id user_id (m ∷ ms) =
    if m.organization_id == organization_id && m.user_id == user_id
    then some m.org_role
    else org_role_of organization_id user_id ms

-- The organizations of a user, for `resolveCallerOrganization`.
unfoldable pub organizations_of : ℕ → List OrgMember → List ℕ
organizations_of user_id [] = []
organizations_of user_id (m ∷ ms) =
    let rest = organizations_of user_id ms in
    if m.user_id == user_id then m.organization_id ∷ rest else rest

unfoldable pub record_event : AuditEvent → Db → Db
record_event e db = record db { audit_events = db.audit_events ++ e ∷ [] }
