-- ===== src/Workspaces/Tables.antt =====
-- What the workspace routes have in common: the caller, the writes, and the replies.
use silent_whisper.Prelude.{
  ℕ, Bool, true, false, ◌&&◌, Option, none, some, List, [], ◌∷◌, ◌==◌, if◌then◌else◌, update,
  update₂,
}
use silent_whisper.Text.{Text, codes}
use silent_whisper.Errors.{unhandled_error, Result, ok, or_throw}
use silent_whisper.Validation.{Param, is_plain}
use silent_whisper.Authz.Permissions.{Role, owner, manager, member}
use silent_whisper.Authz.Database.{
  Db, Workspace, Channel, ChannelType, public, private_channel, Visibility, discoverable, private,
  ActionType, Payload, record_event,
}

-- req.user.id and req.ip
pub record Caller : Type 0 where
  pub id : ℕ
  pub ip : Text

pub data Body : Type 0 where
  no_body : Body
  workspace_body : ℕ → Workspace → Role → Body
  archived_body : ℕ → Option ℕ → Body
  member_body : ℕ → Text → Role → Body
  owner_body : ℕ → ℕ → Body
  visibility_body : ℕ → Visibility → Body
  settings_body : ℕ → Bool → Body
  name_body : ℕ → Text → Body
  channel_body : ℕ → Channel → Bool → Body
  channel_name_body : ℕ → ℕ → Text → Body

-- What a route leaves: the tables, and its answer.
pub record Done : Type 0 where
  pub db : Db
  pub status : ℕ
  pub body : Body

abbrev pub answer : ℕ → Body → Db → Result Done
answer code body db = ok (record { db = db; status = code; body = body })

-- appendAuditEvent(db, { … })
unfoldable pub append_audit_event : Caller → ActionType → ℕ → Payload → Db → Db
unfolding record_event
append_audit_event caller type target payload db =
    record_event
      (record {
        actor_id = caller.id;
        actor_ip = caller.ip;
        action_type = type;
        target_resource = target;
        payload = payload;
      })
      db

abbrev pub map_row {ℓ} : {A : Type ℓ} → (A → A) → Option A → Option A
map_row f none = none
map_row f (some a) = some (f a)

-- db('workspaces').where({ id }).update(…)
unfoldable pub update_workspace : ℕ → (Workspace → Workspace) → Db → Db
update_workspace id f db = record db {
  workspaces = update db.workspaces id (map_row f (db.workspaces id));
}

unfoldable pub update_channel : ℕ → (Channel → Channel) → Db → Db
update_channel id f db = record db { channels = update db.channels id (map_row f (db.channels id)) }

-- db('workspace_members').insert(…)
unfoldable pub insert_member : ℕ → ℕ → Role → Db → Db
insert_member workspace_id user_id role db = record db {
  workspace_members = update₂ db.workspace_members workspace_id user_id (some role);
}

-- db('workspace_members').where(…).update({ system_role })
unfoldable pub update_role : ℕ → ℕ → Role → Db → Db
update_role workspace_id user_id role db = record db {
  workspace_members =
      update₂ db.workspace_members workspace_id user_id
        (map_row (λ _. role) (db.workspace_members workspace_id user_id));
}

unfoldable pub insert_channel_member : ℕ → ℕ → Db → Db
insert_channel_member channel_id user_id db = record db {
  channel_members = update₂ db.channel_members channel_id user_id true;
}

unfoldable pub delete_channel_member : ℕ → ℕ → Db → Db
delete_channel_member channel_id user_id db = record db {
  channel_members = update₂ db.channel_members channel_id user_id false;
}

-- A write under a condition.
unfoldable pub when : Bool → Db → Db → Db
when true written db = written
when false written db = db

-- The workspace of a channel.
abbrev pub lies_in : ℕ → Option ℕ → Bool
lies_in workspace_id none = false
lies_in workspace_id (some w) = w == workspace_id

-- channel.workspace_id === workspaceId
abbrev pub lies_here : Param → ℕ → Option ℕ → Bool
lies_here workspace_param workspace_id w = is_plain workspace_param && lies_in workspace_id w

abbrev pub channel_lies_in : ℕ → Option Channel → Bool
channel_lies_in workspace_id none = false
channel_lies_in workspace_id (some c) = lies_in workspace_id c.workspace_id

-- The transaction that takes a member out of a workspace and of all its channels.
unfoldable pub remove_member : ℕ → ℕ → Db → Db
remove_member workspace_id user_id db = record db {
  channel_members = λ c u.
      if u == user_id && channel_lies_in workspace_id (db.channels c)
      then false
      else db.channel_members c u;
  workspace_members = update₂ db.workspace_members workspace_id user_id none;
}

-- The row that a route reads after its checks; a missing one is a TypeError.
abbrev pub read_workspace : ℕ → Db → Result Workspace
read_workspace workspace_id db = or_throw (db.workspaces workspace_id) unhandled_error

-- ASSIGNABLE_WORKSPACE_ROLES, WORKSPACE_VISIBILITY and CREATABLE_CHANNEL_TYPES
abbrev pub assignable_workspace_roles : List (Text × Role)
assignable_workspace_roles = (codes "MANAGER", manager) ∷ (codes "MEMBER", member) ∷ []

abbrev pub workspace_visibility : List (Text × Visibility)
workspace_visibility = (codes "DISCOVERABLE", discoverable) ∷ (codes "PRIVATE", private) ∷ []

abbrev pub creatable_channel_types : List (Text × ChannelType)
creatable_channel_types = (codes "PUBLIC", public) ∷ (codes "PRIVATE", private_channel) ∷ []

abbrev pub same_visibility : Visibility → Visibility → Bool
same_visibility discoverable discoverable = true
same_visibility private private = true
same_visibility _ _ = false

abbrev pub is_owner : Role → Bool
is_owner owner = true
is_owner _ = false
