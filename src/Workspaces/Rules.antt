-- ===== src/Workspaces/Rules.antt =====
-- The rules of the workspaces, independent of the routes: who may make which change.
use silent_whisper.Prelude.{
  ℕ, ◌≡◌, ◌≢◌, ◌⊎◌, Bool, true, false, not, ◌&&◌, ◌||◌, none, some, is_some, update,
}
use silent_whisper.Text.{Text}
use silent_whisper.Authz.Permissions.{
  Role, owner, manager, member, Permission, workspace_manage_members, workspace_manage_managers,
  workspace_archive, workspace_transfer_ownership, workspace_change_visibility,
  workspace_manage_settings, workspace_role_permissions, same_permission, includes,
}
use silent_whisper.Authz.Database.{
  Db, Workspace, Visibility, discoverable, Channel, public, AuditEvent, record_event,
}
use silent_whisper.Authz.Membership.{
  is_system_admin_user, is_manager, delegates_archive, workspace_archived,
}
use silent_whisper.Workspaces.Tables.{
  update_workspace, update_channel, insert_member, update_role, remove_member,
  insert_channel_member, delete_channel_member, is_owner,
}
use silent_whisper.Workspaces.Members.{granting}

abbrev pub Exists : Db → ℕ → Type 0
Exists db w = is_some (db.workspaces w) ≡ true

abbrev pub IsAdmin : Db → ℕ → Type 0
IsAdmin db u = is_system_admin_user db u ≡ true

abbrev pub IsMember : Db → ℕ → ℕ → Type 0
IsMember db w u = is_some (db.workspace_members w u) ≡ true

abbrev pub Writable : Db → ℕ → Type 0
Writable db w = workspace_archived (db.workspaces w) ≡ false

-- A role that grants the permission; to archive, a manager also needs the workspace's delegation.
abbrev pub Grants : Db → ℕ → Role → Permission → Type 0
Grants db w r p =
    (includes (workspace_role_permissions r) p ≡ true)
    × ((is_manager r
          && same_permission p workspace_archive
          && not (delegates_archive (db.workspaces w)))
        ≡ false)

-- A system administrator may do everything to a workspace that is there, anybody else what the
-- own role grants.
abbrev pub Holds : Db → ℕ → ℕ → Permission → Type 0
Holds db u w p =
    (IsAdmin db u × Exists db w)
    ⊎ ((r : Role) × (db.workspace_members w u ≡ some r) × Grants db w r p)

abbrev pub Belongs : Db → ℕ → ℕ → Type 0
Belongs db u w = IsMember db w u ⊎ (IsAdmin db u × Exists db w)

-- Who may look after a channel.
abbrev pub Tends : Db → ℕ → ℕ → Type 0
Tends db u c = IsAdmin db u ⊎ (db.channel_members c u ≡ true)

-- One change of the tables by the user u.
pub data Change (u : ℕ) (db : Db) : Db → Type 0 where
  founded :
      (w : ℕ) (row : Workspace)
      → db.workspaces w ≡ none
      → row.owner_id ≡ u
      → Change u db
          (insert_member w u owner (record db { workspaces = update db.workspaces w (some row) }))
  subscribed :
      (w : ℕ) (ws : Workspace)
      → db.workspaces w ≡ some ws
      → ws.visibility ≡ discoverable
      → Writable db w
      → db.workspace_members w u ≡ none
      → Change u db (insert_member w u member db)
  archived :
      (w t : ℕ)
      → Holds db u w workspace_archive
      → Writable db w
      → Change u db
          (update_workspace w (λ x. record x { archived_at = some t; archived_by = some u }) db)
  unarchived :
      (w : ℕ)
      → Holds db u w workspace_archive
      → Change u db
          (update_workspace w (λ x. record x { archived_at = none; archived_by = none }) db)
  shown :
      (w : ℕ) (v : Visibility)
      → Holds db u w workspace_change_visibility
      → Writable db w
      → Change u db (update_workspace w (λ x. record x { visibility = v }) db)
  named :
      (w : ℕ) (n : Text)
      → Holds db u w workspace_manage_settings
      → Writable db w
      → Change u db (update_workspace w (λ x. record x { name = n }) db)
  enrolled :
      (w t : ℕ) (r : Role)
      → Holds db u w (granting r)
      → Writable db w
      → db.workspace_members w t ≡ none
      → is_owner r ≡ false
      → Change u db (insert_member w t r db)
  reassigned :
      (w t : ℕ) (r r' : Role)
      → Holds db u w workspace_manage_members
      → Writable db w
      → db.workspace_members w t ≡ some r
      → is_owner r ≡ false
      → is_owner r' ≡ false
      → ((is_manager r || is_manager r') ≡ false) ⊎ Holds db u w workspace_manage_managers
      → Change u db (update_role w t r' db)
  expelled :
      (w t : ℕ) (r : Role)
      → Holds db u w workspace_manage_members
      → Writable db w
      → db.workspace_members w t ≡ some r
      → is_owner r ≡ false
      → (is_manager r ≡ false) ⊎ Holds db u w workspace_manage_managers
      → Change u db (remove_member w t db)
  departed :
      (w : ℕ) (r : Role)
      → Writable db w
      → db.workspace_members w u ≡ some r
      → is_owner r ≡ false
      → Change u db (remove_member w u db)
  handed_over :
      (w t : ℕ) (ws : Workspace)
      → Holds db u w workspace_transfer_ownership
      → Writable db w
      → db.workspaces w ≡ some ws
      → IsMember db w t
      → t ≢ ws.owner_id
      → Change u db (
          update_workspace w
            (λ x. record x { owner_id = t })
            (update_role w t owner (update_role w ws.owner_id manager db)))
  opened :
      (w c : ℕ) (row : Channel)
      → Belongs db u w
      → Writable db w
      → db.channels c ≡ none
      → row.workspace_id ≡ some w
      → Change u db (record db { channels = update db.channels c (some row) })
  opened_and_joined :
      (w c : ℕ) (row : Channel)
      → IsMember db w u
      → Writable db w
      → db.channels c ≡ none
      → row.workspace_id ≡ some w
      → Change u db
          (insert_channel_member c u (record db { channels = update db.channels c (some row) }))
  channel_named :
      (w c : ℕ) (ch : Channel) (n : Text)
      → Tends db u c
      → db.channels c ≡ some ch
      → ch.workspace_id ≡ some w
      → Writable db w
      → Change u db (update_channel c (λ x. record x { name = n }) db)
  joined :
      (w c : ℕ) (ch : Channel)
      → Belongs db u w
      → Writable db w
      → db.channels c ≡ some ch
      → ch.workspace_id ≡ some w
      → ch.type ≡ public
      → Change u db (insert_channel_member c u db)
  brought_in :
      (w c t : ℕ) (ch : Channel)
      → Tends db u c
      → Writable db w
      → db.channels c ≡ some ch
      → ch.workspace_id ≡ some w
      → IsMember db w t
      → Change u db (insert_channel_member c t db)
  taken_out :
      (w c t : ℕ) (ch : Channel)
      → Tends db u c
      → Writable db w
      → db.channels c ≡ some ch
      → ch.workspace_id ≡ some w
      → Change u db (delete_channel_member c t db)

-- What a request leaves: the tables as they were, a change with an audit event in its author's
-- name, or the setting that lets managers archive, which has no event.
pub data Effect (u : ℕ) (db : Db) : Db → Type 0 where
  nothing : Effect u db db
  audited :
      {db' : Db} (e : AuditEvent)
      → e.actor_id ≡ u
      → Change u db db'
      → Effect u db (record_event e db')
  delegated :
      (w : ℕ) (b : Bool)
      → Holds db u w workspace_manage_settings
      → Effect u db (update_workspace w (λ x. record x { managers_can_archive = b }) db)
