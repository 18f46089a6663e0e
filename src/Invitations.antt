-- ===== src/Invitations.antt =====
-- backend/src/routes/membershipInvitations.js, and the route of backend/src/routes/workspaces.js
-- that makes an invitation into a workspace.
pub mod Answered
pub mod Granted
mod Examples
use silent_whisper.Prelude.{
  ℕ, String, Bool, true, false, not, ◌&&◌, ◌||◌, Option, none, some, is_some, List, [], ◌∷◌, ◌++◌,
  ◌⊎◌, inl, inr, ◌==◌, if◌then◌else◌,
}
use silent_whisper.Text.{Text}
use silent_whisper.Errors.{
  AppError, validation_error, not_found_error, conflict_error, Result, ok, err, ◌>>=◌, ◌>>◌,
  throw_if, or_throw,
}
use silent_whisper.Validation.{Param, Value, assert_uuid}
use silent_whisper.Authz.Permissions.{Role, OrgRole}
use silent_whisper.Authz.Database.{
  Db, Workspace, Organization, OrgMember, user_by_id, ActionType, workspace_membership_change,
  organization_membership_change, invited, invitation_resolved,
}
use silent_whisper.Authz.Membership.{
  get_workspace_role, get_org_role, require_workspace_permission, require_workspace_not_archived,
}
use silent_whisper.Workspaces.Tables.{Caller, append_audit_event, insert_member}
use silent_whisper.Workspaces.Lifecycle.{bad_workspace_id}
use silent_whisper.Workspaces.Members.{bad_user_id, optional_role, granting}

pub data Answer : Type 0 where
  waiting accepted declined : Answer

-- scope_type with the column that it selects, and the role of that scope.
pub data Scope : Type 0 where
  organization_scope : ℕ → OrgRole → Scope
  workspace_scope : ℕ → Role → Scope

-- A row of membership_invitations; its `status` is the answer.
pub record Invitation : Type 0 where
  pub id : ℕ
  pub scope : Scope
  pub invited_user_id : ℕ
  pub invited_by : ℕ
  pub answer : Answer

pub record Desk : Type 0 where
  pub tables : Db
  pub invitations : List Invitation

abbrev pub is_waiting : Invitation → Bool
is_waiting i = elim i.answer [ waiting ↦ true | _ ↦ false ]

-- where({ id }).first()
abbrev pub find_invitation : ℕ → List Invitation → Option Invitation
find_invitation id [] = none
find_invitation id (i ∷ is) = if i.id == id then some i else find_invitation id is

-- where({ id }).update({ status, … })
abbrev pub resolve : ℕ → Answer → List Invitation → List Invitation
resolve id a [] = []
resolve id a (i ∷ is) =
    let rest = resolve id a is in if i.id == id then record i { answer = a } ∷ rest else i ∷ rest

abbrev invites_into : ℕ → Scope → Bool
invites_into workspace_id (organization_scope o r) = false
invites_into workspace_id (workspace_scope w r) = w == workspace_id

-- The search for an invitation that waits already.
abbrev pub already_invited : ℕ → ℕ → List Invitation → Bool
already_invited workspace_id user_id [] = false
already_invited workspace_id user_id (i ∷ is) =
    (invites_into workspace_id i.scope && i.invited_user_id == user_id && is_waiting i)
    || already_invited workspace_id user_id is

-- POST /:workspaceId/membership-invitations, with the identifier that the database makes
unfoldable pub invite : ℕ → Caller → Param → Param → Value → Desk → Result Desk
invite new_id caller workspace_param user_param role desk = do
  workspace_id ← assert_uuid workspace_param bad_workspace_id
  invited_user_id ← assert_uuid user_param bad_user_id
  role ← optional_role role
  require_workspace_permission desk.tables caller.id workspace_id (granting role)
  require_workspace_not_archived desk.tables workspace_id
  target ←
      or_throw (user_by_id invited_user_id desk.tables.users)
        (validation_error "No user with that id exists")
  throw_if (is_some (get_workspace_role desk.tables invited_user_id workspace_id))
      (conflict_error "User is already a member of this workspace")
  throw_if (already_invited workspace_id invited_user_id desk.invitations)
      (conflict_error "An invitation is already pending for this user")
  ok (record {
    tables =
        append_audit_event caller workspace_membership_change workspace_id
          (invited invited_user_id target.username role) desk.tables;
    invitations =
        desk.invitations
        ++ record {
          id = new_id;
          scope = workspace_scope workspace_id role;
          invited_user_id = invited_user_id;
          invited_by = caller.id;
          answer = waiting;
        }
          ∷ [];
  })

abbrev pub invitation_not_found : AppError
invitation_not_found = not_found_error "Invitation not found"

-- loadOwnPendingInvitationForUpdate
unfoldable pub load_own_pending_invitation : ℕ → ℕ → List Invitation → Result Invitation
load_own_pending_invitation user_id id is = do
  row ← or_throw (find_invitation id is) invitation_not_found
  throw_if (not (row.invited_user_id == user_id) || not (is_waiting row)) invitation_not_found
  ok row

-- !workspace || workspace.archived_at
abbrev pub closed_workspace : Option Workspace → Bool
closed_workspace none = true
closed_workspace (some w) = is_some w.archived_at

abbrev pub closed_organization : Option Organization → Bool
closed_organization none = true
closed_organization (some o) = is_some o.archived_at

-- A member keeps the role that is there.
abbrev pub join_workspace : ℕ → ℕ → Role → Db → Db
join_workspace workspace_id user_id role db =
    if is_some (get_workspace_role db user_id workspace_id)
    then db
    else insert_member workspace_id user_id role db

abbrev pub join_organization : ℕ → ℕ → OrgRole → Db → Db
join_organization organization_id user_id role db =
    if is_some (get_org_role db user_id organization_id) then db else record db {
      organization_members =
          db.organization_members
          ++ record { organization_id = organization_id; user_id = user_id; org_role = role } ∷ [];
    }

unfoldable pub enter_scope : ℕ → Scope → Db → Result Db
enter_scope user_id (organization_scope o role) db = do
  throw_if (closed_organization (db.organizations o))
      (conflict_error "This organization is archived")
  ok (join_organization o user_id role db)
enter_scope user_id (workspace_scope w role) db = do
  throw_if (closed_workspace (db.workspaces w)) (conflict_error "This workspace is archived")
  ok (join_workspace w user_id role db)

abbrev scope_event : Scope → ActionType × ℕ
scope_event (organization_scope o role) = (organization_membership_change, o)
scope_event (workspace_scope w role) = (workspace_membership_change, w)

abbrev pub invited_role : Scope → OrgRole ⊎ Role
invited_role (organization_scope o role) = inl role
invited_role (workspace_scope w role) = inr role

-- The audit event of an answer.
abbrev pub log_answer : Caller → String → ℕ → Invitation → Db → Db
log_answer caller what id row db =
    append_audit_event caller (scope_event row.scope).0 (scope_event row.scope).1
      (invitation_resolved what id (invited_role row.scope)) db

-- POST /:id/accept
unfoldable pub accept : Caller → Param → Desk → Result Desk
accept caller id_param desk = do
  id ← assert_uuid id_param "id must be a valid UUID"
  row ← load_own_pending_invitation caller.id id desk.invitations
  tables ← enter_scope caller.id row.scope desk.tables
  ok (record {
    tables = log_answer caller "invite_accept" id row tables;
    invitations = resolve id accepted desk.invitations;
  })

-- POST /:id/decline
unfoldable pub decline : Caller → Param → Desk → Result Desk
decline caller id_param desk = do
  id ← assert_uuid id_param "id must be a valid UUID"
  row ← load_own_pending_invitation caller.id id desk.invitations
  ok (record {
    tables = log_answer caller "invite_decline" id row desk.tables;
    invitations = resolve id declined desk.invitations;
  })

pub data Action : Type 0 where
  invite_action : ℕ → Param → Param → Value → Action
  accept_action : Param → Action
  decline_action : Param → Action

abbrev pub act : Caller → Action → Desk → Result Desk
act c (invite_action n w u r) desk = invite n c w u r desk
act c (accept_action i) desk = accept c i desk
act c (decline_action i) desk = decline c i desk

abbrev pub kept : Desk → Result Desk → Desk
kept desk (ok desk') = desk'
kept desk (err e) = desk

-- Every error leaves the desk as it was; the transaction of an answer is rolled back.
unfoldable pub act_all : Desk → List (Caller × Action) → Desk
act_all desk [] = desk
act_all desk ((c, a) ∷ actions) = act_all (kept desk (act c a desk)) actions
