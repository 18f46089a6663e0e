-- ===== src/InvitationLinks.antt =====
-- backend/src/routes/invitations.js, and the routes of organizations.js and workspaces.js that make
-- an invitation with a token: who has the token gets an account and a membership.
pub mod Spent
pub mod Granted
mod Examples
use silent_whisper.Prelude.{
  ℕ, ◌+◌, ◌*◌, String, Bool, true, false, not, ◌&&◌, ◌||◌, Option, none, some, is_some, List, [],
  ◌∷◌, ◌++◌, ◌==◌, ltb, if◌then◌else◌,
}
use silent_whisper.Text.{Text, text_eq}
use silent_whisper.Errors.{
  AppError, validation_error, not_found_error, conflict_error, unhandled_error, Result, ok, err,
  ◌>>=◌, ◌>>◌, throw_if, or_throw,
}
use silent_whisper.Validation.{Param, Value, assert_uuid, assert_username}
use silent_whisper.Authz.Permissions.{Role, org_member, org_invite, workspace_manage_members}
use silent_whisper.Authz.Database.{
  Db, invitation_made, invitation_scope, invitation_created, invitation_redeemed,
  invitation_revoked,
}
use silent_whisper.Authz.Membership.{
  require_org_permission, require_org_not_archived, require_workspace_permission,
  require_workspace_not_archived,
}
use silent_whisper.Workspaces.Tables.{Caller, append_audit_event, insert_member}
use silent_whisper.Workspaces.Lifecycle.{bad_workspace_id}
use silent_whisper.Workspaces.Members.{optional_role, granting}
use silent_whisper.Organizations.{bad_org_id, optional_org_role, seat, with_members}
use silent_whisper.Invitations.{
  Scope, organization_scope, workspace_scope, invited_role, invitation_not_found, closed_workspace,
  closed_organization,
}
use silent_whisper.Auth.RefreshTokens.{Row, issue_refresh_token}
use silent_whisper.Auth.Accounts.{
  Account, Outside, active, find_account, assert_email, assert_valid_password,
}
use silent_whisper.Auth.Admin.{taken}

pub data LinkStatus : Type 0 where
  pending redeemed revoked : LinkStatus

-- A row of invitations.
pub record Link : Type 0 where
  pub id : ℕ
  pub scope : Scope
  pub invited_by : ℕ
  pub token_hash : Text
  pub expires_at : ℕ
  pub link_status : LinkStatus

-- The tables. Of users, `tables` has the columns that authorization reads and `accounts` all others;
-- `default_organization` is the one that was created first.
pub record Hall : Type 0 where
  pub tables : Db
  pub accounts : List Account
  pub default_organization : Option ℕ
  pub tokens : List Row
  pub links : List Link

abbrev pub is_pending_link : LinkStatus → Bool
is_pending_link pending = true
is_pending_link _ = false

-- where({ token_hash }).first()
abbrev pub find_by_hash : Text → List Link → Option Link
find_by_hash h [] = none
find_by_hash h (l ∷ ls) = if text_eq l.token_hash h then some l else find_by_hash h ls

-- where({ id }).first()
abbrev pub find_link : ℕ → List Link → Option Link
find_link id [] = none
find_link id (l ∷ ls) = if l.id == id then some l else find_link id ls

-- where({ id }).update({ status })
abbrev pub set_link_status : ℕ → LinkStatus → List Link → List Link
set_link_status id s [] = []
set_link_status id s (l ∷ ls) =
    let rest = set_link_status id s ls in
    if l.id == id then record l { link_status = s } ∷ rest else l ∷ rest

-- INVITATION_TOKEN_TTL_MS
abbrev pub invitation_token_ttl_ms : ℕ
invitation_token_ttl_ms = 604800000

-- The insert and the audit event. The hash of a new token is that of `o.token_env`.
abbrev pub insert_link : Outside → Caller → ℕ → Scope → Hall → Hall
insert_link o caller target scope h = record h {
  tables =
      append_audit_event caller invitation_created o.new_id
        (invitation_made target (invited_role scope)) h.tables;
  links =
      h.links
      ++ record {
        id = o.new_id;
        scope = scope;
        invited_by = caller.id;
        token_hash = o.token_env.hash_token o.token_env.raw_token;
        expires_at = o.token_env.now + invitation_token_ttl_ms;
        link_status = pending;
      }
        ∷ [];
}

-- POST /organizations/:orgId/invitations
unfoldable pub invite_into_organization : Outside → Caller → Param → Value → Hall → Result Hall
invite_into_organization o caller org_param role h = do
  org_id ← assert_uuid org_param bad_org_id
  require_org_permission h.tables caller.id org_id org_invite
  require_org_not_archived h.tables org_id
  role ← optional_org_role role
  throw_if (is_some (find_link o.new_id h.links)) unhandled_error
  ok (insert_link o caller org_id (organization_scope org_id role) h)

-- POST /workspaces/:workspaceId/invitations
unfoldable pub invite_into_workspace : Outside → Caller → Param → Value → Hall → Result Hall
invite_into_workspace o caller workspace_param role h = do
  workspace_id ← assert_uuid workspace_param bad_workspace_id
  role ← optional_role role
  require_workspace_permission h.tables caller.id workspace_id (granting role)
  require_workspace_not_archived h.tables workspace_id
  throw_if (is_some (find_link o.new_id h.links)) unhandled_error
  ok (insert_link o caller workspace_id (workspace_scope workspace_id role) h)

-- A scope that is missing or archived.
abbrev pub closed_scope : Scope → Db → Bool
closed_scope (organization_scope o role) db = closed_organization (db.organizations o)
closed_scope (workspace_scope w role) db = closed_workspace (db.workspaces w)

-- The memberships of a new account; reading `id` of no organization is a TypeError.
unfoldable pub enroll : ℕ → Scope → Option ℕ → Db → Result Db
enroll user (organization_scope o role) default db =
    ok (with_members (db.organization_members ++ seat o user role ∷ []) db)
enroll user (workspace_scope w role) default db = do
  default ← or_throw default unhandled_error
  ok (
      insert_member w user role
        (with_members (db.organization_members ++ seat default user org_member ∷ []) db))

abbrev pub with_user : ℕ → Text → Db → Db
with_user id name db = record db {
  users = db.users ++ record { id = id; username = name; is_system_admin = false } ∷ [];
}

abbrev pub scope_name : Scope → String
scope_name (organization_scope o role) = "ORGANIZATION"
scope_name (workspace_scope w role) = "WORKSPACE"

-- POST /:token/accept; the address of the new user is in the audit event
unfoldable pub redeem : Outside → Text → Text → Value → Value → Value → Hall → Result Hall
redeem o ip token username email password h = do
  username ← assert_username username
  email ← assert_email email
  password ← assert_valid_password o password
  row ← or_throw (find_by_hash (o.token_env.hash_token token) h.links) invitation_not_found
  throw_if (not (is_pending_link row.link_status) || ltb row.expires_at o.token_env.now)
      invitation_not_found
  throw_if (closed_scope row.scope h.tables) invitation_not_found
  throw_if (taken o.lower username email h.accounts)
      (conflict_error "Username or email already in use")
  throw_if (is_some (find_account o.new_id h.accounts)) unhandled_error
  tables ← enroll o.new_id row.scope h.default_organization (with_user o.new_id username h.tables)
  ok (record h {
    tables =
        append_audit_event (record { id = o.new_id; ip = ip }) invitation_redeemed row.id
          (invitation_scope (scope_name row.scope)) tables;
    accounts =
        h.accounts
        ++ record {
          id = o.new_id;
          username = username;
          email = email;
          display_name = username;
          password_hash = o.bcrypt_hash password;
          status = active;
          is_system_admin = false;
        }
          ∷ [];
    tokens = issue_refresh_token o.token_env o.new_id h.tokens;
    links = set_link_status row.id redeemed h.links;
  })

-- The permission that anybody but the inviter wants.
unfoldable pub may_revoke : Caller → Scope → Db → Result (Unit {0})
may_revoke caller (organization_scope o role) db = do
  require_org_permission db caller.id o org_invite
  ok tt
may_revoke caller (workspace_scope w role) db = do
  require_workspace_permission db caller.id w workspace_manage_members
  ok tt

-- POST /:id/revoke
unfoldable pub revoke : Caller → Param → Hall → Result Hall
revoke caller id_param h = do
  id ← assert_uuid id_param "id must be a valid UUID"
  row ← or_throw (find_link id h.links) invitation_not_found
  if row.invited_by == caller.id then ok tt else may_revoke caller row.scope h.tables
  ok (
      if is_pending_link row.link_status
      then record h {
        links = set_link_status id revoked h.links;
        tables =
            append_audit_event caller invitation_revoked id
              (invitation_scope (scope_name row.scope)) h.tables;
      }
      else h)

pub data Request : Type 0 where
  organization_request workspace_request : Caller → Param → Value → Request
  redeem_request : Text → Text → Value → Value → Value → Request
  revoke_request : Caller → Param → Request

unfoldable pub handle : Outside → Request → Hall → Result Hall
handle o (organization_request c p v) h = invite_into_organization o c p v h
handle o (workspace_request c p v) h = invite_into_workspace o c p v h
handle o (redeem_request ip t u e p) h = redeem o ip t u e p h
handle o (revoke_request c p) h = revoke c p h

abbrev pub after : Hall → Result Hall → Hall
after h (ok h') = h'
after h (err e) = h

unfoldable pub serve_all : Hall → List (Outside × Request) → Hall
serve_all h [] = h
serve_all h ((o, r) ∷ rs) = serve_all (after h (handle o r h)) rs
