-- ===== src/Organizations/Examples.antt =====
-- Two organizations, an administrator of one of them, and a stranger to it.
use silent_whisper.Prelude.{◌≡◌, refl, false, none, some, [], ◌∷◌, inl, update, update₂, arith}
use silent_whisper.Text.{codes}
use silent_whisper.Errors.{◌>>=◌, or_throw, throw_if}
use silent_whisper.Validation.{uuid, text, undefined, assert_uuid}
use silent_whisper.Authz.Permissions.{org_admin, org_member, owner}
use silent_whisper.Authz.Database.{Db, Organization, user_by_id, org_role_of, record_event}
use silent_whisper.Authz.Membership.{
  is_system_admin_user, require_org_permission, require_org_member, get_org_role,
  require_org_not_archived,
}
use silent_whisper.Workspaces.Tables.{Caller, append_audit_event}
use silent_whisper.Organizations.{
  seat, delete_org_member, Request, delete_request, add_request, handle, after, serve_all,
}
use silent_whisper.Organizations.Rules.{Effect}
use silent_whisper.Organizations.Refines.{handle-Effect}
use silent_whisper.Organizations.Seated.{Seated, serve_all-Seated}
use silent_whisper.Organizations.Powers.{SameIn, strangers_change_nothing}

abbrev ann : Caller
ann = record { id = 1; ip = codes "::1" }

abbrev eve : Caller
eve = record { id = 3; ip = codes "::1" }

abbrev home : Organization
home = record { name = codes "home"; archived_at = none; archived_by = none }

abbrev tables : Db
tables = record {
  users =
      record { id = 1; username = codes "ann"; is_system_admin = false }
      ∷ record { id = 2; username = codes "bob"; is_system_admin = false }
      ∷ record { id = 3; username = codes "eve"; is_system_admin = false }
      ∷ [];
  organizations = update (λ _. none) 5 (some home);
  organization_members = seat 5 1 org_admin ∷ seat 5 2 org_member ∷ [];
  workspaces = λ _. none;
  workspace_members = update₂ (λ _ _. none) 7 2 (some owner);
  channels = λ _. none;
  channel_members = λ _ _. false;
  audit_events = [];
}

abbrev expel_bob : Request
expel_bob = delete_request (uuid 5) (uuid 2)

bob_is_gone :
    (serve_all tables ((ann, expel_bob) ∷ [])).organization_members ≡ seat 5 1 org_admin ∷ []
unfolding serve_all handle delete_org_member assert_uuid require_org_permission is_system_admin_user
    require_org_member get_org_role org_role_of require_org_not_archived user_by_id
    append_audit_event record_event ◌>>=◌ or_throw throw_if
bob_is_gone = refl

abbrev without_bob : Db
without_bob = after tables (handle ann expel_bob tables)

handle-Effect_example : Effect 1 tables without_bob
unfolding handle delete_org_member assert_uuid require_org_permission is_system_admin_user
    require_org_member get_org_role org_role_of require_org_not_archived user_by_id ◌>>=◌ or_throw
    throw_if
handle-Effect_example = (handle-Effect ann expel_bob tables).at without_bob refl

tables-Seated : Seated tables
tables-Seated = record { single = λ o u. ground arith; inside = refl }

serve_all-Seated_example : Seated (
    serve_all tables
      ((ann, expel_bob) ∷ (ann, add_request (uuid 5) (text (codes "eve")) undefined) ∷ []))
serve_all-Seated_example =
    serve_all-Seated
      ((ann, expel_bob) ∷ (ann, add_request (uuid 5) (text (codes "eve")) undefined) ∷ []) tables
      tables-Seated

strangers_change_nothing_example : SameIn tables (after tables (handle eve expel_bob tables)) 5
unfolding is_system_admin_user user_by_id org_role_of
strangers_change_nothing_example = strangers_change_nothing eve expel_bob tables 5 (refl, inl refl)
