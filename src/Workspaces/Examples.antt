-- ===== src/Workspaces/Examples.antt =====
-- A small organization and requests in it.
use silent_whisper.Prelude.{
  ◌≡◌, refl, true, false, not, ◌↔◌, ◌&&◌, none, some, List, [], ◌∷◌, arith, update, update₂,
}
use silent_whisper.Text.{codes}
use silent_whisper.Errors.{ok, ◌>>=◌, or_throw, throw_if}
use silent_whisper.Validation.{
  uuid, text, assert_uuid, assert_username, is_username, assert_name, assert_enum,
}
use silent_whisper.Authz.Permissions.{
  has_org_permission, owner, member, workspace_manage_members, has_permission,
}
use silent_whisper.Authz.Database.{
  Db, User, Workspace, discoverable, private, user_by_id, user_by_username, record_event, action,
  workspace_membership_change,
}
use silent_whisper.Authz.Membership.{
  require_org_permission, get_org_role, is_system_admin_user, get_workspace_role,
  require_workspace_member, require_workspace_permission, require_workspace_not_archived,
  require_workspace_member_or_system_admin,
}
use silent_whisper.Authz.Checks.{is_ok, withheld, offered_is_granted}
use silent_whisper.Workspaces.Tables.{
  Done, append_audit_event, update_workspace, update_role, insert_channel_member, when,
  insert_member, workspace_body,
}
use silent_whisper.Workspaces.Members.{transfer_ownership}
use silent_whisper.Workspaces.Channels.{create_channel}
use silent_whisper.Workspaces.Lifecycle.{subscribe, discoverable_workspace, subscribed_reply}
use silent_whisper.Workspaces.Requests.{
  Call, handle, serve, serve_all, transfer_request, create_channel_request, subscribe_request,
}
use silent_whisper.Workspaces.Rules.{Effect}
use silent_whisper.Workspaces.Refines.{handle-Refines}
use silent_whisper.Workspaces.Integrity.{WellFormed, Fresh}
use silent_whisper.Workspaces.Integrity.History.{serve_all-WellFormed, one_owner}
use silent_whisper.Workspaces.Safety.{Untouched, handle-Untouched}
use silent_whisper.Workspaces.Safety.Archived.{Frozen, handle-Frozen}

abbrev alice : User
alice = record { id = 1; username = codes "alice"; is_system_admin = false }

abbrev bob : User
bob = record { id = 2; username = codes "bob"; is_system_admin = false }

abbrev eve : User
eve = record { id = 3; username = codes "eve"; is_system_admin = false }

-- Workspace 7 is Alice's, with Bob in it; workspace 8 is Eve's and is archived.
abbrev tables : Db
tables = record {
  users = alice ∷ bob ∷ eve ∷ [];
  organizations =
      λ _. some (record { name = codes "home"; archived_at = none; archived_by = none });
  organization_members = [];
  workspaces =
      update
        (update (λ _. none) 7
          (some (record {
            name = codes "lab";
            owner_id = 1;
            organization_id = 1;
            visibility = discoverable;
            managers_can_archive = false;
            archived_at = none;
            archived_by = none;
          })))
        8
        (some (record {
          name = codes "old";
          owner_id = 3;
          organization_id = 1;
          visibility = private;
          managers_can_archive = false;
          archived_at = some 1;
          archived_by = some 3;
        }));
  workspace_members =
      update₂ (update₂ (update₂ (λ _ _. none) 7 1 (some owner)) 7 2 (some member)) 8 3 (some owner);
  channels = λ _. none;
  channel_members = λ _ _. false;
  audit_events = [];
}

tables-WellFormed : WellFormed tables
tables-WellFormed = record {
  owners = λ w u. ground arith;
  lodgings = λ c. refl;
  seats = λ c u. refl;
}

-- Alice hands the workspace over to Bob.
abbrev hand_over : Call
hand_over = record {
  caller = record { id = 1; ip = codes "::1" };
  now = 5;
  new_id = 20;
  request = transfer_request (uuid 7) (text (codes "bob"));
}

-- Bob opens a channel.
abbrev open_channel : Call
open_channel = record {
  caller = record { id = 2; ip = codes "::1" };
  now = 6;
  new_id = 21;
  request = create_channel_request (uuid 7) (text (codes "news")) (text (codes "PUBLIC"));
}

-- Eve joins the workspace.
abbrev come_in : Call
come_in = record {
  caller = record { id = 3; ip = codes "::1" };
  now = 7;
  new_id = 22;
  request = subscribe_request (uuid 7);
}

abbrev calls : List Call
calls = hand_over ∷ open_channel ∷ []

calls-Fresh : Fresh tables calls
unfolding serve handle transfer_ownership create_channel assert_uuid assert_username is_username
    require_workspace_permission is_system_admin_user require_workspace_member get_workspace_role
    user_by_id user_by_username ◌>>=◌ or_throw throw_if require_workspace_not_archived
    append_audit_event record_event update_workspace update_role
calls-Fresh = (refl, refl, (refl, refl, tt))

serve_all-WellFormed_example : WellFormed (serve_all tables calls)
serve_all-WellFormed_example = serve_all-WellFormed calls tables tables-WellFormed calls-Fresh

abbrev lab_of_bob : Workspace
lab_of_bob = record {
  name = codes "lab";
  owner_id = 2;
  organization_id = 1;
  visibility = discoverable;
  managers_can_archive = false;
  archived_at = none;
  archived_by = none;
}

lab_is_bobs : (serve_all tables calls).workspaces 7 ≡ some lab_of_bob
unfolding serve_all serve handle transfer_ownership create_channel assert_uuid assert_username
    is_username assert_name assert_enum require_workspace_permission
    require_workspace_member_or_system_admin is_system_admin_user require_workspace_member
    get_workspace_role user_by_id user_by_username ◌>>=◌ or_throw throw_if
    require_workspace_not_archived append_audit_event record_event update_workspace update_role
    insert_channel_member when
lab_is_bobs = refl

one_owner_example :
    ((serve_all tables calls).workspace_members 7 2 ≡ some owner) ↔ (2 ≡ lab_of_bob.owner_id)
one_owner_example = one_owner calls tables 7 lab_of_bob 2 tables-WellFormed calls-Fresh lab_is_bobs

abbrev lab : Workspace
lab = record lab_of_bob { owner_id = 1 }

abbrev come : Done
come = record {
  db =
      append_audit_event come_in.caller workspace_membership_change 7 (action "subscribe")
        (insert_member 7 3 member tables);
  status = 200;
  body = workspace_body 7 lab member;
}

eve_comes_in : handle come_in tables ≡ ok come
unfolding handle subscribe subscribed_reply discoverable_workspace assert_uuid
    require_workspace_not_archived ◌>>=◌ throw_if get_workspace_role
eve_comes_in = refl

handle-Refines_example : Effect 3 tables come.db
handle-Refines_example = handle-Refines come_in tables come refl refl eve_comes_in

eve_is_plain : is_system_admin_user tables 3 ≡ false
unfolding is_system_admin_user user_by_id
eve_is_plain = refl

handle-Untouched_example : Untouched tables come.db 3 7
handle-Untouched_example =
    handle-Untouched come_in tables come 7 refl refl (eve_is_plain, refl) refl eve_comes_in

handle-Frozen_example : Frozen tables come.db 8
handle-Frozen_example = handle-Frozen come_in tables come 8 refl refl refl eve_comes_in

bob_is_plain : is_system_admin_user tables 2 ≡ false
unfolding is_system_admin_user user_by_id
bob_is_plain = refl

-- Bob is offered to manage no members, and may not.
offered_is_granted_example :
    (is_ok (require_workspace_permission tables 2 7 workspace_manage_members) ≡ (
      has_permission (get_workspace_role tables 2 7) workspace_manage_members
      && not (withheld tables 7 (get_workspace_role tables 2 7) workspace_manage_members)))
    × (is_ok (require_org_permission tables 2 3 workspace_manage_members)
        ≡ has_org_permission (get_org_role tables 2 3) workspace_manage_members)
offered_is_granted_example = offered_is_granted tables 2 7 3 workspace_manage_members bob_is_plain

-- The same tables with Eve as a system administrator.
abbrev under_eve : Db
under_eve = record tables { users = record eve { is_system_admin = true } ∷ [] }

eve_rules : is_system_admin_user under_eve 3 ≡ true
unfolding is_system_admin_user user_by_id
eve_rules = refl
