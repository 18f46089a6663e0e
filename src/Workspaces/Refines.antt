-- ===== src/Workspaces/Refines.antt =====
-- Every route keeps the rules.
mod Checks
mod Lifecycle
pub mod Members
mod Channels
use silent_whisper.Prelude.{ℕ, ◌≡◌, none}
use silent_whisper.Errors.{ok, Ensures}
use silent_whisper.Authz.Database.{Db}
use silent_whisper.Workspaces.Tables.{Caller, Done}
use silent_whisper.Workspaces.Requests.{
  Request, Call, route, handle, create_workspace_request, subscribe_request, archive_request,
  unarchive_request, visibility_request, settings_request, rename_request, add_member_request,
  change_role_request, delete_member_request, leave_request, transfer_request,
  create_channel_request, rename_channel_request, join_channel_request, add_channel_member_request,
  remove_channel_member_request, leave_channel_request,
}
use silent_whisper.Workspaces.Rules.{Effect}
use silent_whisper.Workspaces.Refines.Lifecycle.{
  create_workspace-Keeps, subscribe-Keeps, archive-Keeps, unarchive-Keeps, change_visibility-Keeps,
  change_settings-Keeps, rename_workspace-Keeps,
}
use silent_whisper.Workspaces.Refines.Members.{
  add_member-Keeps, change_role-Keeps, delete_member-Keeps, leave_workspace-Keeps,
  transfer_ownership-Keeps,
}
use silent_whisper.Workspaces.Refines.Channels.{
  create_channel-Keeps, rename_channel-Keeps, join_channel-Keeps, add_channel_member-Keeps,
  remove_channel_member-Keeps, leave_channel-Keeps,
}

route-Keeps :
    (n t : ℕ) (c : Caller) (db : Db) (r : Request)
    → db.workspaces n ≡ none
    → db.channels n ≡ none
    → Ensures (route n t c r db) (λ d. Effect c.id db d.db)
route-Keeps n t c db (create_workspace_request name v o) no_w no_c =
    create_workspace-Keeps c db n name v o no_w
route-Keeps n t c db (subscribe_request w) no_w no_c = subscribe-Keeps c db w
route-Keeps n t c db (archive_request w) no_w no_c = archive-Keeps c db t w
route-Keeps n t c db (unarchive_request w) no_w no_c = unarchive-Keeps c db w
route-Keeps n t c db (visibility_request w v) no_w no_c = change_visibility-Keeps c db w v
route-Keeps n t c db (settings_request w v) no_w no_c = change_settings-Keeps c db w v
route-Keeps n t c db (rename_request w v) no_w no_c = rename_workspace-Keeps c db w v
route-Keeps n t c db (add_member_request w u r) no_w no_c = add_member-Keeps c db w u r
route-Keeps n t c db (change_role_request w u r) no_w no_c = change_role-Keeps c db w u r
route-Keeps n t c db (delete_member_request w u) no_w no_c = delete_member-Keeps c db w u
route-Keeps n t c db (leave_request w) no_w no_c = leave_workspace-Keeps c db w
route-Keeps n t c db (transfer_request w u) no_w no_c = transfer_ownership-Keeps c db w u
route-Keeps n t c db (create_channel_request w name type) no_w no_c =
    create_channel-Keeps c db n w name type no_c
route-Keeps n t c db (rename_channel_request w ch name) no_w no_c =
    rename_channel-Keeps c db w ch name
route-Keeps n t c db (join_channel_request w ch) no_w no_c = join_channel-Keeps c db w ch
route-Keeps n t c db (add_channel_member_request w ch u) no_w no_c =
    add_channel_member-Keeps c db w ch u
route-Keeps n t c db (remove_channel_member_request w ch u) no_w no_c =
    remove_channel_member-Keeps c db w ch u
route-Keeps n t c db (leave_channel_request w ch) no_w no_c = leave_channel-Keeps c db w ch

-- When no workspace and no channel has the identifier that a request may use for a new row, a
-- request that is answered without an error changes the tables as the rules allow its caller:
-- not at all, by one permitted change with an audit event in the caller's name, or by the
-- setting that lets managers archive.
pub handle-Refines :
    (call : Call) (db : Db) (done : Done)
    → db.workspaces call.new_id ≡ none
    → db.channels call.new_id ≡ none
    → handle call db ≡ ok done
    → Effect call.caller.id db done.db
unfolding handle
handle-Refines call db done no_w no_c h =
    (route-Keeps call.new_id call.now call.caller db call.request no_w no_c).at done h
