-- ===== src/Workspaces/Requests.antt =====
-- All requests of the routes in one type, and their handling one after another.
use silent_whisper.Prelude.{ℕ, Option, List, [], ◌∷◌}
use silent_whisper.Errors.{Result, ok, err}
use silent_whisper.Validation.{Param, Value}
use silent_whisper.Authz.Database.{Db}
use silent_whisper.Workspaces.Tables.{Caller, Done}
use silent_whisper.Workspaces.Lifecycle.{
  create_workspace, subscribe, archive, unarchive, change_visibility, change_settings,
  rename_workspace,
}
use silent_whisper.Workspaces.Members.{
  add_member, change_role, delete_member, leave_workspace, transfer_ownership,
}
use silent_whisper.Workspaces.Channels.{
  create_channel, rename_channel, join_channel, add_channel_member, remove_channel_member,
  leave_channel,
}

pub data Request : Type 0 where
  create_workspace_request : Value → Value → Option Param → Request
  subscribe_request : Param → Request
  archive_request : Param → Request
  unarchive_request : Param → Request
  visibility_request : Param → Value → Request
  settings_request : Param → Value → Request
  rename_request : Param → Value → Request
  add_member_request : Param → Value → Value → Request
  change_role_request : Param → Param → Value → Request
  delete_member_request : Param → Param → Request
  leave_request : Param → Request
  transfer_request : Param → Value → Request
  create_channel_request : Param → Value → Value → Request
  rename_channel_request : Param → Param → Value → Request
  join_channel_request : Param → Param → Request
  add_channel_member_request : Param → Param → Value → Request
  remove_channel_member_request : Param → Param → Param → Request
  leave_channel_request : Param → Param → Request

-- A request with its caller, the time, and the identifier that the database would make.
pub record Call : Type 0 where
  pub caller : Caller
  pub now : ℕ
  pub new_id : ℕ
  pub request : Request

abbrev pub route : ℕ → ℕ → Caller → Request → Db → Result Done
route n t c (create_workspace_request name v o) db = create_workspace n c name v o db
route n t c (subscribe_request w) db = subscribe c w db
route n t c (archive_request w) db = archive t c w db
route n t c (unarchive_request w) db = unarchive c w db
route n t c (visibility_request w v) db = change_visibility c w v db
route n t c (settings_request w v) db = change_settings c w v db
route n t c (rename_request w v) db = rename_workspace c w v db
route n t c (add_member_request w u r) db = add_member c w u r db
route n t c (change_role_request w u r) db = change_role c w u r db
route n t c (delete_member_request w u) db = delete_member c w u db
route n t c (leave_request w) db = leave_workspace c w db
route n t c (transfer_request w u) db = transfer_ownership c w u db
route n t c (create_channel_request w name type) db = create_channel n c w name type db
route n t c (rename_channel_request w ch name) db = rename_channel c w ch name db
route n t c (join_channel_request w ch) db = join_channel c w ch db
route n t c (add_channel_member_request w ch u) db = add_channel_member c w ch u db
route n t c (remove_channel_member_request w ch u) db = remove_channel_member c w ch u db
route n t c (leave_channel_request w ch) db = leave_channel c w ch db

unfoldable pub handle : Call → Db → Result Done
handle call db = route call.new_id call.now call.caller call.request db

abbrev pub kept : Db → Result Done → Db
kept db (ok done) = done.db
kept db (err e) = db

-- Every error is thrown before the first write.
unfoldable pub serve : Db → Call → Db
unfolding handle
serve db call = kept db (handle call db)

unfoldable pub serve_all : Db → List Call → Db
serve_all db [] = db
serve_all db (call ∷ calls) = serve_all (serve db call) calls
