-- ===== src/Workspaces/Safety/Archived.antt =====
-- What stays as it is in an archived workspace.
use silent_whisper.Prelude.{ℕ, ◌≡◌, refl, true, ◌||◌, Option, none, some, arith}
use silent_whisper.Text.{Text}
use silent_whisper.Errors.{ok}
use silent_whisper.Authz.Database.{Db, Visibility, Workspace, record_event}
use silent_whisper.Authz.Membership.{workspace_archived}
use silent_whisper.Workspaces.Tables.{
  channel_lies_in, Done, update_workspace, update_channel, insert_member, update_role,
  remove_member, insert_channel_member, delete_channel_member,
}
use silent_whisper.Workspaces.Requests.{Call, handle}
use silent_whisper.Workspaces.Rules.{
  Change, founded, subscribed, archived, unarchived, shown, named, enrolled, reassigned, expelled,
  departed, handed_over, opened, opened_and_joined, channel_named, joined, brought_in, taken_out,
  Effect, nothing, audited, delegated,
}
use silent_whisper.Workspaces.Refines.{handle-Refines}

-- What a workspace is called, whose it is and who may see it.
abbrev description : Option Workspace → Option (Text × ℕ × Visibility)
description none = none
description (some ws) = some (ws.name, ws.owner_id, ws.visibility)

-- Two states that agree on a workspace, but for its archive status and its settings.
pub record Frozen (db db' : Db) (w : ℕ) : Type 0 where
  pub row : description (db'.workspaces w) ≡ description (db.workspaces w)
  pub roles : (x : ℕ) → db'.workspace_members w x ≡ db.workspace_members w x
  pub channels :
      (c : ℕ)
      → (channel_lies_in w (db.channels c) || channel_lies_in w (db'.channels c)) ≡ true
      → db'.channels c ≡ db.channels c
  pub seats :
      (c x : ℕ)
      → channel_lies_in w (db.channels c) ≡ true
      → db'.channel_members c x ≡ db.channel_members c x

Change-Frozen :
    (u w : ℕ) (db db' : Db)
    → workspace_archived (db.workspaces w) ≡ true
    → Change u db db'
    → Frozen db db' w
unfolding update_workspace update_channel insert_member update_role remove_member
    insert_channel_member delete_channel_member
Change-Frozen u w db db' old (founded v row fresh own) = record {
  row = ground arith;
  roles = λ x. ground arith;
  channels = λ c' h. ground arith;
  seats = λ c' x h. ground arith;
}
Change-Frozen u w db db' old (subscribed v ws found vis live absent) = record {
  row = ground arith;
  roles = λ x. ground arith;
  channels = λ c' h. ground arith;
  seats = λ c' x h. ground arith;
}
Change-Frozen u w db db' old (archived v t held live) = record {
  row = ground arith;
  roles = λ x. ground arith;
  channels = λ c' h. ground arith;
  seats = λ c' x h. ground arith;
}
Change-Frozen u w db db' old (unarchived v held) = record {
  row = ground arith;
  roles = λ x. ground arith;
  channels = λ c' h. ground arith;
  seats = λ c' x h. ground arith;
}
Change-Frozen u w db db' old (shown v vis held live) = record {
  row = ground arith;
  roles = λ x. ground arith;
  channels = λ c' h. ground arith;
  seats = λ c' x h. ground arith;
}
Change-Frozen u w db db' old (named v n held live) = record {
  row = ground arith;
  roles = λ x. ground arith;
  channels = λ c' h. ground arith;
  seats = λ c' x h. ground arith;
}
Change-Frozen u w db db' old (enrolled v t r held live absent low) = record {
  row = ground arith;
  roles = λ x. ground arith;
  channels = λ c' h. ground arith;
  seats = λ c' x h. ground arith;
}
Change-Frozen u w db db' old (reassigned v t r r' held live found low low' second) = record {
  row = ground arith;
  roles = λ x. ground arith;
  channels = λ c' h. ground arith;
  seats = λ c' x h. ground arith;
}
Change-Frozen u w db db' old (expelled v t r held live found low second) = record {
  row = ground arith;
  roles = λ x. ground arith;
  channels = λ c' h. ground arith;
  seats = λ c' x h. ground arith;
}
Change-Frozen u w db db' old (departed v r live found low) = record {
  row = ground arith;
  roles = λ x. ground arith;
  channels = λ c' h. ground arith;
  seats = λ c' x h. ground arith;
}
Change-Frozen u w db db' old (handed_over v t ws held live found there other) = record {
  row = ground arith;
  roles = λ x. ground arith;
  channels = λ c' h. ground arith;
  seats = λ c' x h. ground arith;
}
Change-Frozen u w db db' old (opened v c row held live fresh lies) = record {
  row = ground arith;
  roles = λ x. ground arith;
  channels = λ c' h. ground arith;
  seats = λ c' x h. ground arith;
}
Change-Frozen u w db db' old (opened_and_joined v c row held live fresh lies) = record {
  row = ground arith;
  roles = λ x. ground arith;
  channels = λ c' h. ground arith;
  seats = λ c' x h. ground arith;
}
Change-Frozen u w db db' old (channel_named v c ch n held found lies live) = record {
  row = ground arith;
  roles = λ x. ground arith;
  channels = λ c' h. ground arith;
  seats = λ c' x h. ground arith;
}
Change-Frozen u w db db' old (joined v c ch held live found lies public) = record {
  row = ground arith;
  roles = λ x. ground arith;
  channels = λ c' h. ground arith;
  seats = λ c' x h. ground arith;
}
Change-Frozen u w db db' old (brought_in v c t ch held live found lies there) = record {
  row = ground arith;
  roles = λ x. ground arith;
  channels = λ c' h. ground arith;
  seats = λ c' x h. ground arith;
}
Change-Frozen u w db db' old (taken_out v c t ch held live found lies) = record {
  row = ground arith;
  roles = λ x. ground arith;
  channels = λ c' h. ground arith;
  seats = λ c' x h. ground arith;
}

Effect-Frozen :
    (u w : ℕ) (db db' : Db)
    → workspace_archived (db.workspaces w) ≡ true
    → Effect u db db'
    → Frozen db db' w
unfolding update_workspace record_event
Effect-Frozen u w db db' old nothing = record {
  row = refl;
  roles = λ x. refl;
  channels = λ c h. refl;
  seats = λ c x h. refl;
}
Effect-Frozen u w db db' old (audited {db' = mid} e actor change) =
    let f = Change-Frozen u w db mid old change in
    record { row = f.row; roles = f.roles; channels = f.channels; seats = f.seats }
Effect-Frozen u w db db' old (delegated v b held) = record {
  row = ground arith;
  roles = λ x. refl;
  channels = λ c h. refl;
  seats = λ c x h. refl;
}

-- A request on tables in which a workspace is archived changes neither the name, the owner and
-- the visibility of that workspace, nor the roles in it, nor its channels and their members, and
-- it makes no channel in it, when the identifier for a new row is unused.
pub handle-Frozen :
    (call : Call) (db : Db) (done : Done) (w : ℕ)
    → db.workspaces call.new_id ≡ none
    → db.channels call.new_id ≡ none
    → workspace_archived (db.workspaces w) ≡ true
    → handle call db ≡ ok done
    → Frozen db done.db w
handle-Frozen call db done w no_w no_c old h =
    Effect-Frozen call.caller.id w db done.db old (handle-Refines call db done no_w no_c h)
