-- ===== src/Workspaces/Integrity/History.antt =====
-- The tables after any number of requests.
use silent_whisper.Prelude.{ℕ, ◌≡◌, refl, ◌↔◌, none, some, arith, List, [], ◌∷◌}
use silent_whisper.Errors.{Result, ok, err}
use silent_whisper.Authz.Permissions.{owner}
use silent_whisper.Authz.Database.{Db, Workspace, record_event}
use silent_whisper.Authz.Membership.{is_system_admin_user}
use silent_whisper.Workspaces.Tables.{Done, update_workspace}
use silent_whisper.Workspaces.Requests.{Call, handle, kept, serve, serve_all}
use silent_whisper.Workspaces.Rules.{Effect, nothing, audited, delegated}
use silent_whisper.Workspaces.Refines.{handle-Refines}
use silent_whisper.Workspaces.Integrity.{WellFormed, Fresh}
use silent_whisper.Workspaces.Integrity.Owners.{Change-OwnersFit}
use silent_whisper.Workspaces.Integrity.Seats.{Change-ChannelsLodged, Change-MembersSeated}

Effect-WellFormed : (u : ℕ) (db db' : Db) → WellFormed db → Effect u db db' → WellFormed db'
unfolding record_event update_workspace is_system_admin_user
Effect-WellFormed u db db' wf nothing = wf
Effect-WellFormed u db db' wf (audited {db' = mid} e actor change) = record {
  owners = Change-OwnersFit u db mid wf.owners change;
  lodgings = Change-ChannelsLodged u db mid wf.owners wf.lodgings change;
  seats = Change-MembersSeated u db mid wf.seats change;
}
Effect-WellFormed u db db' wf (delegated w b held) = record {
  owners = λ v x. ground (arith, wf.owners v x, wf.owners w x);
  lodgings = λ c. ground (arith, wf.lodgings c);
  seats = wf.seats;
}

kept-WellFormed :
    (db : Db) (call : Call) (r : Result Done)
    → WellFormed db
    → db.workspaces call.new_id ≡ none
    → db.channels call.new_id ≡ none
    → handle call db ≡ r
    → WellFormed (kept db r)
kept-WellFormed db call (ok done) wf no_w no_c h =
    Effect-WellFormed call.caller.id db done.db wf (handle-Refines call db done no_w no_c h)
kept-WellFormed db call (err e) wf no_w no_c h = wf

served-WellFormed :
    (db : Db) (call : Call)
    → WellFormed db
    → db.workspaces call.new_id ≡ none
    → db.channels call.new_id ≡ none
    → WellFormed (serve db call)
unfolding serve handle
served-WellFormed db call wf no_w no_c = kept-WellFormed db call _ wf no_w no_c refl

-- When the identifiers for new rows are unused at their time, requests on workspaces, none of which
-- changes who is a system administrator, lead from well-formed tables to well-formed tables: each
-- workspace has its owner as its only member with the role of an owner, each channel that names a
-- workspace names one that is there, and the members of such a channel have a role in its workspace
-- or are system administrators.
pub serve_all-WellFormed :
    (calls : List Call) (db : Db) → WellFormed db → Fresh db calls → WellFormed (serve_all db calls)
unfolding serve_all
serve_all-WellFormed [] db wf fresh = wf
serve_all-WellFormed (call ∷ calls) db wf (no_w, no_c, rest) =
    serve_all-WellFormed calls (serve db call) (served-WellFormed db call wf no_w no_c) rest

-- After any requests with unused identifiers on well-formed tables, a user has the role of an
-- owner in a workspace exactly when the row of the workspace names that user as its owner.
pub one_owner :
    (calls : List Call) (db : Db) (w : ℕ) (ws : Workspace) (u : ℕ)
    → WellFormed db
    → Fresh db calls
    → (serve_all db calls).workspaces w ≡ some ws
    → ((serve_all db calls).workspace_members w u ≡ some owner) ↔ (u ≡ ws.owner_id)
one_owner calls db w ws u wf fresh found = (
  λ h. ground (arith, (serve_all-WellFormed calls db wf fresh).owners w u),
  λ h. ground (arith, (serve_all-WellFormed calls db wf fresh).owners w u),
)
