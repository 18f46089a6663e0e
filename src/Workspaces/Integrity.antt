-- ===== src/Workspaces/Integrity.antt =====
-- What the rows of the tables must have to do with each other, and what keeps it so.
pub mod Owners
pub mod Seats
pub mod History
use silent_whisper.Prelude.{
  ℕ, ◌≡◌, Bool, true, false, not, ◌||◌, Option, none, some, is_some, ◌==◌, List, [], ◌∷◌,
}
use silent_whisper.Authz.Permissions.{Role, owner}
use silent_whisper.Authz.Database.{Db, Workspace, Channel}
use silent_whisper.Workspaces.Requests.{Call, serve}
use silent_whisper.Authz.Membership.{is_system_admin_user}

-- The row of a workspace and a user's role in it: its owner has the role of an owner, nobody
-- else has, and a workspace that is not there has no members.
abbrev pub fits : Option Workspace → ℕ → Option Role → Bool
fits none u none = true
fits none u (some r) = false
fits (some ws) u none = not (ws.owner_id == u)
fits (some ws) u (some owner) = ws.owner_id == u
fits (some ws) u (some r) = not (ws.owner_id == u)

-- The workspace of a channel is there.
abbrev pub lodged : Db → Option Channel → Bool
lodged db none = true
lodged db (some ch) = elim ch.workspace_id [ none ↦ true | some w ↦ is_some (db.workspaces w) ]

-- A user may sit in a channel that is there, and only with a role in its workspace or as a
-- system administrator.
abbrev pub may_sit : Db → ℕ → Option Channel → Bool
may_sit db u none = false
may_sit db u (some ch) = elim ch.workspace_id [
  | none ↦ true
  | some w ↦ is_some (db.workspace_members w u) || is_system_admin_user db u
]

abbrev pub seated : Db → ℕ → ℕ → Bool
seated db c u = not (db.channel_members c u) || may_sit db u (db.channels c)

abbrev pub OwnersFit : Db → Type 0
OwnersFit db = (w u : ℕ) → fits (db.workspaces w) u (db.workspace_members w u) ≡ true

abbrev pub ChannelsLodged : Db → Type 0
ChannelsLodged db = (c : ℕ) → lodged db (db.channels c) ≡ true

abbrev pub MembersSeated : Db → Type 0
MembersSeated db = (c u : ℕ) → seated db c u ≡ true

pub record WellFormed (db : Db) : Type 0 where
  pub owners : OwnersFit db
  pub lodgings : ChannelsLodged db
  pub seats : MembersSeated db

-- The identifier that a request may use for a new row names no row at its time.
abbrev pub Fresh : Db → List Call → Type 0
Fresh db [] = Unit {0}
Fresh db (call ∷ calls) =
    (db.workspaces call.new_id ≡ none)
    × (db.channels call.new_id ≡ none)
    × Fresh (serve db call) calls
