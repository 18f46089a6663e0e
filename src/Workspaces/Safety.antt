-- ===== src/Workspaces/Safety.antt =====
-- What a request cannot do.
pub mod Archived
use silent_whisper.Prelude.{
  ℕ, ◌≡◌, ◌≢◌, refl, inl, inr, Bool, true, false, not, ◌&&◌, Option, none, some, is_some, arith,
  ◌==◌, if◌then◌else◌, update, update₂, ap, sym, Bool-cases, ==_iff, subst, ◌∙◌,
}
use silent_whisper.Errors.{ok}
use silent_whisper.Authz.Permissions.{Role, Permission}
use silent_whisper.Authz.Database.{Db, Workspace, record_event}
use silent_whisper.Authz.Membership.{is_system_admin_user, workspace_archived}
use silent_whisper.Workspaces.Tables.{
  Done, map_row, update_workspace, update_channel, insert_member, update_role, remove_member,
  insert_channel_member, delete_channel_member,
}
use silent_whisper.Workspaces.Requests.{Call, handle}
use silent_whisper.Workspaces.Rules.{
  Exists, Holds, Writable, Change, founded, subscribed, archived, unarchived, shown, named,
  enrolled, reassigned, expelled, departed, handed_over, opened, opened_and_joined, channel_named,
  joined, brought_in, taken_out, Effect, nothing, audited, delegated,
}
use silent_whisper.Workspaces.Refines.{handle-Refines}

-- A user without a role in a workspace who is no system administrator.
abbrev pub Stranger : Db → ℕ → ℕ → Type 0
Stranger db u w = (is_system_admin_user db u ≡ false) × (db.workspace_members w u ≡ none)

Stranger-Holds_nothing : (db : Db) (u w : ℕ) (p : Permission) → Stranger db u w → Holds db u w p → ⊥
Stranger-Holds_nothing db u w p (plain, out) (inl (admin, _)) = ground arith
Stranger-Holds_nothing db u w p (plain, out) (inr (r, h, _)) = ground arith

-- What a workspace and the other users' roles in it were, they still are.
abbrev pub Untouched : Db → Db → ℕ → ℕ → Type 0
Untouched db db' u w =
    (db'.workspaces w ≡ db.workspaces w)
    × ((x : ℕ) → x ≢ u → db'.workspace_members w x ≡ db.workspace_members w x)

elsewhere :
    (db : Db) (u w v : ℕ) (p : Permission) → Stranger db u w → Holds db u v p → (v == w) ≡ false
elsewhere db u w v p out held = elim (Bool-cases (v == w)) [
  | inr away ↦ away
  | inl here ↦
      absurd (
        Stranger-Holds_nothing db u w p out
          (subst (λ x. Holds db u x p) ((==_iff v w).0 here) held))
]

Change-Untouched :
    (u w : ℕ) (db db' : Db) → Stranger db u w → Exists db w → Change u db db' → Untouched db db' u w
unfolding update_workspace update_channel insert_member update_role remove_member
    insert_channel_member delete_channel_member
Change-Untouched u w db db' out known (founded v row fresh own) =
    (ground arith, λ x other. ground arith)
Change-Untouched u w db db' out known (subscribed v ws found vis live absent) =
    (ground arith, λ x other. ground arith)
Change-Untouched u w db db' out known (archived v t held live) =
    let away = elsewhere db u w v _ out held in (ground arith, λ x other. ground arith)
Change-Untouched u w db db' out known (unarchived v held) =
    let away = elsewhere db u w v _ out held in (ground arith, λ x other. ground arith)
Change-Untouched u w db db' out known (shown v vis held live) =
    let away = elsewhere db u w v _ out held in (ground arith, λ x other. ground arith)
Change-Untouched u w db db' out known (named v n held live) =
    let away = elsewhere db u w v _ out held in (ground arith, λ x other. ground arith)
Change-Untouched u w db db' out known (enrolled v t r held live absent low) =
    let away = elsewhere db u w v _ out held in (ground arith, λ x other. ground arith)
Change-Untouched u w db db' out known (reassigned v t r r' held live found low low' second) =
    let away = elsewhere db u w v _ out held in (ground arith, λ x other. ground arith)
Change-Untouched u w db db' out known (expelled v t r held live found low second) =
    let away = elsewhere db u w v _ out held in (ground arith, λ x other. ground arith)
Change-Untouched u w db db' out known (departed v r live found low) =
    (ground arith, λ x other. ground arith)
Change-Untouched u w db db' out known (handed_over v t ws held live found there other) =
    let away = elsewhere db u w v _ out held in (ground arith, λ x other. ground arith)
Change-Untouched u w db db' out known (opened v c row held live fresh lies) =
    (refl, λ x other. refl)
Change-Untouched u w db db' out known (opened_and_joined v c row held live fresh lies) =
    (refl, λ x other. refl)
Change-Untouched u w db db' out known (channel_named v c ch n held found lies live) =
    (refl, λ x other. refl)
Change-Untouched u w db db' out known (joined v c ch held live found lies public) =
    (refl, λ x other. refl)
Change-Untouched u w db db' out known (brought_in v c t ch held live found lies there) =
    (refl, λ x other. refl)
Change-Untouched u w db db' out known (taken_out v c t ch held live found lies) =
    (refl, λ x other. refl)

Effect-Untouched :
    (u w : ℕ) (db db' : Db) → Stranger db u w → Exists db w → Effect u db db' → Untouched db db' u w
unfolding update_workspace record_event
Effect-Untouched u w db db' out there nothing = (refl, λ x other. refl)
Effect-Untouched u w db db' out there (audited {db' = mid} e actor change) =
    Change-Untouched u w db mid out there change
Effect-Untouched u w db db' out there (delegated v b held) =
    let away = elsewhere db u w v _ out held in (ground arith, λ x other. refl)

-- A request of a user who has no role in an existing workspace and is no system administrator
-- leaves the row of that workspace and the roles of all other users in it as they are, when the
-- identifier for a new row is unused.
pub handle-Untouched :
    (call : Call) (db : Db) (done : Done) (w : ℕ)
    → db.workspaces call.new_id ≡ none
    → db.channels call.new_id ≡ none
    → Stranger db call.caller.id w
    → Exists db w
    → handle call db ≡ ok done
    → Untouched db done.db call.caller.id w
handle-Untouched call db done w no_w no_c out there h =
    Effect-Untouched call.caller.id w db done.db out there (handle-Refines call db done no_w no_c h)
