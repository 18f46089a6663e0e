-- ===== src/Workspaces/Integrity/Owners.antt =====
-- Owners under the changes.
use silent_whisper.Prelude.{ℕ, ◌≡◌, true, is_some, arith, ap, inl, inr}
use silent_whisper.Authz.Permissions.{Permission}
use silent_whisper.Authz.Database.{Db}
use silent_whisper.Workspaces.Tables.{
  update_workspace, update_channel, insert_member, update_role, remove_member,
  insert_channel_member, delete_channel_member,
}
use silent_whisper.Workspaces.Rules.{
  Exists, Holds, Change, founded, subscribed, archived, unarchived, shown, named, enrolled,
  reassigned, expelled, departed, handed_over, opened, opened_and_joined, channel_named, joined,
  brought_in, taken_out,
}
use silent_whisper.Workspaces.Integrity.{OwnersFit}

-- A member's workspace is there.
pub member-Exists :
    (db : Db) (w u : ℕ) → OwnersFit db → is_some (db.workspace_members w u) ≡ true → Exists db w
member-Exists db w u inv h = ground (arith, inv w u)

-- Who holds a permission holds it in a workspace that is there.
pub held-Exists : (db : Db) (u w : ℕ) (p : Permission) → OwnersFit db → Holds db u w p → Exists db w
held-Exists db u w p inv (inl (_, there)) = there
held-Exists db u w p inv (inr (r, h, _)) = member-Exists db w u inv (ap is_some h)

-- A change keeps the owners.
pub Change-OwnersFit : (u : ℕ) (db db' : Db) → OwnersFit db → Change u db db' → OwnersFit db'
unfolding update_workspace update_channel insert_member update_role remove_member
    insert_channel_member delete_channel_member
Change-OwnersFit u db db' inv (founded w row fresh own) v x = ground (arith, inv v x, inv w x)
Change-OwnersFit u db db' inv (subscribed w ws found vis live absent) v x =
    ground (arith, inv v x, inv w x)
Change-OwnersFit u db db' inv (archived w t held live) v x = ground (arith, inv v x, inv w x)
Change-OwnersFit u db db' inv (unarchived w held) v x = ground (arith, inv v x, inv w x)
Change-OwnersFit u db db' inv (shown w vis held live) v x = ground (arith, inv v x, inv w x)
Change-OwnersFit u db db' inv (named w n held live) v x = ground (arith, inv v x, inv w x)
Change-OwnersFit u db db' inv (enrolled w t r held live absent low) v x =
    ground (arith, inv v x, inv w t, held-Exists db u w _ inv held)
Change-OwnersFit u db db' inv (reassigned w t r r' held live found low low' second) v x =
    ground (arith, inv v x, inv w x)
Change-OwnersFit u db db' inv (expelled w t r held live found low second) v x =
    ground (arith, inv v x, inv w x)
Change-OwnersFit u db db' inv (departed w r live found low) v x = ground (arith, inv v x, inv w x)
Change-OwnersFit u db db' inv (handed_over w t ws held live found there other) v x =
    ground (arith, inv v x, inv w t, inv w ws.owner_id)
Change-OwnersFit u db db' inv (opened w c row held live fresh lies) v x = inv v x
Change-OwnersFit u db db' inv (opened_and_joined w c row held live fresh lies) v x = inv v x
Change-OwnersFit u db db' inv (channel_named w c ch n held found lies live) v x = inv v x
Change-OwnersFit u db db' inv (joined w c ch held live found lies public) v x = inv v x
Change-OwnersFit u db db' inv (brought_in w c t ch held live found lies there) v x = inv v x
Change-OwnersFit u db db' inv (taken_out w c t ch held live found lies) v x = inv v x
