-- ===== src/Workspaces/Integrity/Seats.antt =====
-- Channels and their members under the changes.
use silent_whisper.Prelude.{ℕ, arith, inl, inr}
use silent_whisper.Authz.Database.{Db}
use silent_whisper.Workspaces.Tables.{
  update_workspace, update_channel, insert_member, update_role, remove_member,
  insert_channel_member, delete_channel_member,
}
use silent_whisper.Workspaces.Rules.{
  Exists, Belongs, Change, founded, subscribed, archived, unarchived, shown, named, enrolled,
  reassigned, expelled, departed, handed_over, opened, opened_and_joined, channel_named, joined,
  brought_in, taken_out,
}
use silent_whisper.Workspaces.Integrity.{OwnersFit, ChannelsLodged, MembersSeated}
use silent_whisper.Authz.Membership.{is_system_admin_user}
use silent_whisper.Workspaces.Integrity.Owners.{member-Exists}

-- Who belongs to a workspace belongs to one that is there.
Belongs-Exists : (db : Db) (u w : ℕ) → OwnersFit db → Belongs db u w → Exists db w
Belongs-Exists db u w inv (inl m) = member-Exists db w u inv m
Belongs-Exists db u w inv (inr (_, there)) = there

-- A change keeps every channel in a workspace that is there.
pub Change-ChannelsLodged :
    (u : ℕ) (db db' : Db) → OwnersFit db → ChannelsLodged db → Change u db db' → ChannelsLodged db'
unfolding update_workspace update_channel insert_member update_role remove_member
    insert_channel_member delete_channel_member
Change-ChannelsLodged u db db' fit inv (founded w row fresh own) x = ground (arith, inv x)
Change-ChannelsLodged u db db' fit inv (subscribed w ws found vis live absent) x = inv x
Change-ChannelsLodged u db db' fit inv (archived w t held live) x = ground (arith, inv x)
Change-ChannelsLodged u db db' fit inv (unarchived w held) x = ground (arith, inv x)
Change-ChannelsLodged u db db' fit inv (shown w vis held live) x = ground (arith, inv x)
Change-ChannelsLodged u db db' fit inv (named w n held live) x = ground (arith, inv x)
Change-ChannelsLodged u db db' fit inv (enrolled w t r held live absent low) x = inv x
Change-ChannelsLodged u db db' fit inv (reassigned w t r r' held live found low low' second) x =
    inv x
Change-ChannelsLodged u db db' fit inv (expelled w t r held live found low second) x = inv x
Change-ChannelsLodged u db db' fit inv (departed w r live found low) x = inv x
Change-ChannelsLodged u db db' fit inv (handed_over w t ws held live found there other) x =
    ground (arith, inv x)
Change-ChannelsLodged u db db' fit inv (opened w c row held live fresh lies) x =
    ground (arith, inv x, Belongs-Exists db u w fit held)
Change-ChannelsLodged u db db' fit inv (opened_and_joined w c row held live fresh lies) x =
    ground (arith, inv x, member-Exists db w u fit held)
Change-ChannelsLodged u db db' fit inv (channel_named w c ch n held found lies live) x =
    ground (arith, inv x)
Change-ChannelsLodged u db db' fit inv (joined w c ch held live found lies public) x = inv x
Change-ChannelsLodged u db db' fit inv (brought_in w c t ch held live found lies there) x = inv x
Change-ChannelsLodged u db db' fit inv (taken_out w c t ch held live found lies) x = inv x

-- A change keeps everybody out of the channels of a workspace without a role in it.
pub Change-MembersSeated :
    (u : ℕ) (db db' : Db) → MembersSeated db → Change u db db' → MembersSeated db'
unfolding update_workspace update_channel insert_member update_role remove_member
    insert_channel_member delete_channel_member is_system_admin_user
Change-MembersSeated u db db' inv (founded w row fresh own) x y = ground (arith, inv x y)
Change-MembersSeated u db db' inv (subscribed w ws found vis live absent) x y =
    ground (arith, inv x y)
Change-MembersSeated u db db' inv (archived w t held live) x y = inv x y
Change-MembersSeated u db db' inv (unarchived w held) x y = inv x y
Change-MembersSeated u db db' inv (shown w vis held live) x y = inv x y
Change-MembersSeated u db db' inv (named w n held live) x y = inv x y
Change-MembersSeated u db db' inv (enrolled w t r held live absent low) x y =
    ground (arith, inv x y)
Change-MembersSeated u db db' inv (reassigned w t r r' held live found low low' second) x y =
    ground (arith, inv x y)
Change-MembersSeated u db db' inv (expelled w t r held live found low second) x y =
    ground (arith, inv x y)
Change-MembersSeated u db db' inv (departed w r live found low) x y = ground (arith, inv x y)
Change-MembersSeated u db db' inv (handed_over w t ws held live found there other) x y =
    ground (arith, inv x y)
Change-MembersSeated u db db' inv (opened w c row held live fresh lies) x y =
    ground (arith, inv x y)
Change-MembersSeated u db db' inv (opened_and_joined w c row held live fresh lies) x y =
    ground (arith, inv x y)
Change-MembersSeated u db db' inv (channel_named w c ch n held found lies live) x y =
    ground (arith, inv x y)
Change-MembersSeated u db db' inv (joined w c ch held live found lies public) x y =
    ground (arith, inv x y)
Change-MembersSeated u db db' inv (brought_in w c t ch held live found lies there) x y =
    ground (arith, inv x y)
Change-MembersSeated u db db' inv (taken_out w c t ch held live found lies) x y =
    ground (arith, inv x y)
