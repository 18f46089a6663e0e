-- ===== src/Authz/Checks.antt =====
-- The checks of membershipService.js against what the frontend offers, and what they hide.
use silent_whisper.Prelude.{
  ℕ, ◌≡◌, Bool, true, false, not, ◌&&◌, Option, none, some, is_some, arith,
}
use silent_whisper.Errors.{Result, ok, err, ◌>>=◌, or_throw, throw_if}
use silent_whisper.Authz.Permissions.{
  Role, Permission, workspace_archive, has_permission, has_org_permission, same_permission,
}
use silent_whisper.Authz.Database.{Db}
use silent_whisper.Authz.Membership.{
  is_manager, delegates_archive, channel_not_found, get_workspace_role, is_system_admin_user,
  require_workspace_member, require_workspace_permission, require_org_permission,
  require_org_member, get_org_role, require_channel_member, require_channel_member_or_system_admin,
  get_channel, is_channel_member,
}

abbrev pub is_ok {ℓ} : {A : Type ℓ} → Result A → Bool
is_ok (ok a) = true
is_ok (err e) = false

-- Archiving by a manager of a workspace that does not delegate it.
abbrev pub withheld : Db → ℕ → Option Role → Permission → Bool
withheld db w none p = false
withheld db w (some r) p =
    is_manager r && same_permission p workspace_archive && not (delegates_archive (db.workspaces w))

-- For a user who is no system administrator, the server's check of a permission passes exactly when
-- the frontend's own map grants the user's role the permission: in an organization always, in a
-- workspace save for archiving by a manager where the workspace does not delegate it.
pub offered_is_granted :
    (db : Db) (u w o : ℕ) (p : Permission)
    → is_system_admin_user db u ≡ false
    → (is_ok (require_workspace_permission db u w p) ≡ (
        has_permission (get_workspace_role db u w) p
        && not (withheld db w (get_workspace_role db u w) p)))
      × (is_ok (require_org_permission db u o p) ≡ has_org_permission (get_org_role db u o) p)
unfolding require_workspace_permission require_workspace_member has_permission get_workspace_role
    require_org_permission require_org_member has_org_permission get_org_role ◌>>=◌ or_throw
    throw_if
offered_is_granted db u w o p plain = (ground arith, ground arith)

-- A system administrator passes the check of any permission exactly when the workspace is there.
administrator_needs_workspace :
    (db : Db) (u w : ℕ) (p : Permission)
    → is_system_admin_user db u ≡ true
    → is_ok (require_workspace_permission db u w p) ≡ is_some (db.workspaces w)
unfolding require_workspace_permission ◌>>=◌ or_throw
administrator_needs_workspace db u w p admin = ground arith

-- For a user who is not in a channel and is no system administrator, both checks of a channel
-- give the error of a missing channel, whether the channel is there or not.
outsider_sees_no_channel :
    (db : Db) (u c : ℕ)
    → is_system_admin_user db u ≡ false
    → db.channel_members c u ≡ false
    → (require_channel_member db u c ≡ err channel_not_found)
      × (require_channel_member_or_system_admin db u c ≡ err channel_not_found)
unfolding require_channel_member require_channel_member_or_system_admin get_channel
    is_channel_member ◌>>=◌ or_throw throw_if
outsider_sees_no_channel db u c plain out = (ground arith, ground arith)
