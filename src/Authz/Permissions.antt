-- ===== src/Authz/Permissions.antt =====
-- backend/src/authz/permissions.js, and the copy of its maps in frontend/src/authz/permissions.js.
use silent_whisper.Prelude.{Bool, true, false, ◌||◌, List, [], ◌∷◌, Option, none, some}

pub data Role : Type 0 where
  owner manager member : Role

pub data OrgRole : Type 0 where
  org_admin org_member : OrgRole

pub data Permission : Type 0 where
  workspace_manage_members workspace_manage_managers workspace_archive
        workspace_transfer_ownership :
      Permission
  workspace_change_visibility workspace_manage_settings org_invite org_manage_members : Permission

-- WORKSPACE_ROLE_PERMISSIONS
abbrev pub workspace_role_permissions : Role → List Permission
workspace_role_permissions owner =
    workspace_manage_members ∷ workspace_manage_managers ∷ workspace_archive
    ∷ workspace_transfer_ownership ∷ workspace_change_visibility ∷ workspace_manage_settings ∷ []
workspace_role_permissions manager = workspace_manage_members ∷ workspace_archive ∷ []
workspace_role_permissions member = []

-- ORG_ROLE_PERMISSIONS
abbrev pub org_role_permissions : OrgRole → List Permission
org_role_permissions org_admin = org_invite ∷ org_manage_members ∷ []
org_role_permissions org_member = []

abbrev pub same_permission : Permission → Permission → Bool
same_permission workspace_manage_members workspace_manage_members = true
same_permission workspace_manage_managers workspace_manage_managers = true
same_permission workspace_archive workspace_archive = true
same_permission workspace_transfer_ownership workspace_transfer_ownership = true
same_permission workspace_change_visibility workspace_change_visibility = true
same_permission workspace_manage_settings workspace_manage_settings = true
same_permission org_invite org_invite = true
same_permission org_manage_members org_manage_members = true
same_permission _ _ = false

-- permissions.includes(permission)
abbrev pub includes : List Permission → Permission → Bool
includes [] p = false
includes (q ∷ qs) p = same_permission q p || includes qs p

-- The frontend's own WORKSPACE_ROLE_PERMISSIONS
abbrev pub offered_in_workspace : Role → List Permission
offered_in_workspace owner =
    workspace_manage_members ∷ workspace_manage_managers ∷ workspace_archive
    ∷ workspace_transfer_ownership ∷ workspace_change_visibility ∷ workspace_manage_settings ∷ []
offered_in_workspace manager = workspace_manage_members ∷ workspace_archive ∷ []
offered_in_workspace member = []

-- The frontend's own ORG_ROLE_PERMISSIONS
abbrev pub offered_in_organization : OrgRole → List Permission
offered_in_organization org_admin = org_invite ∷ org_manage_members ∷ []
offered_in_organization org_member = []

-- frontend: `hasPermission`, `hasOrgPermission`; no role is an unknown one.
unfoldable pub has_permission : Option Role → Permission → Bool
has_permission none p = false
has_permission (some r) p = includes (offered_in_workspace r) p

unfoldable pub has_org_permission : Option OrgRole → Permission → Bool
has_org_permission none p = false
has_org_permission (some r) p = includes (offered_in_organization r) p

unfoldable pub has_org_management_access : Bool → Option OrgRole → Bool
unfolding has_org_permission
has_org_management_access is_system_admin role =
    is_system_admin || has_org_permission role org_manage_members

abbrev pub is_admin_role : Role → Bool
is_admin_role owner = true
is_admin_role manager = true
is_admin_role member = false

-- The roles of the caller's workspaces.
abbrev pub some_admin_role : List Role → Bool
some_admin_role [] = false
some_admin_role (r ∷ rs) = is_admin_role r || some_admin_role rs

unfoldable pub has_any_workspace_admin_access : Bool → List Role → Bool
has_any_workspace_admin_access is_system_admin roles = is_system_admin || some_admin_role roles
