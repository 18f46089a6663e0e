-- ===== src/Organizations.antt =====
-- backend/src/routes/organizations.js: the routes that change organizations and their members.
pub mod Rules
pub mod Refines
pub mod Rows
pub mod Seated
pub mod Powers
mod Examples
use silent_whisper.Prelude.{
  ℕ, String, Bool, true, false, not, ◌&&◌, Option, none, some, is_some, List, [], ◌∷◌, ◌++◌, ◌==◌,
  if◌then◌else◌, update,
}
use silent_whisper.Text.{Text, codes}
use silent_whisper.Errors.{
  AppError, validation_error, conflict_error, not_found_error, unhandled_error, Result, ok, err,
  ◌>>=◌, ◌>>◌, throw_if, or_throw,
}
use silent_whisper.Validation.{
  Param, Value, undefined, assert_uuid, assert_name, assert_username, assert_enum,
}
use silent_whisper.Authz.Permissions.{OrgRole, org_admin, org_member, org_manage_members}
use silent_whisper.Authz.Database.{
  Db, Organization, OrgMember, user_by_id, user_by_username, org_role_of, organization_created,
  organization_renamed, organization_archive_status_change, organization_membership_change, action,
  removed, renamed, organization_named, org_member_added, org_role_changed,
}
use silent_whisper.Authz.Membership.{
  organization_not_found, require_system_admin, get_org_role, require_org_member,
  require_org_permission, require_org_not_archived,
}
use silent_whisper.Workspaces.Tables.{Caller, append_audit_event, map_row}

-- db('organizations').where({ id }).update(…)
abbrev pub update_organization : ℕ → (Organization → Organization) → Db → Db
update_organization o f db = record db {
  organizations = update db.organizations o (map_row f (db.organizations o));
}

abbrev pub is_seat : ℕ → ℕ → OrgMember → Bool
is_seat o u m = m.organization_id == o && m.user_id == u

-- where({ organization_id, user_id }).update({ org_role })
abbrev pub set_org_role : ℕ → ℕ → OrgRole → List OrgMember → List OrgMember
set_org_role o u r [] = []
set_org_role o u r (m ∷ ms) =
    let rest = set_org_role o u r ms in
    if is_seat o u m then record m { org_role = r } ∷ rest else m ∷ rest

-- where({ organization_id, user_id }).del()
abbrev pub drop_seat : ℕ → ℕ → List OrgMember → List OrgMember
drop_seat o u [] = []
drop_seat o u (m ∷ ms) = let rest = drop_seat o u ms in if is_seat o u m then rest else m ∷ rest

abbrev pub seat : ℕ → ℕ → OrgRole → OrgMember
seat o u r = record { organization_id = o; user_id = u; org_role = r }

abbrev pub with_members : List OrgMember → Db → Db
with_members ms db = record db { organization_members = ms }

abbrev pub bad_org_id : String
bad_org_id = "orgId must be a valid UUID"

abbrev pub name_message : String
name_message = "organization name must be 1-100 characters"

-- ASSIGNABLE_ORG_ROLES
abbrev pub assignable_org_roles : List (Text × OrgRole)
assignable_org_roles = (codes "ORG_ADMIN", org_admin) ∷ (codes "ORG_MEMBER", org_member) ∷ []

abbrev pub role_message : String
role_message = "role must be one of: ORG_ADMIN, ORG_MEMBER"

-- The role that is asked for, or ORG_MEMBER.
unfoldable pub optional_org_role : Value → Result OrgRole
optional_org_role undefined = ok org_member
optional_org_role v = assert_enum v assignable_org_roles role_message

-- POST /, with the identifier that the database makes
unfoldable pub create_organization : ℕ → Caller → Value → Db → Result Db
create_organization o caller name db = do
  require_system_admin db caller.id
  name ← assert_name name name_message
  throw_if (is_some (db.organizations o)) unhandled_error
  ok (
      append_audit_event caller organization_created o (organization_named name) (record db {
        organizations =
            update db.organizations o
              (some (record { name = name; archived_at = none; archived_by = none }));
        organization_members = db.organization_members ++ seat o caller.id org_admin ∷ [];
      }))

-- PATCH /:orgId
unfoldable pub rename_organization : Caller → Param → Value → Db → Result Db
rename_organization caller org_param name db = do
  require_system_admin db caller.id
  o ← assert_uuid org_param bad_org_id
  name ← assert_name name name_message
  org ← or_throw (db.organizations o) organization_not_found
  ok (
      append_audit_event caller organization_renamed o (renamed org.name name)
        (update_organization o (λ x. record x { name = name }) db))

abbrev pub archived_by_caller : ℕ → ℕ → Organization → Organization
archived_by_caller now u x = record x { archived_at = some now; archived_by = some u }

-- POST /:orgId/archive
unfoldable pub archive_organization : ℕ → Caller → Param → Db → Result Db
archive_organization now caller org_param db = do
  require_system_admin db caller.id
  o ← assert_uuid org_param bad_org_id
  org ← or_throw (db.organizations o) organization_not_found
  ok (
      if is_some org.archived_at
      then db
      else append_audit_event caller organization_archive_status_change o (action "archive")
          (update_organization o (archived_by_caller now caller.id) db))

-- POST /:orgId/unarchive
unfoldable pub unarchive_organization : Caller → Param → Db → Result Db
unarchive_organization caller org_param db = do
  require_system_admin db caller.id
  o ← assert_uuid org_param bad_org_id
  org ← or_throw (db.organizations o) organization_not_found
  ok (
      if is_some org.archived_at
      then append_audit_event caller organization_archive_status_change o (action "unarchive")
          (update_organization o (λ x. record x { archived_at = none; archived_by = none }) db)
      else db)

-- POST /:orgId/members
unfoldable pub add_org_member : Caller → Param → Value → Value → Db → Result Db
add_org_member caller org_param username role db = do
  o ← assert_uuid org_param bad_org_id
  require_org_permission db caller.id o org_manage_members
  require_org_not_archived db o
  username ← assert_username username
  role ← optional_org_role role
  target ←
      or_throw (user_by_username username db.users)
        (validation_error "No user with that username exists")
  throw_if (is_some (get_org_role db target.id o))
      (conflict_error "User is already a member of this organization")
  ok (
      append_audit_event caller organization_membership_change o
        (org_member_added target.id target.username role)
        (with_members (db.organization_members ++ seat o target.id role ∷ []) db))

abbrev pub member_not_found : AppError
member_not_found = not_found_error "Organization member not found"

-- PATCH /:orgId/members/:userId; the role and the user are the two parts of a join
unfoldable pub change_org_role : Caller → Param → Param → Value → Db → Result Db
change_org_role caller org_param user_param role db = do
  o ← assert_uuid org_param bad_org_id
  u ← assert_uuid user_param "userId must be a valid UUID"
  require_org_permission db caller.id o org_manage_members
  require_org_not_archived db o
  role ← assert_enum role assignable_org_roles role_message
  from ← or_throw (get_org_role db u o) member_not_found
  target ← or_throw (user_by_id u db.users) member_not_found
  ok (
      append_audit_event caller organization_membership_change o
        (org_role_changed u target.username from role)
        (with_members (set_org_role o u role db.organization_members) db))

-- DELETE /:orgId/members/:userId
unfoldable pub delete_org_member : Caller → Param → Param → Db → Result Db
delete_org_member caller org_param user_param db = do
  o ← assert_uuid org_param bad_org_id
  u ← assert_uuid user_param "userId must be a valid UUID"
  require_org_permission db caller.id o org_manage_members
  require_org_not_archived db o
  or_throw (get_org_role db u o) member_not_found
  target ← or_throw (user_by_id u db.users) member_not_found
  ok (
      append_audit_event caller organization_membership_change o
        (removed "remove" u target.username)
        (with_members (drop_seat o u db.organization_members) db))

-- POST /:orgId/leave; the foreign key of a member's row makes the user's row present
unfoldable pub leave_organization : Caller → Param → Db → Result Db
leave_organization caller org_param db = do
  o ← assert_uuid org_param bad_org_id
  require_org_member db caller.id o
  require_org_not_archived db o
  target ← or_throw (user_by_id caller.id db.users) unhandled_error
  ok (
      append_audit_event caller organization_membership_change o
        (removed "leave" caller.id target.username)
        (with_members (drop_seat o caller.id db.organization_members) db))

pub data Request : Type 0 where
  create_request : ℕ → Value → Request
  rename_request : Param → Value → Request
  archive_request : ℕ → Param → Request
  unarchive_request : Param → Request
  add_request : Param → Value → Value → Request
  role_request : Param → Param → Value → Request
  delete_request : Param → Param → Request
  leave_request : Param → Request

unfoldable pub handle : Caller → Request → Db → Result Db
handle c (create_request o v) db = create_organization o c v db
handle c (rename_request o v) db = rename_organization c o v db
handle c (archive_request now o) db = archive_organization now c o db
handle c (unarchive_request o) db = unarchive_organization c o db
handle c (add_request o n r) db = add_org_member c o n r db
handle c (role_request o u r) db = change_org_role c o u r db
handle c (delete_request o u) db = delete_org_member c o u db
handle c (leave_request o) db = leave_organization c o db

abbrev pub after : Db → Result Db → Db
after db (ok db') = db'
after db (err e) = db

-- An error leaves the tables.
unfoldable pub serve_all : Db → List (Caller × Request) → Db
serve_all db [] = db
serve_all db ((c, r) ∷ rs) = serve_all (after db (handle c r db)) rs
