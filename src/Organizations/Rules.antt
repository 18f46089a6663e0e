-- ===== src/Organizations/Rules.antt =====
-- The rules for organizations, said without the routes.
use silent_whisper.Prelude.{
  ℕ, ◌≡◌, ◌⊎◌, true, false, Option, none, some, is_some, [], ◌∷◌, ◌++◌, update,
}
use silent_whisper.Text.{Text}
use silent_whisper.Authz.Permissions.{
  OrgRole, org_admin, org_manage_members, org_role_permissions, includes,
}
use silent_whisper.Authz.Database.{Db, Organization, org_role_of, AuditEvent, record_event}
use silent_whisper.Authz.Membership.{is_system_admin_user, org_archived}
use silent_whisper.Organizations.{update_organization, set_org_role, drop_seat, seat, with_members}

abbrev pub Exists : Db → ℕ → Type 0
Exists db o = is_some (db.organizations o) ≡ true

abbrev pub InUse : Db → ℕ → Type 0
InUse db o = org_archived (db.organizations o) ≡ false

abbrev pub role_in : Db → ℕ → ℕ → Option OrgRole
role_in db o u = org_role_of o u db.organization_members

-- A system administrator looks after every organization, a member with the right role after one.
abbrev pub Manages : Db → ℕ → ℕ → Type 0
Manages db u o =
    ((is_system_admin_user db u ≡ true) × Exists db o)
    ⊎ ((r : OrgRole) × (role_in db o u ≡ some r)
        × (includes (org_role_permissions r) org_manage_members ≡ true))

-- One change of the tables by the user u.
pub data Change (u : ℕ) (db : Db) : Db → Type 0 where
  founded :
      (o : ℕ) (t : Text)
      → is_system_admin_user db u ≡ true
      → db.organizations o ≡ none
      → Change u db (record db {
        organizations =
            update db.organizations o
              (some (record { name = t; archived_at = none; archived_by = none }));
        organization_members = db.organization_members ++ seat o u org_admin ∷ [];
      })
  administered :
      (o : ℕ) (f : Organization → Organization)
      → is_system_admin_user db u ≡ true
      → Exists db o
      → Change u db (update_organization o f db)
  enrolled :
      (o v : ℕ) (r : OrgRole)
      → Manages db u o
      → InUse db o
      → role_in db o v ≡ none
      → Change u db (with_members (db.organization_members ++ seat o v r ∷ []) db)
  appointed :
      (o v : ℕ) (r : OrgRole)
      → Manages db u o
      → InUse db o
      → is_some (role_in db o v) ≡ true
      → Change u db (with_members (set_org_role o v r db.organization_members) db)
  expelled :
      (o v : ℕ)
      → Manages db u o
      → InUse db o
      → Change u db (with_members (drop_seat o v db.organization_members) db)
  departed :
      (o : ℕ)
      → InUse db o
      → is_some (role_in db o u) ≡ true
      → Change u db (with_members (drop_seat o u db.organization_members) db)

-- A route makes no change, or one that it writes into the audit log under its caller's name.
pub data Effect (u : ℕ) (db : Db) : Db → Type 0 where
  nothing : Effect u db db
  audited :
      {db' : Db} (e : AuditEvent)
      → e.actor_id ≡ u
      → Change u db db'
      → Effect u db (record_event e db')
