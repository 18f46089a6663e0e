-- ===== src/Organizations/Refines.antt =====
-- The routes of organizations keep to the rules.
use silent_whisper.Prelude.{
  ℕ, ◌≡◌, refl, true, false, inl, inr, Option, none, some, is_some, ap, Bool-cases,
}
use silent_whisper.Errors.{
  Result, ok, Ensures, Ensures-bind, Ensures-ok, Ensures-if, or_throw-some, throw_if-false,
  throw_unless-true,
}
use silent_whisper.Validation.{Param, Value}
use silent_whisper.Authz.Permissions.{org_manage_members}
use silent_whisper.Authz.Database.{Db}
use silent_whisper.Authz.Membership.{
  OrgAccess, is_system_admin_user, require_system_admin, get_org_role, require_org_member,
  require_org_permission, require_org_not_archived,
}
use silent_whisper.Workspaces.Tables.{Caller, append_audit_event}
use silent_whisper.Organizations.{
  create_organization, rename_organization, archive_organization, unarchive_organization,
  add_org_member, change_org_role, delete_org_member, leave_organization, Request, create_request,
  rename_request, archive_request, unarchive_request, add_request, role_request, delete_request,
  leave_request, handle,
}
use silent_whisper.Organizations.Rules.{
  InUse, role_in, Manages, founded, administered, enrolled, appointed, expelled, departed, Effect,
  nothing, audited,
}

admin_of :
    (db : Db) (u : ℕ) {x : Unit {0}}
    → require_system_admin db u ≡ ok x
    → is_system_admin_user db u ≡ true
unfolding require_system_admin
admin_of db u h = throw_unless-true _ _ h

manager-lem :
    (db : Db) (u o : ℕ)
    → Ensures (require_org_permission db u o org_manage_members) (λ _. Manages db u o)
unfolding require_org_permission require_org_member get_org_role
manager-lem db u o =
    Ensures-if (is_system_admin_user db u)
      (λ admin.
        Ensures-bind _ λ _ there. Ensures-ok _ (inl (admin, ap is_some (or_throw-some _ _ there))))
      (λ _. Ensures-bind _ λ r role.
        Ensures-bind _
          λ _ may. Ensures-ok _ (inr (r, or_throw-some _ _ role, throw_unless-true _ _ may)))

manager_of :
    (db : Db) (u o : ℕ) {a : OrgAccess}
    → require_org_permission db u o org_manage_members ≡ ok a
    → Manages db u o
manager_of db u o {a} h = (manager-lem db u o).at a h

InUse-of : (db : Db) (o : ℕ) {x : Unit {0}} → require_org_not_archived db o ≡ ok x → InUse db o
unfolding require_org_not_archived
InUse-of db o h = throw_if-false _ _ h

no_row : {A : Type 0} (o : Option A) → is_some o ≡ false → o ≡ none
no_row none h = refl
no_row (some a) h = absurd (cc)

module _ (c : Caller) (db : Db) where
  abbrev Keeps : Result Db → Type 0
  Keeps m = Ensures m (λ db'. Effect c.id db db')

  create-Keeps : (o : ℕ) (v : Value) → Keeps (create_organization o c v db)
  unfolding create_organization append_audit_event
  create-Keeps o v = Ensures-bind _ λ _ admin. Ensures-bind _ λ t _. Ensures-bind _ λ _ new.
      Ensures-ok _ (
        audited _ refl (
          founded o t (admin_of db c.id admin)
            (no_row (db.organizations o) (throw_if-false _ _ new))))

  rename-Keeps : (p : Param) (v : Value) → Keeps (rename_organization c p v db)
  unfolding rename_organization append_audit_event
  rename-Keeps p v = Ensures-bind _ λ _ admin. Ensures-bind _ λ o _. Ensures-bind _ λ t _.
      Ensures-bind _ λ org there. Ensures-ok _ (
        audited _ refl
          (administered o _ (admin_of db c.id admin) (ap is_some (or_throw-some _ _ there))))

  archive-Keeps : (now : ℕ) (p : Param) → Keeps (archive_organization now c p db)
  unfolding archive_organization append_audit_event
  archive-Keeps now p = Ensures-bind _ λ _ admin. Ensures-bind _ λ o _. Ensures-bind _ λ org there.
      Ensures-ok _ (elim (Bool-cases (is_some org.archived_at)) [
        | inl old ↦ rw old nothing
        | inr new ↦ rw new (
            audited _ refl
              (administered o _ (admin_of db c.id admin) (ap is_some (or_throw-some _ _ there))))
      ])

  unarchive-Keeps : (p : Param) → Keeps (unarchive_organization c p db)
  unfolding unarchive_organization append_audit_event
  unarchive-Keeps p = Ensures-bind _ λ _ admin. Ensures-bind _ λ o _. Ensures-bind _ λ org there.
      Ensures-ok _ (elim (Bool-cases (is_some org.archived_at)) [
        | inr new ↦ rw new nothing
        | inl old ↦ rw old (
            audited _ refl
              (administered o _ (admin_of db c.id admin) (ap is_some (or_throw-some _ _ there))))
      ])

  add-Keeps : (p : Param) (n r : Value) → Keeps (add_org_member c p n r db)
  unfolding add_org_member append_audit_event get_org_role
  add-Keeps p n r = Ensures-bind _ λ o _. Ensures-bind _ λ _ may. Ensures-bind _ λ _ live.
      Ensures-bind _ λ _ _. Ensures-bind _ λ role _. Ensures-bind _ λ t _. Ensures-bind _ λ _ new.
        Ensures-ok _ (
          audited _ refl (
            enrolled o t.id role (manager_of db c.id o may) (InUse-of db o live)
              (no_row (role_in db o t.id) (throw_if-false _ _ new))))

  role-Keeps : (p q : Param) (v : Value) → Keeps (change_org_role c p q v db)
  unfolding change_org_role append_audit_event get_org_role
  role-Keeps p q v = Ensures-bind _ λ o _. Ensures-bind _ λ u _. Ensures-bind _ λ _ may.
      Ensures-bind _ λ _ live. Ensures-bind _ λ role _. Ensures-bind _ λ from there.
        Ensures-bind _ λ _ _. Ensures-ok _ (
          audited _ refl (
            appointed o u role (manager_of db c.id o may) (InUse-of db o live)
              (ap is_some (or_throw-some _ _ there))))

  delete-Keeps : (p q : Param) → Keeps (delete_org_member c p q db)
  unfolding delete_org_member append_audit_event
  delete-Keeps p q = Ensures-bind _ λ o _. Ensures-bind _ λ u _. Ensures-bind _ λ _ may.
      Ensures-bind _ λ _ live. Ensures-bind _ λ _ _. Ensures-bind _ λ _ _.
        Ensures-ok _ (audited _ refl (expelled o u (manager_of db c.id o may) (InUse-of db o live)))

  leave-Keeps : (p : Param) → Keeps (leave_organization c p db)
  unfolding leave_organization append_audit_event require_org_member get_org_role
  leave-Keeps p = Ensures-bind _ λ o _. Ensures-bind _ λ _ member. Ensures-bind _ λ _ live.
      Ensures-bind _ λ _ _.
        Ensures-ok _
          (audited _ refl (departed o (InUse-of db o live) (ap is_some (or_throw-some _ _ member))))

-- Every request for organizations that succeeds makes no change, or a permitted one together with
-- one audit event under the caller's name: system administrators found, rename, archive and
-- unarchive; whoever manages the members of an organization that is not archived adds, appoints and
-- removes them; and a member of such an organization leaves it.
pub handle-Effect :
    (c : Caller) (r : Request) (db : Db) → Ensures (handle c r db) (λ db'. Effect c.id db db')
unfolding handle
handle-Effect c (create_request o v) db = create-Keeps c db o v
handle-Effect c (rename_request o v) db = rename-Keeps c db o v
handle-Effect c (archive_request now o) db = archive-Keeps c db now o
handle-Effect c (unarchive_request o) db = unarchive-Keeps c db o
handle-Effect c (add_request o n r) db = add-Keeps c db o n r
handle-Effect c (role_request o u r) db = role-Keeps c db o u r
handle-Effect c (delete_request o u) db = delete-Keeps c db o u
handle-Effect c (leave_request o) db = leave-Keeps c db o
