-- ===== src/Workspaces/Refines/Members.antt =====
-- The routes on members keep the rules.
use silent_whisper.Prelude.{ℕ, ◌≡◌, ◌≢◌, refl, ◌⊎◌, inl, inr, Bool, true, false, some, arith, ◌==◌}
use silent_whisper.Errors.{
  or_throw-some, throw_if-false, Result, ok, Ensures, Ensures-bind, Ensures-ok,
}
use silent_whisper.Validation.{Param, Value, undefined}
use silent_whisper.Authz.Permissions.{Role, workspace_manage_managers}
use silent_whisper.Authz.Database.{Db}
use silent_whisper.Workspaces.Tables.{Caller, Done, append_audit_event, is_owner}
use silent_whisper.Workspaces.Members.{
  optional_role, also_require, require_manage_managers, MemberRow, member_row, add_member,
  change_role, delete_member, leave_workspace, transfer_ownership,
}
use silent_whisper.Workspaces.Rules.{
  Holds, enrolled, reassigned, expelled, departed, handed_over, Effect, audited,
}
use silent_whisper.Workspaces.Refines.Checks.{
  permission-Holds, writable, get_workspace_role-IsMember, not_member, assigned-not_owner,
}

pub optional-not_owner : (v : Value) (r : Role) → optional_role v ≡ ok r → is_owner r ≡ false
unfolding optional_role
optional-not_owner undefined r h = ground arith
optional-not_owner v r h = assigned-not_owner v _ r h

role-member_row :
    (db : Db) (w t : ℕ) (m : MemberRow)
    → member_row db w t ≡ some m
    → db.workspace_members w t ≡ some m.system_role
unfolding member_row
role-member_row db w t m h = ground arith

not_equal : (a b : ℕ) → (a == b) ≡ false → a ≢ b
not_equal a b h e = ground arith

manage_managers-Holds :
    (db : Db) (u w : ℕ)
    → Ensures (require_manage_managers db u w) (λ _. Holds db u w workspace_manage_managers)
unfolding require_manage_managers
manage_managers-Holds db u w =
    Ensures-bind _ λ _ held. Ensures-ok _ (permission-Holds db u w workspace_manage_managers held)

-- The second check was passed, or not made.
second_check :
    (db : Db) (u w : ℕ) (b : Bool) {x : Unit {0}}
    → also_require b (require_manage_managers db u w) ≡ ok x
    → (b ≡ false) ⊎ Holds db u w workspace_manage_managers
unfolding also_require
second_check db u w true {x} h = inr ((manage_managers-Holds db u w).at x h)
second_check db u w false h = inl refl

module _ (c : Caller) (db : Db) where
  abbrev Keeps : Result Done → Type 0
  Keeps m = Ensures m (λ d. Effect c.id db d.db)

  pub transfer_ownership-Keeps : (p : Param) (v : Value) → Keeps (transfer_ownership c p v db)
  unfolding transfer_ownership append_audit_event
  transfer_ownership-Keeps p v = Ensures-bind _ λ w _. Ensures-bind _ λ _ held.
      Ensures-bind _ λ _ live. Ensures-bind _ λ ws found. Ensures-bind _ λ _ _.
        Ensures-bind _ λ t _. Ensures-bind _ λ r role. Ensures-bind _ λ _ other. Ensures-ok _ (
          audited _ refl (
            handed_over w t.id ws (permission-Holds db c.id w _ held) (writable db w live)
              (or_throw-some _ _ found)
              (get_workspace_role-IsMember db t.id w (or_throw-some _ _ role))
              (not_equal _ _ (throw_if-false _ _ other))))

  pub add_member-Keeps : (p : Param) (u v : Value) → Keeps (add_member c p u v db)
  unfolding add_member append_audit_event
  add_member-Keeps p u v = Ensures-bind _ λ w _. Ensures-bind _ λ _ _. Ensures-bind _ λ r role.
      Ensures-bind _ λ _ held. Ensures-bind _ λ _ live. Ensures-bind _ λ t _.
        Ensures-bind _ λ _ absent. Ensures-ok _ (
          audited _ refl (
            enrolled w t.id r (permission-Holds db c.id w _ held) (writable db w live)
              (not_member db t.id w (throw_if-false _ _ absent)) (optional-not_owner v r role)))

  pub change_role-Keeps : (p q : Param) (v : Value) → Keeps (change_role c p q v db)
  unfolding change_role append_audit_event
  change_role-Keeps p q v = Ensures-bind _ λ w _. Ensures-bind _ λ t _. Ensures-bind _ λ _ held.
      Ensures-bind _ λ _ live. Ensures-bind _ λ r role. Ensures-bind _ λ m row.
        Ensures-bind _ λ _ kept. Ensures-bind _ λ _ second. Ensures-ok _ (
          audited _ refl (
            reassigned w t m.system_role r (permission-Holds db c.id w _ held) (writable db w live)
              (role-member_row db w t m (or_throw-some _ _ row)) (throw_if-false _ _ kept)
              (assigned-not_owner v _ r role) (second_check db c.id w _ second)))

  pub delete_member-Keeps : (p q : Param) → Keeps (delete_member c p q db)
  unfolding delete_member append_audit_event
  delete_member-Keeps p q = Ensures-bind _ λ w _. Ensures-bind _ λ t _. Ensures-bind _ λ _ held.
      Ensures-bind _ λ _ live. Ensures-bind _ λ m row. Ensures-bind _ λ _ kept.
        Ensures-bind _ λ _ second. Ensures-ok _ (
          audited _ refl (
            expelled w t m.system_role (permission-Holds db c.id w _ held) (writable db w live)
              (role-member_row db w t m (or_throw-some _ _ row)) (throw_if-false _ _ kept)
              (second_check db c.id w _ second)))

  pub leave_workspace-Keeps : (p : Param) → Keeps (leave_workspace c p db)
  unfolding leave_workspace append_audit_event
  leave_workspace-Keeps p = Ensures-bind _ λ w _. Ensures-bind _ λ _ _. Ensures-bind _ λ _ live.
      Ensures-bind _ λ m row. Ensures-bind _ λ _ kept. Ensures-ok _ (
        audited _ refl (
          departed w m.system_role (writable db w live)
            (role-member_row db w c.id m (or_throw-some _ _ row)) (throw_if-false _ _ kept)))
