-- ===== src/Workspaces/Refines/Checks.antt =====
-- What a check that passed tells.
use silent_whisper.Prelude.{
  ℕ, String, ◌≡◌, refl, ◌⊎◌, inl, inr, Bool, true, false, Option, none, some, is_some, arith,
  Option-cases, ap,
}
use silent_whisper.Errors.{
  or_throw-some, throw_if-false, throw_unless-true, ok, ◌>>=◌, throw_if, or_throw, Ensures,
  Ensures-bind, Ensures-ok, Ensures-if,
}
use silent_whisper.Authz.Permissions.{Role, Permission}
use silent_whisper.Authz.Database.{Db, Channel}
use silent_whisper.Validation.{Param, Value, assert_enum}
use silent_whisper.Authz.Membership.{
  Access, is_system_admin_user, require_workspace_permission, require_workspace_member,
  require_workspace_not_archived, require_workspace_member_or_system_admin,
  require_channel_member_or_system_admin, require_channel_member, get_workspace_role, get_channel,
  is_channel_member,
}
use silent_whisper.Workspaces.Tables.{is_owner, assignable_workspace_roles, lies_here, when}
use silent_whisper.Workspaces.Rules.{
  Holds, Writable, Belongs, Tends, IsMember, IsAdmin, Exists, Change, Effect, nothing,
}

permission-lem :
    (db : Db) (u w : ℕ) (p : Permission)
    → Ensures (require_workspace_permission db u w p) (λ _. Holds db u w p)
unfolding require_workspace_permission require_workspace_member get_workspace_role
permission-lem db u w p =
    Ensures-if (is_system_admin_user db u)
      (λ admin.
        Ensures-bind _ λ ws found. Ensures-ok _ (inl (admin, ap is_some (or_throw-some _ _ found))))
      (λ plain. Ensures-bind _ λ r role. Ensures-bind _ λ _ g. Ensures-bind _ λ _ d.
        Ensures-ok _
          (inr (r, or_throw-some _ _ role, (throw_unless-true _ _ g, throw_if-false _ _ d))))

-- A permission check that passes tells that the caller holds the permission.
pub permission-Holds :
    (db : Db) (u w : ℕ) (p : Permission) {a : Access}
    → require_workspace_permission db u w p ≡ ok a
    → Holds db u w p
permission-Holds db u w p {a} h = (permission-lem db u w p).at a h

pub writable :
    (db : Db) (w : ℕ) {x : Unit {0}} → require_workspace_not_archived db w ≡ ok x → Writable db w
unfolding require_workspace_not_archived
writable db w h = throw_if-false _ _ h

pub get_workspace_role-IsMember :
    (db : Db) (u w : ℕ) {r : Role} → get_workspace_role db u w ≡ some r → IsMember db w u
unfolding get_workspace_role
get_workspace_role-IsMember db u w h = ap is_some h

pub not_member :
    (db : Db) (u w : ℕ)
    → is_some (get_workspace_role db u w) ≡ false
    → db.workspace_members w u ≡ none
unfolding get_workspace_role
not_member db u w h = elim (Option-cases (db.workspace_members w u)) [ inl e ↦ e | inr (r, e) ↦ cc ]

-- Who gets past the check of membership, and how.
abbrev pub Entry : Db → ℕ → ℕ → Access → Type 0
Entry db u w a =
    ((a.via_system_admin_override ≡ false) × IsMember db w u)
    ⊎ ((a.via_system_admin_override ≡ true) × IsAdmin db u × Exists db w)

pub entry :
    (db : Db) (u w : ℕ) (a : Access)
    → require_workspace_member_or_system_admin db u w ≡ ok a
    → Entry db u w a
unfolding require_workspace_member_or_system_admin get_workspace_role or_throw ◌>>=◌
entry db u w a h = ground arith

pub entry-Belongs : (db : Db) (u w : ℕ) (a : Access) → Entry db u w a → Belongs db u w
entry-Belongs db u w a (inl (_, m)) = inl m
entry-Belongs db u w a (inr (_, admin, there)) = inr (admin, there)

-- The channel that a check returns is there, and the caller may look after it.
pub tended :
    (db : Db) (u c : ℕ) (ch : Channel)
    → require_channel_member_or_system_admin db u c ≡ ok ch
    → Tends db u c × (db.channels c ≡ some ch)
unfolding require_channel_member_or_system_admin require_channel_member get_channel
    is_channel_member or_throw throw_if ◌>>=◌
tended db u c ch h = ground arith

pub own_channel :
    (db : Db) (u c : ℕ) (ch : Channel)
    → require_channel_member db u c ≡ ok ch
    → Tends db u c × (db.channels c ≡ some ch)
unfolding require_channel_member get_channel is_channel_member or_throw throw_if ◌>>=◌
own_channel db u c ch h = ground arith

pub in_workspace : (p : Param) (w : ℕ) (o : Option ℕ) → lies_here p w o ≡ true → o ≡ some w
in_workspace p w o h = ground arith

pub assigned-not_owner :
    (v : Value) (m : String) (r : Role)
    → assert_enum v assignable_workspace_roles m ≡ ok r
    → is_owner r ≡ false
unfolding assert_enum
assigned-not_owner (Value.text t) m r h = ground arith
assigned-not_owner v m r h = cc

pub Effect-when :
    (u : ℕ) {db x : Db} (b : Bool) → (b ≡ true → Effect u db x) → Effect u db (when b x db)
unfolding when
Effect-when u true k = k refl
Effect-when u false k = nothing

pub Change-when :
    (u : ℕ) {db x y : Db} (b : Bool)
    → (b ≡ true → Change u db x)
    → (b ≡ false → Change u db y)
    → Change u db (when b x y)
unfolding when
Change-when u true k l = k refl
Change-when u false k l = l refl
