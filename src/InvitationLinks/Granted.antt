-- ===== src/InvitationLinks/Granted.antt =====
-- What an invitation with a token gives, and what it wants.
use silent_whisper.Prelude.{
  ℕ, ◌≤◌, ◌≡◌, refl, true, false, Option, some, [], ◌∷◌, ◌++◌, ◌==◌, arith, ==_refl,
}
use silent_whisper.Text.{Text}
use silent_whisper.Errors.{Ensures, Ensures-bind, Ensures-ok, throw_if-false, or_throw-some}
use silent_whisper.Validation.{Value}
use silent_whisper.Authz.Permissions.{org_member}
use silent_whisper.Authz.Database.{Db, AuditEvent, record_event}
use silent_whisper.Workspaces.Tables.{append_audit_event, insert_member}
use silent_whisper.Organizations.{seat}
use silent_whisper.Invitations.{Scope, organization_scope, workspace_scope}
use silent_whisper.Auth.Accounts.{Outside}
use silent_whisper.InvitationLinks.{
  Link, Hall, is_pending_link, find_by_hash, closed_scope, enroll, with_user, redeem,
}

-- The memberships that a scope gives: in an organization the row with the role that the invitation
-- names, in a workspace that role, and a plain membership of the default organization.
abbrev pub Gives : ℕ → Scope → Option ℕ → Db → Db → Type 0
Gives user (organization_scope o role) default db db' =
    db'.organization_members ≡ db.organization_members ++ seat o user role ∷ []
Gives user (workspace_scope w role) default db db' =
    (db'.workspace_members w user ≡ some role)
    × ((o : ℕ) × (default ≡ some o)
        × (db'.organization_members ≡ db.organization_members ++ seat o user org_member ∷ []))

-- The roles in workspaces of all users but one stay.
abbrev pub OthersKeep : ℕ → Db → Db → Type 0
OthersKeep user db db' =
    (w v : ℕ) → (user == v) ≡ false → db'.workspace_members w v ≡ db.workspace_members w v

enroll-Gives :
    (u : ℕ) (s : Scope) (default : Option ℕ) (db : Db)
    → Ensures (enroll u s default db) (λ db'. Gives u s default db db' × OthersKeep u db db')
unfolding enroll insert_member
enroll-Gives u (organization_scope o r) default db = Ensures-ok _ (refl, λ w v other. refl)
enroll-Gives u (workspace_scope w r) default db = Ensures-bind _ λ o found. Ensures-ok _ (
  (rw (==_refl w, ==_refl u) refl, (o, or_throw-some _ _ found, refl)),
  λ x v other. ground (arith, other),
)

Gives-record_event :
    (u : ℕ) (s : Scope) (d : Option ℕ) (db db' : Db) (e : AuditEvent)
    → Gives u s d db db'
    → Gives u s d db (record_event e db')
unfolding record_event
Gives-record_event u (organization_scope o r) d db db' e h = h
Gives-record_event u (workspace_scope w r) d db db' e h = h

-- The name of the new user is no membership.
Gives-with_user :
    (u v : ℕ) (t : Text) (s : Scope) (d : Option ℕ) (db db' : Db)
    → Gives u s d (with_user v t db) db'
    → Gives u s d db db'
Gives-with_user u v t (organization_scope o r) d db db' h = h
Gives-with_user u v t (workspace_scope w r) d db db' h = h

-- The invitation waits, is in time, and its scope is in use.
abbrev pub IsGood : ℕ → Link → Db → Type 0
IsGood now l db =
    (is_pending_link l.link_status ≡ true)
    × (now ≤ l.expires_at)
    × (closed_scope l.scope db ≡ false)

-- Who redeems a token had one of an invitation that waits, is in time and leads to a workspace or
-- an organization in use. The new account becomes a member of it with the role that the invitation
-- names; no other row of an organization's members is added or changed, save that an invitation
-- into a workspace also makes a plain member of the default organization; and nobody else's role in
-- a workspace changes.
pub redeem-Gives :
    (o : Outside) (ip t : Text) (u e p : Value) (h : Hall)
    → Ensures (redeem o ip t u e p h) (λ h'.
      (l : Link) × (find_by_hash (o.token_env.hash_token t) h.links ≡ some l)
      × IsGood o.token_env.now l h.tables
      × Gives o.new_id l.scope h.default_organization h.tables h'.tables
      × OthersKeep o.new_id h.tables h'.tables)
unfolding redeem append_audit_event record_event
redeem-Gives o ip t u e p h = Ensures-bind _ λ name _. Ensures-bind _ λ _ _. Ensures-bind _ λ _ _.
    Ensures-bind _ λ row found. Ensures-bind _ λ _ live. Ensures-bind _ λ _ in_use.
      Ensures-bind _ λ _ _. Ensures-bind _ λ _ _. Ensures-bind _ λ db entered.
        let off = throw_if-false _ _ live in
        let (gives, others) =
          (enroll-Gives o.new_id row.scope h.default_organization
              (with_user o.new_id name h.tables)).at
            db entered in
        Ensures-ok _ (
          row,
          or_throw-some _ _ found,
          (ground (arith, off), ground (arith, off), throw_if-false _ _ in_use),
          Gives-record_event o.new_id row.scope h.default_organization h.tables db _ (
              Gives-with_user o.new_id o.new_id name row.scope h.default_organization h.tables db
                gives),
          others,
        )
