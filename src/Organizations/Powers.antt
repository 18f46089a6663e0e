-- ===== src/Organizations/Powers.antt =====
-- Who cannot change an organization, and what no request for organizations changes.
use silent_whisper.Prelude.{
  ℕ, ◌≡◌, refl, subst, true, false, ◌⊎◌, inl, inr, Option, none, is_some, List, arith, ◌==◌, ==_iff,
  Bool-cases,
}
use silent_whisper.Errors.{Result, ok, err, Ensures}
use silent_whisper.Authz.Database.{Db, Organization, OrgMember, record_event}
use silent_whisper.Authz.Membership.{is_system_admin_user, org_archived}
use silent_whisper.Workspaces.Tables.{Caller}
use silent_whisper.Organizations.{seat, Request, handle, after}
use silent_whisper.Organizations.Rules.{
  InUse, role_in, Manages, Change, founded, administered, enrolled, appointed, expelled, departed,
  Effect, nothing, audited,
}
use silent_whisper.Organizations.Refines.{handle-Effect}
use silent_whisper.Organizations.Rows.{role-append, role-set, role-drop}

-- The parts of the tables that are not of organizations.
pub record SameElsewhere (db db' : Db) : Type 0 where
  pub users : db'.users ≡ db.users
  pub workspaces : db'.workspaces ≡ db.workspaces
  pub workspace_members : db'.workspace_members ≡ db.workspace_members
  pub channels : db'.channels ≡ db.channels
  pub channel_members : db'.channel_members ≡ db.channel_members

-- An organization with the roles in it.
abbrev pub SameIn : Db → Db → ℕ → Type 0
SameIn db db' o =
    (db'.organizations o ≡ db.organizations o) × ((v : ℕ) → role_in db' o v ≡ role_in db o v)

-- The user can do nothing to the organization: no system administrator, and without a role in it,
-- or it is archived.
abbrev pub Powerless : Db → ℕ → ℕ → Type 0
Powerless db u o =
    (is_system_admin_user db u ≡ false)
    × ((role_in db o u ≡ none) ⊎ (org_archived (db.organizations o) ≡ true))

-- A change to organization p by somebody who has a role there while it is in use.
other_organization :
    (db : Db) (u o p : ℕ)
    → Powerless db u o
    → InUse db p
    → is_some (role_in db p u) ≡ true
    → (p == o) ≡ false
other_organization db u o p (_, out) live role = elim (Bool-cases (p == o)) [
  | inr other ↦ other
  | inl this ↦
      let same : p ≡ o = (==_iff p o).0 this in
      elim out [
        | inl none_here ↦
            let here : is_some (role_in db o u) ≡ true =
              subst (λ i. is_some (role_in db i u) ≡ true) same role in
            absurd (ground (arith, here, none_here))
        | inr archived ↦
            let here : org_archived (db.organizations o) ≡ false =
              subst (λ i. InUse db i) same live in
            absurd (ground (arith, here, archived))
      ]
]

manager_elsewhere :
    (db : Db) (u o p : ℕ) → Powerless db u o → InUse db p → Manages db u p → (p == o) ≡ false
manager_elsewhere db u o p (plain, out) live (inl (admin, _)) =
    absurd (ground (arith, plain, admin))
manager_elsewhere db u o p (plain, out) live (inr (r, role, _)) =
    other_organization db u o p (plain, out) live (ground (arith, role))

Change-SameIn :
    (db : Db) (u o : ℕ) (db' : Db) → Powerless db u o → Change u db db' → SameIn db db' o
Change-SameIn db u o db' (plain, _) (founded p t admin new) = absurd (ground (arith, plain, admin))
Change-SameIn db u o db' (plain, _) (administered p f admin there) =
    absurd (ground (arith, plain, admin))
Change-SameIn db u o db' out (enrolled p v r may live new) =
    let other = manager_elsewhere db u o p out live may in
    (refl, λ w. role-append o w db.organization_members (seat p v r) (ground (arith, other)))
Change-SameIn db u o db' out (appointed p v r may live there) =
    let other = manager_elsewhere db u o p out live may in
    (refl, λ w. role-set p v o w r db.organization_members (ground (arith, other)))
Change-SameIn db u o db' out (expelled p v may live) =
    let other = manager_elsewhere db u o p out live may in
    (refl, λ w. role-drop p v o w db.organization_members (ground (arith, other)))
Change-SameIn db u o db' out (departed p live role) =
    let other = other_organization db u o p out live role in
    (refl, λ w. role-drop p u o w db.organization_members (ground (arith, other)))

elsewhere :
    (db : Db) (os : ℕ → Option Organization) (ms : List OrgMember)
    → SameElsewhere db (record db { organizations = os; organization_members = ms })
elsewhere db os ms = record {
  users = refl;
  workspaces = refl;
  workspace_members = refl;
  channels = refl;
  channel_members = refl;
}

Change-SameElsewhere : (u : ℕ) (db db' : Db) → Change u db db' → SameElsewhere db db'
Change-SameElsewhere u db db' (founded p t admin new) = elsewhere db _ _
Change-SameElsewhere u db db' (administered p f admin there) = elsewhere db _ _
Change-SameElsewhere u db db' (enrolled p v r may live new) = elsewhere db _ _
Change-SameElsewhere u db db' (appointed p v r may live there) = elsewhere db _ _
Change-SameElsewhere u db db' (expelled p v may live) = elsewhere db _ _
Change-SameElsewhere u db db' (departed p live role) = elsewhere db _ _

-- Whatever a request for organizations does, it leaves users, workspaces, channels and the members
-- of workspaces and of channels as they are: who is taken out of an organization stays in its
-- workspaces.
organizations_stay_apart :
    (c : Caller) (r : Request) (db : Db) → SameElsewhere db (after db (handle c r db))
unfolding record_event
organizations_stay_apart c r db = left (handle c r db) (handle-Effect c r db)
  where
    left : (m : Result Db) → Ensures m (λ db'. Effect c.id db db') → SameElsewhere db (after db m)
    left (err e) sure = elsewhere db db.organizations db.organization_members
    left (ok db') sure = of_effect (sure.at db' refl)
      where
        of_effect : {db' : Db} → Effect c.id db db' → SameElsewhere db db'
        of_effect nothing = elsewhere db db.organizations db.organization_members
        of_effect (audited {db' = mid} e actor change) =
            let k = Change-SameElsewhere c.id db mid change in
            record {
              users = k.users;
              workspaces = k.workspaces;
              workspace_members = k.workspace_members;
              channels = k.channels;
              channel_members = k.channel_members;
            }

-- A user who is no system administrator cannot change an organization nor the roles in it by any
-- request, where the user has no role in it or it is archived.
pub strangers_change_nothing :
    (c : Caller) (r : Request) (db : Db) (o : ℕ)
    → Powerless db c.id o
    → SameIn db (after db (handle c r db)) o
unfolding record_event
strangers_change_nothing c r db o out = left (handle c r db) (handle-Effect c r db)
  where
    left : (m : Result Db) → Ensures m (λ db'. Effect c.id db db') → SameIn db (after db m) o
    left (err e) sure = (refl, λ v. refl)
    left (ok db') sure = of_effect (sure.at db' refl)
      where
        of_effect : {db' : Db} → Effect c.id db db' → SameIn db db' o
        of_effect nothing = (refl, λ v. refl)
        of_effect (audited {db' = mid} e actor change) = Change-SameIn db c.id o mid out change
