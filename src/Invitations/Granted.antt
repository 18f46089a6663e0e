-- ===== src/Invitations/Granted.antt =====
-- What an accepted invitation gives.
use silent_whisper.Prelude.{
  ℕ, ◌≡◌, refl, Bool, true, false, not, ◌&&◌, none, some, List, [], ◌∷◌, ◌++◌, arith,
}
use silent_whisper.Errors.{
  Result, ok, err, ◌>>=◌, or_throw, throw_if, Ensures, Ensures-bind, Ensures-ok,
}
use silent_whisper.Validation.{uuid, assert_uuid}
use silent_whisper.Authz.Permissions.{Role}
use silent_whisper.Authz.Database.{Db, record_event}
use silent_whisper.Authz.Membership.{get_workspace_role}
use silent_whisper.Workspaces.Tables.{Caller, append_audit_event, insert_member, is_owner}
use silent_whisper.Workspaces.Refines.Members.{optional-not_owner}
use silent_whisper.Workspaces.Integrity.{OwnersFit}
use silent_whisper.Invitations.{
  Desk, Invitation, Answer, Scope, organization_scope, workspace_scope, is_waiting, accepted,
  declined, find_invitation, resolve, closed_workspace, load_own_pending_invitation, enter_scope,
  invite, accept, decline, Action, invite_action, accept_action, decline_action, act, kept, act_all,
}

-- No invitation offers the role of an owner.
abbrev pub offers_owner : Scope → Bool
offers_owner (organization_scope o r) = false
offers_owner (workspace_scope w r) = is_owner r

abbrev pub modest : List Invitation → Bool
modest [] = true
modest (i ∷ is) = not (offers_owner i.scope) && modest is

pub record DeskFits (d : Desk) : Type 0 where
  pub owners : OwnersFit d.tables
  pub offers : modest d.invitations ≡ true

modest-append :
    (is : List Invitation) (i : Invitation)
    → modest is ≡ true
    → offers_owner i.scope ≡ false
    → modest (is ++ i ∷ []) ≡ true
modest-append [] i h o = ground arith
modest-append (j ∷ is) i h o = ground (arith, modest-append is i)

modest-find :
    (id : ℕ) (is : List Invitation) (i : Invitation)
    → modest is ≡ true
    → find_invitation id is ≡ some i
    → offers_owner i.scope ≡ false
modest-find id [] i h f = cc
modest-find id (j ∷ is) i h f = ground (arith, modest-find id is i)

modest-resolve :
    (id : ℕ) (a : Answer) (is : List Invitation)
    → modest is ≡ true
    → modest (resolve id a is) ≡ true
modest-resolve id a [] h = refl
modest-resolve id a (j ∷ is) h = ground (arith, modest-resolve id a is)

loaded_row :
    (u id : ℕ) (is : List Invitation) (row : Invitation)
    → load_own_pending_invitation u id is ≡ ok row
    → find_invitation id is ≡ some row
unfolding load_own_pending_invitation or_throw throw_if ◌>>=◌
loaded_row u id is row h = ground arith

enter-OwnersFit :
    (u : ℕ) (s : Scope) (db db' : Db)
    → OwnersFit db
    → offers_owner s ≡ false
    → enter_scope u s db ≡ ok db'
    → OwnersFit db'
unfolding enter_scope ◌>>=◌ throw_if insert_member get_workspace_role
enter-OwnersFit u (organization_scope o r) db db' inv low h v x = ground (arith, inv v x)
enter-OwnersFit u (workspace_scope w r) db db' inv low h v x = ground (arith, inv v x, inv w u)

act-DeskFits : (c : Caller) (a : Action) (d : Desk) → DeskFits d → Ensures (act c a d) DeskFits
unfolding invite accept decline append_audit_event record_event
act-DeskFits c (invite_action n w u v) d h = Ensures-bind _ λ _ _. Ensures-bind _ λ _ _.
    Ensures-bind _ λ r role. Ensures-bind _ λ _ _. Ensures-bind _ λ _ _. Ensures-bind _ λ _ _.
      Ensures-bind _ λ _ _. Ensures-bind _ λ _ _. Ensures-ok _ (record {
        owners = h.owners;
        offers = modest-append d.invitations _ h.offers (optional-not_owner v r role);
      })
act-DeskFits c (accept_action i) d h = Ensures-bind _ λ k _. Ensures-bind _ λ row found.
    Ensures-bind _ λ db entered. Ensures-ok _ (record {
      owners =
          enter-OwnersFit c.id row.scope d.tables db h.owners
            (modest-find k d.invitations row h.offers (loaded_row c.id k d.invitations row found))
            entered;
      offers = modest-resolve k accepted d.invitations h.offers;
    })
act-DeskFits c (decline_action i) d h = Ensures-bind _ λ k _. Ensures-bind _ λ _ _.
    Ensures-ok _
      (record { owners = h.owners; offers = modest-resolve k declined d.invitations h.offers })

kept-DeskFits : (d : Desk) (r : Result Desk) → Ensures r DeskFits → DeskFits d → DeskFits (kept d r)
kept-DeskFits d (ok d') e h = e.at d' refl
kept-DeskFits d (err x) e h = h

-- Invitations and answers to them, in any number and order, keep the owner of each workspace its
-- only member with the role of an owner, and never offer that role.
pub act_all-DeskFits :
    (d : Desk) (actions : List (Caller × Action)) → DeskFits d → DeskFits (act_all d actions)
unfolding act_all
act_all-DeskFits d [] h = h
act_all-DeskFits d ((c, a) ∷ actions) h =
    act_all-DeskFits (kept d (act c a d)) actions
      (kept-DeskFits d (act c a d) (act-DeskFits c a d h) h)

-- When an invitation into a workspace is accepted, the row of the invitation was addressed to the
-- caller and waited for an answer, the workspace is not archived, and the caller has afterwards
-- the role that was there before, or else the role that the invitation offered.
accept_gives_role :
    (c : Caller) (k w : ℕ) (r : Role) (i : Invitation) (d d' : Desk)
    → find_invitation k d.invitations ≡ some i
    → i.scope ≡ workspace_scope w r
    → accept c (uuid k) d ≡ ok d'
    → (i.invited_user_id ≡ c.id)
      × (is_waiting i ≡ true)
      × (closed_workspace (d.tables.workspaces w) ≡ false)
      × (d'.tables.workspace_members w c.id
          ≡ some (elim (d.tables.workspace_members w c.id) [ none ↦ r | some s ↦ s ]))
unfolding accept assert_uuid load_own_pending_invitation or_throw throw_if enter_scope insert_member
    get_workspace_role ◌>>=◌ append_audit_event record_event
accept_gives_role c k w r i d d' found scope h =
    (ground arith, ground arith, ground arith, ground arith)
