-- ===== src/Invitations/Examples.antt =====
-- An invitation into a workspace, and its answers.
use silent_whisper.Prelude.{◌≡◌, refl, false, none, some, [], ◌∷◌, arith, update, update₂, inl}
use silent_whisper.Text.{codes}
use silent_whisper.Errors.{ok, err, ◌>>=◌, or_throw, throw_if}
use silent_whisper.Validation.{uuid, assert_uuid}
use silent_whisper.Authz.Permissions.{owner, manager}
use silent_whisper.Authz.Database.{Db, private}
use silent_whisper.Authz.Membership.{get_workspace_role}
use silent_whisper.Workspaces.Tables.{Caller, insert_member}
use silent_whisper.Invitations.{
  Desk, Invitation, waiting, accepted, workspace_scope, load_own_pending_invitation, enter_scope,
  log_answer, invitation_not_found, accept, decline, accept_action, decline_action, act_all,
}
use silent_whisper.Invitations.Answered.{answered_once}
use silent_whisper.Invitations.Granted.{DeskFits, act_all-DeskFits}

abbrev guest : Caller
guest = record { id = 2; ip = codes "::1" }

abbrev tables : Db
tables = record {
  users = [];
  organizations = λ _. none;
  organization_members = [];
  workspaces =
      update (λ _. none) 7
        (some (record {
          name = codes "lab";
          owner_id = 1;
          organization_id = 1;
          visibility = private;
          managers_can_archive = false;
          archived_at = none;
          archived_by = none;
        }));
  workspace_members = update₂ (λ _ _. none) 7 1 (some owner);
  channels = λ _. none;
  channel_members = λ _ _. false;
  audit_events = [];
}

abbrev offer : Invitation
offer = record {
  id = 4;
  scope = workspace_scope 7 manager;
  invited_user_id = 2;
  invited_by = 1;
  answer = waiting;
}

abbrev desk : Desk
desk = record { tables = tables; invitations = offer ∷ [] }

abbrev after_accept : Desk
after_accept = record {
  tables = log_answer guest "invite_accept" 4 offer (insert_member 7 2 manager tables);
  invitations = record offer { answer = accepted } ∷ [];
}

guest_accepts : accept guest (uuid 4) desk ≡ ok after_accept
unfolding accept assert_uuid load_own_pending_invitation or_throw throw_if enter_scope
    get_workspace_role ◌>>=◌
guest_accepts = refl

desk-DeskFits : DeskFits desk
desk-DeskFits = record { owners = λ w u. ground arith; offers = refl }

act_all-DeskFits_example :
    DeskFits
      (act_all desk ((guest, accept_action (uuid 4)) ∷ (guest, decline_action (uuid 4)) ∷ []))
act_all-DeskFits_example =
    act_all-DeskFits desk ((guest, accept_action (uuid 4)) ∷ (guest, decline_action (uuid 4)) ∷ [])
      desk-DeskFits

answered_once_example :
    (accept guest (uuid 4) (act_all after_accept ((guest, accept_action (uuid 4)) ∷ []))
      ≡ err invitation_not_found)
    × (decline guest (uuid 4) (act_all after_accept ((guest, accept_action (uuid 4)) ∷ []))
        ≡ err invitation_not_found)
answered_once_example =
    answered_once 4 guest guest desk after_accept ((guest, accept_action (uuid 4)) ∷ [])
      (inl guest_accepts)
