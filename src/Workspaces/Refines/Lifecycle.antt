-- ===== src/Workspaces/Refines/Lifecycle.antt =====
-- The routes on a workspace itself keep the rules.
use silent_whisper.Prelude.{ℕ, ◌≡◌, refl, Option, none, some, arith}
use silent_whisper.Errors.{or_throw-some, Result, ok, Ensures, Ensures-bind, Ensures-ok}
use silent_whisper.Validation.{Param, Value}
use silent_whisper.Authz.Permissions.{Role, workspace_archive}
use silent_whisper.Authz.Membership.{get_workspace_role}
use silent_whisper.Authz.Database.{Db, Workspace, discoverable}
use silent_whisper.Workspaces.Tables.{Caller, Done, append_audit_event}
use silent_whisper.Workspaces.Lifecycle.{
  discoverable_workspace, subscribed_reply, archived_reply, create_workspace, subscribe, archive,
  unarchive, change_visibility, change_settings, rename_workspace,
}
use silent_whisper.Workspaces.Rules.{
  Holds, Writable, founded, subscribed, archived, unarchived, shown, named, Effect, nothing,
  audited, delegated,
}
use silent_whisper.Workspaces.Refines.Checks.{permission-Holds, writable, Effect-when}

shown_to_strangers :
    (o : Option Workspace) (ws : Workspace)
    → discoverable_workspace o ≡ ok ws
    → (o ≡ some ws) × (ws.visibility ≡ discoverable)
unfolding discoverable_workspace
shown_to_strangers o ws h = ground arith

live_row :
    (db : Db) (w : ℕ) (ws : Workspace)
    → db.workspaces w ≡ some ws
    → ws.archived_at ≡ none
    → Writable db w
live_row db w ws h e = ground arith

module _ (c : Caller) (db : Db) where
  abbrev Keeps : Result Done → Type 0
  Keeps m = Ensures m (λ d. Effect c.id db d.db)

  pub create_workspace-Keeps :
      (n : ℕ) (name v : Value) (o : Option Param)
      → db.workspaces n ≡ none
      → Keeps (create_workspace n c name v o db)
  unfolding create_workspace append_audit_event
  create_workspace-Keeps n name v o fresh = Ensures-bind _ λ _ _. Ensures-bind _ λ _ _.
      Ensures-bind _ λ _ _.
        Ensures-bind _
          λ _ _. Ensures-bind _ λ _ _. Ensures-ok _ (audited _ refl (founded n _ fresh refl))

  subscribed_reply-Keeps :
      (w : ℕ) (ws : Workspace)
      → (db.workspaces w ≡ some ws) × (ws.visibility ≡ discoverable)
      → Writable db w
      → (o : Option Role) → get_workspace_role db c.id w ≡ o
      → Keeps (subscribed_reply c w ws o db)
  unfolding subscribed_reply append_audit_event get_workspace_role
  subscribed_reply-Keeps w ws found live (some r) e = Ensures-ok _ nothing
  subscribed_reply-Keeps w ws found live none e =
      Ensures-ok _ (audited _ refl (subscribed w ws found.0 found.1 live e))

  pub subscribe-Keeps : (p : Param) → Keeps (subscribe c p db)
  unfolding subscribe append_audit_event
  subscribe-Keeps p = Ensures-bind _ λ w _. Ensures-bind _ λ ws found. Ensures-bind _ λ _ live.
      subscribed_reply-Keeps w ws (shown_to_strangers _ ws found) (writable db w live) _ refl

  archived_reply-Keeps :
      (now w : ℕ) (ws : Workspace)
      → Holds db c.id w workspace_archive
      → db.workspaces w ≡ some ws
      → (o : Option ℕ) → ws.archived_at ≡ o
      → Keeps (archived_reply now c w o db)
  unfolding archived_reply append_audit_event
  archived_reply-Keeps now w ws held found (some t) e = Ensures-ok _ nothing
  archived_reply-Keeps now w ws held found none e =
      Ensures-ok _ (audited _ refl (archived w now held (live_row db w ws found e)))

  pub archive-Keeps : (now : ℕ) (p : Param) → Keeps (archive now c p db)
  unfolding archive append_audit_event
  archive-Keeps now p = Ensures-bind _ λ w _. Ensures-bind _ λ _ held. Ensures-bind _ λ ws found.
      archived_reply-Keeps now w ws (permission-Holds db c.id w _ held) (or_throw-some _ _ found) _
        refl

  pub unarchive-Keeps : (p : Param) → Keeps (unarchive c p db)
  unfolding unarchive append_audit_event
  unarchive-Keeps p = Ensures-bind _ λ w _. Ensures-bind _ λ _ held. Ensures-bind _ λ ws found.
      Ensures-ok _ (
        Effect-when c.id _ (λ _. audited _ refl (unarchived w (permission-Holds db c.id w _ held))))

  pub change_visibility-Keeps : (p : Param) (v : Value) → Keeps (change_visibility c p v db)
  unfolding change_visibility append_audit_event
  change_visibility-Keeps p v = Ensures-bind _ λ w _. Ensures-bind _ λ _ held.
      Ensures-bind _ λ _ live. Ensures-bind _ λ vis _. Ensures-bind _ λ ws found. Ensures-ok _ (
        Effect-when c.id _ (λ _.
          audited _ refl (shown w vis (permission-Holds db c.id w _ held) (writable db w live))))

  pub change_settings-Keeps : (p : Param) (v : Value) → Keeps (change_settings c p v db)
  unfolding change_settings
  change_settings-Keeps p v = Ensures-bind _ λ w _. Ensures-bind _ λ _ held.
      Ensures-bind _ λ b _. Ensures-ok _ (delegated w b (permission-Holds db c.id w _ held))

  pub rename_workspace-Keeps : (p : Param) (v : Value) → Keeps (rename_workspace c p v db)
  unfolding rename_workspace append_audit_event
  rename_workspace-Keeps p v = Ensures-bind _ λ w _. Ensures-bind _ λ _ held.
      Ensures-bind _ λ _ live. Ensures-bind _ λ name _. Ensures-bind _ λ ws found. Ensures-ok _ (
        Effect-when c.id _ (λ _.
          audited _ refl (named w name (permission-Holds db c.id w _ held) (writable db w live))))
