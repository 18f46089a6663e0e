-- ===== src/Workspaces/Refines/Channels.antt =====
-- The routes on channels keep the rules.
use silent_whisper.Prelude.{
  ℕ, ◌≡◌, refl, inl, inr, true, false, not, Option, none, some, arith, ap, subst, sym, ◌∙◌,
}
use silent_whisper.Errors.{throw_unless-true, Result, ok, Ensures, Ensures-bind, Ensures-ok}
use silent_whisper.Validation.{Param, Value}
use silent_whisper.Authz.Membership.{Access, get_channel, require_workspace_not_archived}
use silent_whisper.Authz.Database.{Db, Channel, ChannelType, public}
use silent_whisper.Workspaces.Tables.{Caller, Done, append_audit_event}
use silent_whisper.Workspaces.Channels.{
  is_public, channel_here, role_in, not_archived_in, create_channel, rename_channel, join_channel,
  add_channel_member, remove_channel_member, leave_channel,
}
use silent_whisper.Workspaces.Rules.{
  Writable, IsMember, opened, opened_and_joined, channel_named, joined, brought_in, taken_out,
  Effect, audited,
}
use silent_whisper.Workspaces.Refines.Checks.{
  Entry, entry, entry-Belongs, tended, own_channel, in_workspace, writable, Effect-when,
  Change-when,
}

is_public_lem : (t : ChannelType) → is_public t ≡ true → t ≡ public
is_public_lem t h = ground arith

found_here :
    (p : Param) (w : ℕ) (o : Option Channel) (ch : Channel)
    → channel_here p w o ≡ ok ch
    → (o ≡ some ch) × (ch.workspace_id ≡ some w)
unfolding channel_here
found_here p w o ch h = ground arith

role_in_lem :
    (db : Db) (o : Option ℕ) (w t : ℕ) → o ≡ some w → role_in db o t ≡ true → IsMember db w t
unfolding role_in
role_in_lem db o w t e h = ground arith

some_injective : {a b : ℕ} → some a ≡ some b → a ≡ b
some_injective e = cc

live_in :
    (db : Db) (o : Option ℕ) (w : ℕ) {x : Unit {0}}
    → o ≡ some w
    → not_archived_in db o ≡ ok x
    → Writable db w
unfolding not_archived_in
live_in db none w e h = cc
live_in db (some v) w {x} e h =
    writable db w (subst (λ i. require_workspace_not_archived db i ≡ ok x) (some_injective e) h)

entry-IsMember :
    (db : Db) (u w : ℕ) (a : Access)
    → Entry db u w a
    → not a.via_system_admin_override ≡ true
    → IsMember db w u
entry-IsMember db u w a (inl (_, m)) h = m
entry-IsMember db u w a (inr (over, _, _)) h =
    let contradiction : false ≡ true = sym (ap not over) ∙ h in cc

module _ (c : Caller) (db : Db) where
  abbrev Keeps : Result Done → Type 0
  Keeps m = Ensures m (λ d. Effect c.id db d.db)

  pub join_channel-Keeps : (p q : Param) → Keeps (join_channel c p q db)
  unfolding join_channel append_audit_event get_channel
  join_channel-Keeps p q = Ensures-bind _ λ w _. Ensures-bind _ λ ch _. Ensures-bind _ λ a access.
      Ensures-bind _ λ _ live. Ensures-bind _ λ row here. Ensures-bind _ λ _ open'. Ensures-ok _ (
        Effect-when c.id _ (λ _.
          let (found, lies) = found_here p w _ row here in
          audited _ refl (
            joined w ch row (entry-Belongs db c.id w a (entry db c.id w a access))
              (writable db w live) found lies (is_public_lem _ (throw_unless-true _ _ open')))))

  pub rename_channel-Keeps : (p q : Param) (v : Value) → Keeps (rename_channel c p q v db)
  unfolding rename_channel append_audit_event
  rename_channel-Keeps p q v = Ensures-bind _ λ w _. Ensures-bind _ λ ch _.
      Ensures-bind _ λ row access. Ensures-bind _ λ _ here. Ensures-bind _ λ _ live.
        Ensures-bind _ λ name _. Ensures-ok _ (
          Effect-when c.id _ (λ _.
            let (tends, found) = tended db c.id ch row access in
            audited _ refl (
              channel_named w ch row name tends found
                (in_workspace p w _ (throw_unless-true _ _ here)) (writable db w live))))

  pub add_channel_member-Keeps : (p q : Param) (v : Value) → Keeps (add_channel_member c p q v db)
  unfolding add_channel_member append_audit_event
  add_channel_member-Keeps p q v = Ensures-bind _ λ w _. Ensures-bind _ λ ch _.
      Ensures-bind _ λ _ _. Ensures-bind _ λ row access. Ensures-bind _ λ _ here.
        Ensures-bind _ λ _ live. Ensures-bind _ λ t _. Ensures-bind _ λ _ role. Ensures-ok _ (
          Effect-when c.id _ (λ _.
            let (tends, found) = tended db c.id ch row access in
            let lies = in_workspace p w _ (throw_unless-true _ _ here) in
            audited _ refl (
              brought_in w ch t.id row tends (live_in db _ w lies live) found lies
                (role_in_lem db _ w t.id lies (throw_unless-true _ _ role)))))

  pub remove_channel_member-Keeps : (p q r : Param) → Keeps (remove_channel_member c p q r db)
  unfolding remove_channel_member append_audit_event
  remove_channel_member-Keeps p q r = Ensures-bind _ λ w _. Ensures-bind _ λ ch _.
      Ensures-bind _ λ t _. Ensures-bind _ λ row access. Ensures-bind _ λ _ here.
        Ensures-bind _ λ _ live. Ensures-bind _ λ name _. Ensures-ok _ (
          let (tends, found) = tended db c.id ch row access in
          let lies = in_workspace p w _ (throw_unless-true _ _ here) in
          audited _ refl (taken_out w ch t row tends (live_in db _ w lies live) found lies))

  pub leave_channel-Keeps : (p q : Param) → Keeps (leave_channel c p q db)
  unfolding leave_channel append_audit_event
  leave_channel-Keeps p q = Ensures-bind _ λ w _. Ensures-bind _ λ ch _.
      Ensures-bind _ λ row access. Ensures-bind _ λ _ here. Ensures-bind _ λ _ live. Ensures-ok _ (
        let (tends, found) = own_channel db c.id ch row access in
        let lies = in_workspace p w _ (throw_unless-true _ _ here) in
        audited _ refl (taken_out w ch c.id row tends (live_in db _ w lies live) found lies))

  pub create_channel-Keeps :
      (n : ℕ) (p : Param) (name type : Value)
      → db.channels n ≡ none
      → Keeps (create_channel n c p name type db)
  unfolding create_channel append_audit_event
  create_channel-Keeps n p name type fresh = Ensures-bind _ λ w _. Ensures-bind _ λ a access.
      Ensures-bind _ λ _ live. Ensures-bind _ λ _ _. Ensures-bind _ λ t _. Ensures-ok _ (
        let come = entry db c.id w a access in
        audited _ refl (
          Change-when c.id _
            (λ own.
              opened_and_joined w n _ (entry-IsMember db c.id w a come own) (writable db w live)
                fresh refl)
            (λ _. opened w n _ (entry-Belongs db c.id w a come) (writable db w live) fresh refl)))
