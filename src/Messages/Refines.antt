-- ===== src/Messages/Refines.antt =====
-- The routes of the messages keep to the rules.
use silent_whisper.Prelude.{
  ℕ, ◌≤◌, ◌≡◌, refl, sym, subst, true, false, inl, inr, Option, none, some, List, [], ◌∷◌, length,
  arith, ltb, ==_iff, Bool-cases,
}
use silent_whisper.Text.{Text}
use silent_whisper.Errors.{
  Result, ok, err, ◌>>=◌, Ensures, Ensures-bind, Ensures-ok, throw_if, or_throw, or_throw-some,
  throw_if-false, throw_unless-true,
}
use silent_whisper.Validation.{
  Param, uuid, malformed, Value, assert_uuid, assert_message_content, max_message_length,
}
use silent_whisper.Validation
use silent_whisper.Authz.Database.{Db, Channel}
use silent_whisper.Authz.Membership.{
  get_channel, is_channel_member, require_channel_member, require_workspace_not_archived,
}
use silent_whisper.Workspaces.Tables.{Caller}
use silent_whisper.Workspaces.Channels.{not_archived_in}
use silent_whisper.Ws.Table.{Table}
use silent_whisper.Ws.RateLimiter.{Window, is_message_rate_limited}
use silent_whisper.Messages.{
  Message, Revision, Chat, Env, find_message, check_parent, create_message, deliver, may_send,
  written, send_to, send_message, toggle_task, edit_message, Request, send_request, toggle_request,
  edit_request, kept, serve,
}
use silent_whisper.Messages.Tasks.Marks.{tick_changes_one_mark}
use silent_whisper.Messages.Rows.{message_in-found}
use silent_whisper.Messages.Rules.{
  in_archive, MayWrite, Answers, Write, refused, sent, ticked, edited,
}

member_of :
    (db : Db) (u c : ℕ) (channel : Channel)
    → require_channel_member db u c ≡ ok channel
    → (db.channel_members c u ≡ true) × (db.channels c ≡ some channel)
unfolding require_channel_member get_channel is_channel_member or_throw throw_if ◌>>=◌
member_of db u c channel e = (ground arith, ground arith)

in_use :
    (db : Db) (w : Option ℕ) {x : Unit {0}} → not_archived_in db w ≡ ok x → in_archive db w ≡ false
unfolding not_archived_in require_workspace_not_archived throw_if
in_use db none e = refl
in_use db (some w) e = ground arith

may_write :
    (db : Db) (u c : ℕ) (channel : Channel) {x : Unit {0}}
    → require_channel_member db u c ≡ ok channel
    → not_archived_in db channel.workspace_id ≡ ok x
    → MayWrite db u c
may_write db u c channel e f =
    let (member, there) = member_of db u c channel e in
    (member, (channel, there, in_use db channel.workspace_id f))

content_fits :
    (v : Value) (t : Text) → assert_message_content v ≡ ok t → (1 ≤ length t) × (length t ≤ 10000)
unfolding assert_message_content
content_fits (Validation.text []) t e = absurd (cc)
content_fits (Validation.text (a ∷ s)) t e = elim (Bool-cases (ltb 10000 (length (a ∷ s)))) [
  | inl long ↦ absurd (ground arith)
  | inr short ↦
      let same : a ∷ s ≡ t = ground arith in rw (sym same) (omega arith, ground (arith, short))
]
content_fits Validation.undefined t e = absurd (cc)
content_fits Validation.null t e = absurd (cc)
content_fits (Validation.boolean b) t e = absurd (cc)
content_fits Validation.other t e = absurd (cc)

check_parent-Answers :
    (c : ℕ) (p : Option Param) (ms : List Message) → Ensures (check_parent c p ms) (Answers ms c)
unfolding check_parent
check_parent-Answers c none ms = Ensures-ok _ tt
check_parent-Answers c (some p) ms = Ensures-bind _ λ i _. Ensures-bind _ λ m there.
    Ensures-bind _ λ _ here. Ensures-ok (some i) (
      m,
      or_throw-some (find_message i ms) _ there,
      (==_iff m.channel_id c).0 (throw_unless-true _ _ here),
    )

create_message-Sent :
    (e : Env) (db : Db) (u c : ℕ) (v : Value) (p : Option Param) (ms : List Message)
    (rs : List Revision)
    → MayWrite db u c
    → Ensures (create_message e c u v p ms) (λ r. Write e db u ms rs r.1 rs)
unfolding create_message
create_message-Sent e db u c v p ms rs may = Ensures-bind _ λ t fits. Ensures-bind _ λ q parent.
    let (some_text, bounded) = content_fits v t fits in
    Ensures-ok _ (sent c t q may some_text bounded ((check_parent-Answers c p ms).at q parent))

may_send-MayWrite :
    (c : Caller) (p : Param) (chat : Chat)
    → Ensures (may_send c p chat) (λ r. MayWrite chat.tables c.id r.0)
unfolding may_send
may_send-MayWrite c p chat = Ensures-bind _ λ i _. Ensures-bind _ λ channel member.
    Ensures-bind _ λ _ live. Ensures-ok _ (may_write chat.tables c.id i channel member live)

-- What a chat becomes, as far as the rules look at it.
abbrev pub Writes : Env → Caller → Chat → Chat → Type 0
Writes e c chat chat' =
    Write e chat.tables c.id chat.messages chat.message_edits chat'.messages chat'.message_edits

written-Writes :
    (e : Env) (c : Caller) (i : Param) (channel : Channel) (chat : Chat) (w : Table Window)
    (r : Result (Message × List Message))
    → Ensures r
        (λ r. Write e chat.tables c.id chat.messages chat.message_edits r.1 chat.message_edits)
    → Writes e c chat (written e i channel (record chat { windows = w }) r).0
unfolding deliver
written-Writes e c i channel chat w (err thrown) sure = refused
written-Writes e c i channel chat w (ok (m, ms)) sure = sure.at (m, ms) refl

send_to-Writes :
    (e : Env) (c : Caller) (ch : Param) (v : Value) (p : Option Param) (chat : Chat)
    (r : Result (ℕ × Channel))
    → Ensures r (λ r. MayWrite chat.tables c.id r.0)
    → Writes e c chat (send_to e c ch v p chat r).0
send_to-Writes e c ch v p chat (err thrown) may = refused
send_to-Writes e c ch v p chat (ok (i, channel)) may =
    elim (Bool-cases (is_message_rate_limited e.limits e.now c.id chat.windows).1) [
      | inl full ↦ rw full refused
      | inr free ↦ rw free (
          written-Writes e c ch channel chat _ _ (
            create_message-Sent e chat.tables c.id i v p chat.messages chat.message_edits
              (may.at (i, channel) refl)))
    ]

module _ (e : Env) (c : Caller) (chat : Chat) where
  toggle-Writes :
      (ch m : Param) (i : Option ℕ) (v : Value)
      → Ensures (toggle_task e c ch m i v chat) (Writes e c chat)
  unfolding toggle_task
  toggle-Writes ch m i v = Ensures-bind _ λ ci _. Ensures-bind _ λ mi _. Ensures-bind _ λ k _.
      Ensures-bind _ λ channel member. Ensures-bind _ λ _ live. Ensures-bind _ λ b _.
        Ensures-bind _ λ row found. Ensures-bind _ λ t ticks. Ensures-bind _ λ _ _.
          let (there, here) = message_in-found ch ci mi chat.messages row found in
          let (_, same, few) =
            tick_changes_one_mark e.owner_token_alias row.content k b t (or_throw-some _ _ ticks) in
          let may : MayWrite chat.tables c.id row.channel_id =
            subst (MayWrite chat.tables c.id) (sym ((==_iff row.channel_id ci).0 here))
              (may_write chat.tables c.id ci channel member live) in
          Ensures-ok _ (ticked mi row t there may same few)

  edit-Writes :
      (ch m : Param) (v : Value) → Ensures (edit_message e c ch m v chat) (Writes e c chat)
  unfolding edit_message
  edit-Writes ch m v = Ensures-bind _ λ ci _. Ensures-bind _ λ mi _.
      Ensures-bind _ λ channel member. Ensures-bind _ λ _ live. Ensures-bind _ λ t _.
        Ensures-bind _ λ row found. Ensures-bind _ λ _ own. Ensures-bind _ λ _ early.
          Ensures-bind _ λ _ _.
            let (there, here) = message_in-found ch ci mi chat.messages row found in
            let may : MayWrite chat.tables c.id row.channel_id =
              subst (MayWrite chat.tables c.id) (sym ((==_iff row.channel_id ci).0 here))
                (may_write chat.tables c.id ci channel member live) in
            let soon = throw_if-false _ _ early in
            Ensures-ok _ (
              edited mi row t there may ((==_iff row.user_id c.id).0 (throw_unless-true _ _ own))
                (ground (arith, soon)))

kept-Writes :
    (e : Env) (c : Caller) (chat : Chat) (r : Result Chat)
    → Ensures r (Writes e c chat)
    → Writes e c chat (kept chat r)
kept-Writes e c chat (err thrown) sure = refused
kept-Writes e c chat (ok chat') sure = sure.at chat' refl

-- Whatever a request asks for and whether it fails or not, the messages and their history become
-- what the rules allow: a member of a channel whose workspace is not archived adds a message, with
-- a text in the bounds and a parent of the same channel; such a member changes one mark of a task;
-- the author, such a member too and within the window, rewrites the text and leaves a revision; or
-- nothing changes.
pub serve-Writes :
    (e : Env) (c : Caller) (r : Request) (chat : Chat)
    → Write e chat.tables c.id chat.messages chat.message_edits
        (serve chat (e, c, r)).messages
        (serve chat (e, c, r)).message_edits
unfolding serve send_message
serve-Writes e c (send_request ch v p) chat =
    send_to-Writes e c ch v p chat (may_send c ch chat) (may_send-MayWrite c ch chat)
serve-Writes e c (toggle_request ch m i v) chat =
    kept-Writes e c chat (toggle_task e c ch m i v chat) (toggle-Writes e c chat ch m i v)
serve-Writes e c (edit_request ch m v) chat =
    kept-Writes e c chat (edit_message e c ch m v chat) (edit-Writes e c chat ch m v)
