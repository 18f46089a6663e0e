-- ===== src/Messages/Examples.antt =====
-- A direct message with a task, which is ticked, answered and edited.
use silent_whisper.Prelude.{ℕ, ◌≡◌, refl, true, false, none, some, [], ◌∷◌, arith, update, update₂}
use silent_whisper.Text.{codes}
use silent_whisper.Errors.{◌>>=◌, or_throw, throw_if}
use silent_whisper.Validation.{
  uuid, text, boolean, assert_uuid, assert_boolean, assert_message_content, assert_bounded_int,
}
use silent_whisper.Authz.Database.{Db, direct, user_by_id}
use silent_whisper.Authz.Membership.{require_channel_member, get_channel, is_channel_member}
use silent_whisper.Workspaces.Tables.{Caller, append_audit_event}
use silent_whisper.Workspaces.Channels.{not_archived_in}
use silent_whisper.Ws.RateLimiter.{is_message_rate_limited}
use silent_whisper.Messages.Regex.{match}
use silent_whisper.Messages.Tasks.{build_task_line_regex, match_all, set_task_checked}
use silent_whisper.Messages.{
  Message, Chat, Env, Request, send_request, toggle_request, edit_request, inserted, check_parent,
  create_message, may_send, deliver, send_message, message_in, toggle_task, edit_message, serve,
  serve_all,
}
use silent_whisper.Messages.Rules.{Write}
use silent_whisper.Messages.Refines.{serve-Writes}
use silent_whisper.Messages.Revisions.{earliest_text, keeps_text, earliest_text_stays}
use silent_whisper.Messages.Threads.{Threaded, serve_all-Threaded}
use silent_whisper.Messages.Origin.{Later, message_stays}

abbrev ann : Caller
ann = record { id = 1; ip = codes "::1" }

abbrev tables : Db
tables = record {
  users = record { id = 1; username = codes "ann"; is_system_admin = false } ∷ [];
  organizations = λ _. none;
  organization_members = [];
  workspaces = λ _. none;
  workspace_members = λ _ _. none;
  channels =
      update (λ _. none) 3
        (some (record { workspace_id = none; name = codes "Direct Message"; type = direct }));
  channel_members = update₂ (λ _ _. false) 3 1 true;
  audit_events = [];
}

abbrev at_time : ℕ → ℕ → Env
at_time now id = record {
  now = now;
  new_id = id;
  limits = record { message_window_ms = 10000; max_messages_per_window = 2 };
  edit_window_minutes = 15;
  owner_token_alias = codes "owner";
  refuses_job = λ _. false;
  refuses_embedding_job = false;
}

abbrev empty : Chat
empty = record {
  tables = tables;
  messages = [];
  message_edits = [];
  windows = [];
  side_effect_jobs = [];
  embedding_jobs = [];
  broadcasts = [];
}

abbrev first : Message
first = inserted (at_time 5 7) 3 1 (codes "- [ ] a") none

abbrev one_message : Chat
one_message = record empty { messages = first ∷ [] }

abbrev send_task : Request
send_task = send_request (uuid 3) (text (codes "- [ ] a")) none

abbrev tick : Request
tick = toggle_request (uuid 3) (uuid 7) (some 0) (boolean true)

abbrev edit : Request
edit = edit_request (uuid 3) (uuid 7) (text (codes "b"))

-- The first revision is of the text with the tick, not of the text as it was sent.
first_revision_has_mark :
    let after =
      serve_all empty (
        (at_time 5 7, ann, send_task) ∷ (at_time 6 8, ann, tick) ∷ (at_time 7 9, ann, edit) ∷ []) in
    earliest_text 7 after ≡ some (codes "- [x] a")
unfolding serve_all serve send_message may_send create_message check_parent deliver toggle_task
    edit_message message_in set_task_checked match_all build_task_line_regex match assert_uuid
    assert_boolean assert_message_content assert_bounded_int require_channel_member get_channel
    is_channel_member not_archived_in is_message_rate_limited user_by_id append_audit_event ◌>>=◌
    or_throw throw_if
first_revision_has_mark = refl

earliest_text_stays_example :
    keeps_text (some (codes "- [ ] a")) (
      earliest_text 7
        (serve_all one_message ((at_time 6 8, ann, tick) ∷ (at_time 7 9, ann, edit) ∷ [])))
    ≡ true
earliest_text_stays_example =
    earliest_text_stays 7 one_message ((at_time 6 8, ann, tick) ∷ (at_time 7 9, ann, edit) ∷ [])

serve-Writes_example :
    Write
      (at_time 6 8)
      tables
      1
      (first ∷ [])
      []
      (serve one_message (at_time 6 8, ann, tick)).messages
      (serve one_message (at_time 6 8, ann, tick)).message_edits
serve-Writes_example = serve-Writes (at_time 6 8) ann tick one_message

message_stays_example :
    Later (at_time 7 9) tables 1 first (serve one_message (at_time 7 9, ann, edit)).messages 7
message_stays_example = message_stays 7 first (at_time 7 9) ann edit one_message refl

abbrev reply : Message
reply = inserted (at_time 6 8) 3 1 (codes "b") (some 7)

abbrev answer : Request
answer = send_request (uuid 3) (text (codes "b")) (some (uuid 7))

empty-Threaded : Threaded []
empty-Threaded = λ id m found. absurd (ground arith)

serve_all-Threaded_example :
    Threaded
      (serve_all empty ((at_time 5 7, ann, send_task) ∷ (at_time 6 8, ann, answer) ∷ [])).messages
serve_all-Threaded_example =
    serve_all-Threaded ((at_time 5 7, ann, send_task) ∷ (at_time 6 8, ann, answer) ∷ []) empty
      empty-Threaded
