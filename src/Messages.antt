-- ===== src/Messages.antt =====
-- backend/src/services/messageService.js and the routes of backend/src/routes/messages.js that
-- write: sending a message, ticking one of its tasks, and editing it.
pub mod Regex
pub mod Tasks
pub mod Jobs
pub mod Rows
pub mod Rules
pub mod Refines
pub mod Revisions
pub mod Embedding
pub mod Origin
pub mod Threads
mod Examples
use silent_whisper.Prelude.{
  ℕ, String, ◌-◌, ◌*◌, Bool, true, false, not, ◌&&◌, ◌||◌, Option, none, some, List, [], ◌∷◌, ◌++◌,
  length, ltb, ◌==◌, if◌then◌else◌,
}
use silent_whisper.Text.{Text}
use silent_whisper.Errors.{
  AppError, validation_error, forbidden_error, not_found_error, rate_limited_error, unhandled_error,
  Result, ok, err, ◌>>=◌, ◌>>◌, throw_if, or_throw,
}
use silent_whisper.Validation.{
  Param, Value, is_plain, assert_uuid, assert_boolean, assert_message_content, assert_bounded_int,
}
use silent_whisper.Authz.Database.{
  Db, Channel, user_by_id, message_task_toggled, message_edited, task_toggled, content_edited,
}
use silent_whisper.Authz.Membership.{require_channel_member}
use silent_whisper.Workspaces.Tables.{Caller, append_audit_event}
use silent_whisper.Workspaces.Channels.{not_archived_in}
use silent_whisper.Ws.Table.{Table}
use silent_whisper.Ws.RateLimiter.{Limits, Window, is_message_rate_limited}
use Tasks.{set_task_checked}
use Jobs.{
  JobType, SideEffectJob, EmbeddingJob, enqueue_message_side_effect_jobs, enqueue_embedding_job,
}

-- A row of messages.
pub record Message : Type 0 where
  pub id : ℕ
  pub channel_id : ℕ
  pub user_id : ℕ
  pub content : Text
  pub parent_message_id : Option ℕ
  pub created_at : ℕ
  pub edited_at : Option ℕ

-- A row of message_edits: the text before an edit.
pub record Revision : Type 0 where
  pub message_id : ℕ
  pub content : Text
  pub edited_by : ℕ
  pub edited_at : ℕ

-- What is broadcast to a room. The object that a ticked task sends has no `editedAt`.
pub data Frame : Type 0 where
  created updated updated_without_edited_at : Message → Frame

-- The tables of the authorization, those of the messages, the memory of the rate limiter, and
-- what was broadcast to the rooms of the channels.
pub record Chat : Type 0 where
  pub tables : Db
  pub messages : List Message
  pub message_edits : List Revision
  pub windows : Table Window
  pub side_effect_jobs : List SideEffectJob
  pub embedding_jobs : List EmbeddingJob
  pub broadcasts : List (Param × Frame)

-- What a request takes from outside: the time, the identifier that the database makes, the
-- configuration, and which inserts into the queues the database refuses.
pub record Env : Type 0 where
  pub now : ℕ
  pub new_id : ℕ
  pub limits : Limits
  pub edit_window_minutes : ℕ
  pub owner_token_alias : Text
  pub refuses_job : JobType → Bool
  pub refuses_embedding_job : Bool

-- where({ id }).first()
abbrev pub find_message : ℕ → List Message → Option Message
find_message id [] = none
find_message id (m ∷ ms) = if m.id == id then some m else find_message id ms

-- where({ id: validatedParentId, channel_id: channelId }).first('id')
unfoldable pub check_parent : ℕ → Option Param → List Message → Result (Option ℕ)
check_parent channel_id none ms = ok none
check_parent channel_id (some parent) ms = do
  parent_id ← assert_uuid parent "parentMessageId must be a valid UUID"
  found ←
      or_throw (find_message parent_id ms)
        (validation_error "parentMessageId must reference a message in the same channel")
  throw_if (not (found.channel_id == channel_id))
      (validation_error "parentMessageId must reference a message in the same channel")
  ok (some parent_id)

-- The row of a new message.
abbrev pub inserted : Env → ℕ → ℕ → Text → Option ℕ → Message
inserted e channel_id user_id content parent_id = record {
  id = e.new_id;
  channel_id = channel_id;
  user_id = user_id;
  content = content;
  parent_message_id = parent_id;
  created_at = e.now;
  edited_at = none;
}

unfoldable pub create_message :
    Env → ℕ → ℕ → Value → Option Param → List Message → Result (Message × List Message)
create_message e channel_id user_id content parent ms = do
  content ← assert_message_content content
  parent_id ← check_parent channel_id parent ms
  ok (
    inserted e channel_id user_id content parent_id,
    ms ++ inserted e channel_id user_id content parent_id ∷ [],
  )

-- The checks before a message counts for the rate limiter.
unfoldable pub may_send : Caller → Param → Chat → Result (ℕ × Channel)
may_send caller channel_param chat = do
  channel_id ← assert_uuid channel_param "channelId must be a valid UUID"
  channel ← require_channel_member chat.tables caller.id channel_id
  not_archived_in chat.tables channel.workspace_id
  ok (channel_id, channel)

-- The broadcast and the jobs, after the message is written.
unfoldable pub deliver : Env → Param → Channel → Message → List Message → Chat → Chat
deliver e channel_param channel message messages chat = record chat {
  messages = messages;
  broadcasts = chat.broadcasts ++ (channel_param, created message) ∷ [];
  side_effect_jobs =
      enqueue_message_side_effect_jobs e.refuses_job message.id channel.workspace_id
        chat.side_effect_jobs;
  embedding_jobs = enqueue_embedding_job e.refuses_embedding_job message.id chat.embedding_jobs;
}

-- The message counts also where `createMessage` throws.
abbrev pub written :
    Env → Param → Channel → Chat → Result (Message × List Message) → Chat × Result Message
written e channel_param channel counted (err thrown) = (counted, err thrown)
written e channel_param channel counted (ok (message, messages)) =
    (deliver e channel_param channel message messages counted, ok message)

abbrev pub send_to :
    Env
    → Caller
    → Param
    → Value
    → Option Param
    → Chat
    → Result (ℕ × Channel)
    → Chat × Result Message
send_to e caller channel_param content parent chat (err thrown) = (chat, err thrown)
send_to e caller channel_param content parent chat (ok (channel_id, channel)) =
    let (windows, refused) = is_message_rate_limited e.limits e.now caller.id chat.windows in
    let counted = record chat { windows = windows } in
    if refused
    then (counted, err (rate_limited_error "Too many messages — slow down"))
    else written e channel_param channel counted
        (create_message e channel_id caller.id content parent chat.messages)

-- POST /channels/:channelId/messages
unfoldable pub send_message :
    Env → Caller → Param → Value → Option Param → Chat → Chat × Result Message
send_message e caller channel_param content parent chat =
    send_to e caller channel_param content parent chat (may_send caller channel_param chat)

-- where({ id }).update({ content, … })
abbrev pub rewrite : ℕ → Text → Option ℕ → List Message → List Message
rewrite id content edited_at [] = []
rewrite id content edited_at (m ∷ ms) =
    let rest = rewrite id content edited_at ms in
    if m.id == id then record m { content = content; edited_at = edited_at } ∷ rest else m ∷ rest

abbrev pub message_not_found : AppError
message_not_found = not_found_error "Message not found"

-- The message of both path parameters.
unfoldable pub message_in : Param → ℕ → ℕ → List Message → Result Message
message_in channel_param channel_id message_id ms = do
  message ← or_throw (find_message message_id ms) message_not_found
  throw_if (not (is_plain channel_param && message.channel_id == channel_id)) message_not_found
  ok message

-- Math.floor(MAX_MESSAGE_LENGTH / 6)
abbrev max_task_index : ℕ
max_task_index = 1666

-- PATCH /channels/:channelId/messages/:messageId/tasks/:taskIndex
unfoldable pub toggle_task : Env → Caller → Param → Param → Option ℕ → Value → Chat → Result Chat
toggle_task e caller channel_param message_param index checked chat = do
  channel_id ← assert_uuid channel_param "channelId must be a valid UUID"
  message_id ← assert_uuid message_param "messageId must be a valid UUID"
  index ←
      assert_bounded_int index 0 max_task_index "taskIndex must be an integer between 0 and 1666"
  channel ← require_channel_member chat.tables caller.id channel_id
  not_archived_in chat.tables channel.workspace_id
  checked ← assert_boolean checked "checked must be a boolean"
  message ← message_in channel_param channel_id message_id chat.messages
  content ←
      or_throw (set_task_checked e.owner_token_alias message.content index checked)
        (not_found_error "Task not found")
  or_throw (user_by_id message.user_id chat.tables.users) unhandled_error
  ok (record chat {
    messages = rewrite message_id content message.edited_at chat.messages;
    broadcasts =
        chat.broadcasts
        ++ (channel_param, updated_without_edited_at (record message { content = content })) ∷ [];
    tables =
        append_audit_event caller message_task_toggled message_id
          (task_toggled channel_id index checked) chat.tables;
    embedding_jobs = enqueue_embedding_job e.refuses_embedding_job message_id chat.embedding_jobs;
  })

-- PATCH /channels/:channelId/messages/:messageId
unfoldable pub edit_message : Env → Caller → Param → Param → Value → Chat → Result Chat
edit_message e caller channel_param message_param content chat = do
  channel_id ← assert_uuid channel_param "channelId must be a valid UUID"
  message_id ← assert_uuid message_param "messageId must be a valid UUID"
  channel ← require_channel_member chat.tables caller.id channel_id
  not_archived_in chat.tables channel.workspace_id
  content ← assert_message_content content
  message ← message_in channel_param channel_id message_id chat.messages
  throw_if (not (message.user_id == caller.id))
      (forbidden_error "Only the author can edit this message")
  throw_if (ltb (e.edit_window_minutes * 60 * 1000) (e.now - message.created_at))
      (validation_error "Messages can only be edited within the window after sending")
  or_throw (user_by_id message.user_id chat.tables.users) unhandled_error
  ok (record chat {
    message_edits =
        chat.message_edits
        ++ record {
          message_id = message_id;
          content = message.content;
          edited_by = caller.id;
          edited_at = e.now;
        }
          ∷ [];
    messages = rewrite message_id content (some e.now) chat.messages;
    broadcasts =
        chat.broadcasts
        ++ (channel_param, updated (record message { content = content; edited_at = some e.now }))
          ∷ [];
    tables =
        append_audit_event caller message_edited message_id
          (content_edited channel_id (length message.content) (length content)) chat.tables;
    embedding_jobs = enqueue_embedding_job e.refuses_embedding_job message_id chat.embedding_jobs;
    side_effect_jobs =
        enqueue_message_side_effect_jobs e.refuses_job message_id channel.workspace_id
          chat.side_effect_jobs;
  })

pub data Request : Type 0 where
  send_request : Param → Value → Option Param → Request
  toggle_request : Param → Param → Option ℕ → Value → Request
  edit_request : Param → Param → Value → Request

-- A request that fails leaves the tables.
abbrev pub kept : Chat → Result Chat → Chat
kept chat (ok chat') = chat'
kept chat (err e) = chat

unfoldable pub serve : Chat → Env × Caller × Request → Chat
serve chat (e, c, send_request ch v p) = (send_message e c ch v p chat).0
serve chat (e, c, toggle_request ch m i v) = kept chat (toggle_task e c ch m i v chat)
serve chat (e, c, edit_request ch m v) = kept chat (edit_message e c ch m v chat)

unfoldable pub serve_all : Chat → List (Env × Caller × Request) → Chat
serve_all chat [] = chat
serve_all chat (r ∷ rs) = serve_all (serve chat r) rs
