-- ===== src/Messages/Rows.antt =====
-- The rows of messages and message_edits after the writes of the routes.
use silent_whisper.Prelude.{
  ℕ, ◌≡◌, true, Option, none, some, List, [], ◌∷◌, ◌++◌, arith, ◌==◌, if◌then◌else◌,
}
use silent_whisper.Text.{Text}
use silent_whisper.Workspaces.Tables.{map_row}
use silent_whisper.Errors.{ok, ◌>>=◌, or_throw, throw_if}
use silent_whisper.Validation.{Param}
use silent_whisper.Messages.{Message, Revision, find_message, rewrite, message_in}

abbrev pub orelse {ℓ} : {A : Type ℓ} → Option A → Option A → Option A
orelse none o = o
orelse (some a) o = some a

abbrev pub with_text : Text → Option ℕ → Message → Message
with_text content edited_at m = record m { content = content; edited_at = edited_at }

-- The text of the first row of message_edits for a message.
abbrev pub first_revision : ℕ → List Revision → Option Text
first_revision id [] = none
first_revision id (r ∷ rs) = if r.message_id == id then some r.content else first_revision id rs

-- What is found after a row is added at the end.
pub find-append :
    (id : ℕ) (ms : List Message) (m : Message)
    → find_message id (ms ++ m ∷ [])
      ≡ orelse (find_message id ms) (if m.id == id then some m else none)
find-append id [] m = ground arith
find-append id (n ∷ ms) m = ground (arith, find-append id ms m)

-- What is found after a text is rewritten.
pub find-rewrite :
    (id j : ℕ) (t : Text) (at : Option ℕ) (ms : List Message)
    → find_message id (rewrite j t at ms)
      ≡ (if j == id then map_row (with_text t at) (find_message id ms) else find_message id ms)
find-rewrite id j t at [] = ground arith
find-rewrite id j t at (m ∷ ms) = ground (arith, find-rewrite id j t at ms)

-- The first revision after one is added at the end.
pub first_revision-append :
    (id : ℕ) (rs : List Revision) (r : Revision)
    → first_revision id (rs ++ r ∷ [])
      ≡ orelse (first_revision id rs) (if r.message_id == id then some r.content else none)
first_revision-append id [] r = ground arith
first_revision-append id (s ∷ rs) r = ground (arith, first_revision-append id rs r)

-- The message of both path parameters is the one with the identifier, and lies in the channel.
pub message_in-found :
    (p : Param) (channel_id id : ℕ) (ms : List Message) (m : Message)
    → message_in p channel_id id ms ≡ ok m
    → (find_message id ms ≡ some m) × ((m.channel_id == channel_id) ≡ true)
unfolding message_in ◌>>=◌ or_throw throw_if
message_in-found p channel_id id ms m e = (ground arith, ground arith)
