-- ===== src/Messages/Rules.antt =====
-- The rules for the messages of a chat, said without the routes: what one request may do to
-- the texts and to their history.
use silent_whisper.Prelude.{
  ℕ, ◌-◌, ◌*◌, ◌≤◌, ◌≡◌, Bool, true, false, Option, none, some, List, [], ◌∷◌, ◌++◌, length,
}
use silent_whisper.Text.{Text}
use silent_whisper.Authz.Database.{Db, Channel}
use silent_whisper.Authz.Membership.{workspace_archived}
use silent_whisper.Messages.{Message, Revision, Env, inserted, find_message, rewrite}
use silent_whisper.Messages.Tasks.Boxes.{same_but_marks, differences}

abbrev pub in_archive : Db → Option ℕ → Bool
in_archive db none = false
in_archive db (some w) = workspace_archived (db.workspaces w)

-- A user may write into a channel: as its member, where its workspace is not archived.
abbrev pub MayWrite : Db → ℕ → ℕ → Type 0
MayWrite db u c =
    (db.channel_members c u ≡ true)
    × ((channel : Channel) × (db.channels c ≡ some channel)
        × (in_archive db channel.workspace_id ≡ false))

-- A message answers none, or one of the same channel.
abbrev pub Answers : List Message → ℕ → Option ℕ → Type 0
Answers ms c none = Unit
Answers ms c (some p) = (m : Message) × (find_message p ms ≡ some m) × (m.channel_id ≡ c)

-- One request of user u: the messages and their history after it.
pub data Write (e : Env) (db : Db) (u : ℕ) (ms : List Message) (rs : List Revision)
    : List Message → List Revision → Type 0 where
  refused : Write e db u ms rs ms rs
  sent :
      (c : ℕ) (t : Text) (p : Option ℕ)
      → MayWrite db u c
      → 1 ≤ length t
      → length t ≤ 10000
      → Answers ms c p
      → Write e db u ms rs (ms ++ inserted e c u t p ∷ []) rs
  ticked :
      (i : ℕ) (m : Message) (t : Text)
      → find_message i ms ≡ some m
      → MayWrite db u m.channel_id
      → same_but_marks m.content t ≡ true
      → differences m.content t ≤ 1
      → Write e db u ms rs (rewrite i t m.edited_at ms) rs
  edited :
      (i : ℕ) (m : Message) (t : Text)
      → find_message i ms ≡ some m
      → MayWrite db u m.channel_id
      → m.user_id ≡ u
      → e.now - m.created_at ≤ e.edit_window_minutes * 60 * 1000
      → Write e db u ms rs (rewrite i t (some e.now) ms) (
          rs
          ++ record { message_id = i; content = m.content; edited_by = u; edited_at = e.now } ∷ [])
