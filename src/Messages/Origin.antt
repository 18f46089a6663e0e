-- ===== src/Messages/Origin.antt =====
-- What stays of a message, and who may change its text.
use silent_whisper.Prelude.{
  ℕ, ◌-◌, ◌*◌, ◌≤◌, ◌≡◌, refl, sym, subst, ◌∙◌, true, ◌⊎◌, inl, inr, Option, some, List, ◌==◌,
  ==_iff, Bool-cases, arith,
}
use silent_whisper.Text.{Text}
use silent_whisper.Authz.Database.{Db}
use silent_whisper.Workspaces.Tables.{Caller}
use silent_whisper.Messages.{
  Message, Revision, Chat, Env, find_message, inserted, rewrite, Request, serve,
}
use silent_whisper.Messages.Rules.{MayWrite, Write, refused, sent, ticked, edited}
use silent_whisper.Messages.Refines.{serve-Writes}
use silent_whisper.Messages.Rows.{with_text, find-append, find-rewrite}
use silent_whisper.Messages.Tasks.Boxes.{
  same_but_marks, same_but_marks_refl, differences, differences_refl,
}

-- The message is still there, with its channel, author, parent and time.
pub record SameOrigin (m n : Message) : Type 0 where
  pub channel : n.channel_id ≡ m.channel_id
  pub author : n.user_id ≡ m.user_id
  pub parent : n.parent_message_id ≡ m.parent_message_id
  pub created : n.created_at ≡ m.created_at

same_origin : (m : Message) (t : Text) (at : Option ℕ) → SameOrigin m (with_text t at m)
same_origin m t at = record { channel = refl; author = refl; parent = refl; created = refl }

-- The author rewrites the text, in time and as a member of the channel.
abbrev pub Authored : Env → Db → ℕ → Message → Type 0
Authored e db u m =
    (m.user_id ≡ u)
    × (e.now - m.created_at ≤ e.edit_window_minutes * 60 * 1000)
    × MayWrite db u m.channel_id

-- At most one mark of a checkbox is another; only who may write in the channel changes it.
abbrev pub Ticked : Db → ℕ → Message → Text → Type 0
Ticked db u m t =
    (same_but_marks m.content t ≡ true)
    × (differences m.content t ≤ 1)
    × ((m.content ≡ t) ⊎ MayWrite db u m.channel_id)

abbrev pub Later : Env → Db → ℕ → Message → List Message → ℕ → Type 0
Later e db u m ms' id =
    (n : Message) × (find_message id ms' ≡ some n)
    × SameOrigin m n
    × (Ticked db u m n.content ⊎ Authored e db u m)

no_difference : (t : Text) → differences t t ≤ 1
no_difference t = rw (differences_refl t) (omega arith)

kept-Later :
    (e : Env) (db : Db) (u : ℕ) (m : Message) (ms' : List Message) (id : ℕ)
    → find_message id ms' ≡ some m
    → Later e db u m ms' id
kept-Later e db u m ms' id h = (
  m,
  h,
  same_origin m m.content m.edited_at,
  inl (same_but_marks_refl m.content, no_difference m.content, inl refl),
)

pub some_injective : {a b : Message} → some a ≡ some b → a ≡ b
some_injective e = cc

-- The text of message i is rewritten, by marks or by its author.
rewritten-Later :
    (id i : ℕ) (m n : Message) (t : Text) (at : Option ℕ) (e : Env) (db : Db) (u : ℕ)
    (ms : List Message)
    → find_message id ms ≡ some m
    → find_message i ms ≡ some n
    → Ticked db u n t ⊎ Authored e db u n
    → Later e db u m (rewrite i t at ms) id
rewritten-Later id i m n t at e db u ms h found why = elim (Bool-cases (i == id)) [
  | inr other ↦ kept-Later e db u m _ id (rw (find-rewrite id i t at ms, other) h)
  | inl this ↦
      let there : find_message i ms ≡ some m = rw ((==_iff i id).0 this) h in
      let same : n ≡ m = some_injective (sym found ∙ there) in
      (
        with_text t at m,
        rw (find-rewrite id i t at ms, this, h) refl,
        same_origin m t at,
        subst (λ x. Ticked db u x t ⊎ Authored e db u x) same why,
      )
]

Write-Later :
    (id : ℕ) (m : Message) (e : Env) (db : Db) (u : ℕ) (ms : List Message) (rs : List Revision)
    (ms' : List Message) (rs' : List Revision)
    → find_message id ms ≡ some m
    → Write e db u ms rs ms' rs'
    → Later e db u m ms' id
Write-Later id m e db u ms rs ms' rs' h refused = kept-Later e db u m ms id h
Write-Later id m e db u ms rs ms' rs' h (sent c t p _ _ _ _) =
    kept-Later e db u m _ id (rw (find-append id ms (inserted e c u t p), h) refl)
Write-Later id m e db u ms rs ms' rs' h (ticked i n t found may same few) =
    rewritten-Later id i m n t n.edited_at e db u ms h found (inl (same, few, inr may))
Write-Later id m e db u ms rs ms' rs' h (edited i n t found may own soon) =
    rewritten-Later id i m n t (some e.now) e db u ms h found (inr (own, soon, may))

-- A message that is there is there after any request, in the same channel, with the same author,
-- parent and time of sending. Its text stays too, with two exceptions: one mark of a checkbox in it
-- may be another, when the caller is a member of its channel, whose workspace is not archived; and
-- the text may be any other when such a caller is its author and within the window for edits.
pub message_stays :
    (id : ℕ) (m : Message) (e : Env) (c : Caller) (r : Request) (chat : Chat)
    → find_message id chat.messages ≡ some m
    → Later e chat.tables c.id m (serve chat (e, c, r)).messages id
message_stays id m e c r chat h =
    Write-Later id m e chat.tables c.id chat.messages chat.message_edits _ _ h
      (serve-Writes e c r chat)
