-- ===== src/Messages/Threads.antt =====
-- Threads: which message a message may answer.
use silent_whisper.Prelude.{
  ℕ, ◌≡◌, refl, sym, ◌∙◌, true, inl, inr, Option, none, some, List, [], ◌∷◌, ◌++◌, arith, ◌==◌, leb,
  length, Bool-cases, Option-cases, if◌then◌else◌,
}
use silent_whisper.Text.{Text}
use silent_whisper.Errors.{validation_error, ok, err, ◌>>=◌, or_throw, throw_if}
use silent_whisper.Validation.{text, uuid, assert_uuid, assert_message_content}
use silent_whisper.Authz.Database.{Db}
use silent_whisper.Workspaces.Tables.{Caller}
use silent_whisper.Messages.{
  Message, Revision, Chat, Env, find_message, inserted, check_parent, create_message, rewrite,
  Request, serve, serve_all,
}
use silent_whisper.Messages.Rules.{Answers, Write, refused, sent, ticked, edited}
use silent_whisper.Messages.Refines.{serve-Writes}
use silent_whisper.Messages.Rows.{with_text, find-append, find-rewrite}
use silent_whisper.Messages.Origin.{some_injective}

-- Every message that answers one answers a message of its own channel.
abbrev pub Threaded : List Message → Type 0
Threaded ms =
    (id : ℕ) (m : Message)
    → find_message id ms ≡ some m
    → Answers ms m.channel_id m.parent_message_id

-- Parents stay, where messages are added or rewritten.
Answers-append :
    (ms : List Message) (n : Message) (c : ℕ) (p : Option ℕ)
    → Answers ms c p
    → Answers (ms ++ n ∷ []) c p
Answers-append ms n c none a = tt
Answers-append ms n c (some p) (m, found, here) = (m, rw (find-append p ms n, found) refl, here)

Answers-rewrite :
    (i : ℕ) (t : Text) (at : Option ℕ) (ms : List Message) (c : ℕ) (p : Option ℕ)
    → Answers ms c p
    → Answers (rewrite i t at ms) c p
Answers-rewrite i t at ms c none a = tt
Answers-rewrite i t at ms c (some p) (m, found, here) = elim (Bool-cases (i == p)) [
  | inl this ↦ (with_text t at m, rw (find-rewrite p i t at ms, this, found) refl, here)
  | inr other ↦ (m, rw (find-rewrite p i t at ms, other) found, here)
]

Threaded-append :
    (ms : List Message) (n : Message)
    → Threaded ms
    → Answers ms n.channel_id n.parent_message_id
    → Threaded (ms ++ n ∷ [])
Threaded-append ms n h a id m found = elim (Option-cases (find_message id ms)) [
  | inr (m', e) ↦
      let there : find_message id (ms ++ n ∷ []) ≡ some m' = rw (find-append id ms n, e) refl in
      rw (some_injective (sym found ∙ there)) (Answers-append ms n _ _ (h id m' e))
  | inl e ↦
      let last : n ≡ m = ground (arith, find-append id ms n) in
      rw (sym last) (Answers-append ms n _ _ a)
]

Threaded-rewrite :
    (i : ℕ) (t : Text) (at : Option ℕ) (ms : List Message)
    → Threaded ms
    → Threaded (rewrite i t at ms)
Threaded-rewrite i t at ms h id m found = elim (Option-cases (find_message id ms)) [
  | inl e ↦ absurd (ground (arith, find-rewrite id i t at ms))
  | inr (m', e) ↦
      let answers = Answers-rewrite i t at ms _ _ (h id m' e) in
      elim (Bool-cases (i == id)) [
        | inl this ↦
            let there : find_message id (rewrite i t at ms) ≡ some (with_text t at m') =
              rw (find-rewrite id i t at ms, this, e) refl in
            rw (some_injective (sym found ∙ there)) answers
        | inr other ↦
            let there : find_message id (rewrite i t at ms) ≡ some m' =
              rw (find-rewrite id i t at ms, other) e in
            rw (some_injective (sym found ∙ there)) answers
      ]
]

Write-Threaded :
    (e : Env) (db : Db) (u : ℕ) (ms : List Message) (rs : List Revision) (ms' : List Message)
    (rs' : List Revision)
    → Threaded ms
    → Write e db u ms rs ms' rs'
    → Threaded ms'
Write-Threaded e db u ms rs ms' rs' h refused = h
Write-Threaded e db u ms rs ms' rs' h (sent c t p _ _ _ answers) =
    Threaded-append ms (inserted e c u t p) h answers
Write-Threaded e db u ms rs ms' rs' h (ticked i n t _ _ _ _) = Threaded-rewrite i t n.edited_at ms h
Write-Threaded e db u ms rs ms' rs' h (edited i n t _ _ _ _) =
    Threaded-rewrite i t (some e.now) ms h

-- Any requests keep it so that a message with a parent answers a message of its own channel.
pub serve_all-Threaded :
    (rs : List (Env × Caller × Request)) (chat : Chat)
    → Threaded chat.messages
    → Threaded (serve_all chat rs).messages
unfolding serve_all
serve_all-Threaded [] chat h = h
serve_all-Threaded ((e, c, r) ∷ rs) chat h = serve_all-Threaded rs (serve chat (e, c, r)) (
    Write-Threaded e chat.tables c.id chat.messages chat.message_edits _ _ h
      (serve-Writes e c r chat))

-- A message becomes the parent of another exactly when it lies in the channel: nothing else is
-- asked of it, and it may be an answer itself.
any_message_is_a_parent :
    (e : Env) (c u p : ℕ) (a : ℕ) (t : Text) (ms : List Message) (m : Message)
    → find_message p ms ≡ some m
    → leb (length (a ∷ t)) 10000 ≡ true
    → create_message e c u (text (a ∷ t)) (some (uuid p)) ms ≡ (
        if m.channel_id == c
        then ok (inserted e c u (a ∷ t) (some p), ms ++ inserted e c u (a ∷ t) (some p) ∷ [])
        else err (validation_error "parentMessageId must reference a message in the same channel"))
unfolding create_message check_parent assert_message_content assert_uuid ◌>>=◌ or_throw throw_if
any_message_is_a_parent e c u p a t ms m there short = ground arith
