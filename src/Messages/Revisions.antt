-- ===== src/Messages/Revisions.antt =====
-- The history of a message: its text as it was sent is never lost.
use silent_whisper.Prelude.{
  ℕ, ◌≡◌, refl, sym, Bool, ==_iff, Bool-cases, true, false, inl, inr, Option, none, some, List, [],
  ◌∷◌, ◌++◌, ◌==◌, if◌then◌else◌,
}
use silent_whisper.Text.{Text}
use silent_whisper.Authz.Database.{Db}
use silent_whisper.Workspaces.Tables.{Caller}
use silent_whisper.Messages.{
  Message, Revision, Chat, Env, find_message, inserted, rewrite, Request, serve, serve_all,
}
use silent_whisper.Messages.Rules.{Write, refused, sent, ticked, edited}
use silent_whisper.Messages.Refines.{serve-Writes}
use silent_whisper.Messages.Rows.{
  orelse, first_revision, find-append, find-rewrite, first_revision-append,
}
use silent_whisper.Messages.Tasks.Boxes.{same_but_marks, same_but_marks_refl, same_but_marks_trans}

abbrev pub text_of : Option Message → Option Text
text_of none = none
text_of (some m) = some m.content

-- The text that the first revision holds, or the present text where there is no revision.
abbrev pub earliest_text : ℕ → Chat → Option Text
earliest_text id chat =
    orelse (first_revision id chat.message_edits) (text_of (find_message id chat.messages))

-- A text that is there stays, up to the marks of its checkboxes.
abbrev pub keeps_text : Option Text → Option Text → Bool
keeps_text none o = true
keeps_text (some t) none = false
keeps_text (some t) (some u) = same_but_marks t u

keeps_refl : (o : Option Text) → keeps_text o o ≡ true
keeps_refl none = refl
keeps_refl (some t) = same_but_marks_refl t

keeps_trans :
    (o p q : Option Text) → keeps_text o p ≡ true → keeps_text p q ≡ true → keeps_text o q ≡ true
keeps_trans none p q h k = refl
keeps_trans (some t) none q h k = absurd (cc)
keeps_trans (some t) (some u) none h k = absurd (cc)
keeps_trans (some t) (some u) (some v) h k = same_but_marks_trans t u v h k

keeps_orelse : (o p : Option Message) → keeps_text (text_of o) (text_of (orelse o p)) ≡ true
keeps_orelse none p = refl
keeps_orelse (some m) p = same_but_marks_refl m.content

-- A later text is compared only where there is no revision.
keeps_behind :
    (o p q : Option Text) → keeps_text p q ≡ true → keeps_text (orelse o p) (orelse o q) ≡ true
keeps_behind none p q h = h
keeps_behind (some t) p q h = same_but_marks_refl t

-- A message at the end hides no text.
appended_keeps :
    (id : ℕ) (ms : List Message) (m : Message)
    → keeps_text (text_of (find_message id ms)) (text_of (find_message id (ms ++ m ∷ []))) ≡ true
appended_keeps id ms m = rw (find-append id ms m) (keeps_orelse (find_message id ms) _)

-- A text with other marks.
rewritten_keeps :
    (id j : ℕ) (t : Text) (at : Option ℕ) (ms : List Message) (m : Message)
    → find_message j ms ≡ some m
    → same_but_marks m.content t ≡ true
    → keeps_text (text_of (find_message id ms)) (text_of (find_message id (rewrite j t at ms)))
      ≡ true
rewritten_keeps id j t at ms m found same = elim (Bool-cases (j == id)) [
  | inl e ↦
      let here : find_message id ms ≡ some m = rw (sym ((==_iff j id).0 e)) found in
      rw (find-rewrite id j t at ms, e, here) same
  | inr e ↦ rw (find-rewrite id j t at ms, e) (keeps_refl (text_of (find_message id ms)))
]

-- Before a text is replaced it becomes a revision.
edited_keeps :
    (id : ℕ) (r : Revision) (t : Text) (at : Option ℕ) (rs : List Revision) (ms : List Message)
    (m : Message)
    → find_message r.message_id ms ≡ some m
    → r.content ≡ m.content
    → keeps_text (orelse (first_revision id rs) (text_of (find_message id ms))) (
        orelse
          (first_revision id (rs ++ r ∷ []))
          (text_of (find_message id (rewrite r.message_id t at ms))))
      ≡ true
edited_keeps id r t at rs ms m found same =
    rw (first_revision-append id rs r) (behind (first_revision id rs))
  where
    rest : Option Text
    rest = text_of (find_message id (rewrite r.message_id t at ms))

    ends :
        keeps_text
          (text_of (find_message id ms))
          (orelse (if r.message_id == id then some r.content else none) rest)
        ≡ true
    ends = elim (Bool-cases (r.message_id == id)) [
      | inl e ↦
          let here : find_message id ms ≡ some m = rw (sym ((==_iff r.message_id id).0 e)) found in
          rw (e, here, same) (same_but_marks_refl m.content)
      | inr e ↦
          rw (find-rewrite id r.message_id t at ms, e) (keeps_refl (text_of (find_message id ms)))
    ]

    behind :
        (o : Option Text)
        → keeps_text
            (orelse o (text_of (find_message id ms)))
            (orelse (orelse o (if r.message_id == id then some r.content else none)) rest)
          ≡ true
    behind none = ends
    behind (some u) = same_but_marks_refl u

Write-keeps :
    (id : ℕ) (e : Env) (db : Db) (u : ℕ) (ms : List Message) (rs : List Revision)
    (ms' : List Message) (rs' : List Revision)
    → Write e db u ms rs ms' rs'
    → keeps_text
        (orelse (first_revision id rs) (text_of (find_message id ms)))
        (orelse (first_revision id rs') (text_of (find_message id ms')))
      ≡ true
Write-keeps id e db u ms rs ms' rs' refused =
    keeps_refl (orelse (first_revision id rs) (text_of (find_message id ms)))
Write-keeps id e db u ms rs ms' rs' (sent c t p _ _ _ _) =
    keeps_behind (first_revision id rs) _ _ (appended_keeps id ms (inserted e c u t p))
Write-keeps id e db u ms rs ms' rs' (ticked i m t found _ same _) =
    keeps_behind (first_revision id rs) _ _ (rewritten_keeps id i t m.edited_at ms m found same)
Write-keeps id e db u ms rs ms' rs' (edited i m t found _ _ _) =
    edited_keeps id
      (record { message_id = i; content = m.content; edited_by = u; edited_at = e.now }) t
      (some e.now) rs ms m found refl

-- Whatever requests follow, by whomever and in whatever order, the earliest text that is kept of a
-- message stays what it was, up to the marks that stand in checkboxes, `- [ ]`: it is the text of its
-- first revision, or the present text as long as there is no revision.
pub earliest_text_stays :
    (id : ℕ) (chat : Chat) (rs : List (Env × Caller × Request))
    → keeps_text (earliest_text id chat) (earliest_text id (serve_all chat rs)) ≡ true
unfolding serve_all
earliest_text_stays id chat [] = keeps_refl (earliest_text id chat)
earliest_text_stays id chat ((e, c, r) ∷ rs) =
    keeps_trans (earliest_text id chat) (earliest_text id (serve chat (e, c, r))) _
      (Write-keeps id e chat.tables c.id chat.messages chat.message_edits _ _
        (serve-Writes e c r chat))
      (earliest_text_stays id (serve chat (e, c, r)) rs)
