-- ===== src/Invitations/Answered.antt =====
-- An invitation is answered once.
use silent_whisper.Prelude.{
  ℕ, ◌≡◌, refl, Bool, true, false, not, Option, none, some, List, [], ◌∷◌, ◌++◌, arith, inl, inr,
  ◌⊎◌, subst, String,
}
use silent_whisper.Errors.{
  Result, ok, err, ◌>>=◌, or_throw, throw_if, Ensures, Ensures-bind, Ensures-ok,
}
use silent_whisper.Validation.{uuid, assert_uuid}
use silent_whisper.Workspaces.Tables.{Caller}
use silent_whisper.Invitations.{
  Desk, Invitation, Answer, waiting, accepted, declined, is_waiting, find_invitation, resolve,
  invitation_not_found, load_own_pending_invitation, invite, accept, decline, Action, invite_action,
  accept_action, decline_action, act, kept, act_all,
}

abbrev is_answered_row : Option Invitation → Bool
is_answered_row none = false
is_answered_row (some i) = not (is_waiting i)

-- The row that an identifier finds has its answer.
abbrev pub is_answered : ℕ → List Invitation → Bool
is_answered id is = is_answered_row (find_invitation id is)

abbrev is_final : Answer → Bool
is_final waiting = false
is_final _ = true

answered-append :
    (id : ℕ) (is more : List Invitation)
    → is_answered id is ≡ true
    → is_answered id (is ++ more) ≡ true
answered-append id [] more h = cc
answered-append id (i ∷ is) more h = ground (arith, answered-append id is more)

answered-resolve :
    (id k : ℕ) (a : Answer) (is : List Invitation)
    → is_final a ≡ true
    → is_answered id is ≡ true
    → is_answered id (resolve k a is) ≡ true
answered-resolve id k a [] f h = cc
answered-resolve id k a (i ∷ is) f h = ground (arith, answered-resolve id k a is f)

resolve-answers :
    (id : ℕ) (a : Answer) (is : List Invitation) (row : Invitation)
    → is_final a ≡ true
    → find_invitation id is ≡ some row
    → is_answered id (resolve id a is) ≡ true
resolve-answers id a [] row f h = cc
resolve-answers id a (i ∷ is) row f h = ground (arith, resolve-answers id a is row f)

-- An invitation that is found and waits for this user.
loaded :
    (u id : ℕ) (is : List Invitation) (row : Invitation)
    → load_own_pending_invitation u id is ≡ ok row
    → find_invitation id is ≡ some row
unfolding load_own_pending_invitation or_throw throw_if ◌>>=◌
loaded u id is row h = ground arith

answered-refused :
    (u id : ℕ) (is : List Invitation)
    → is_answered id is ≡ true
    → load_own_pending_invitation u id is ≡ err invitation_not_found
unfolding load_own_pending_invitation or_throw throw_if ◌>>=◌
answered-refused u id is h = ground arith

abbrev StaysAnswered : ℕ → Result Desk → Type 0
StaysAnswered id m = Ensures m (λ d. is_answered id d.invitations ≡ true)

act-answered :
    (id : ℕ) (c : Caller) (a : Action) (d : Desk)
    → is_answered id d.invitations ≡ true
    → StaysAnswered id (act c a d)
unfolding invite accept decline
act-answered id c (invite_action n w u r) d h = Ensures-bind _ λ _ _. Ensures-bind _ λ _ _.
    Ensures-bind _ λ _ _. Ensures-bind _ λ _ _. Ensures-bind _ λ _ _. Ensures-bind _ λ _ _.
      Ensures-bind _
        λ _ _. Ensures-bind _ λ _ _. Ensures-ok _ (answered-append id d.invitations _ h)
act-answered id c (accept_action i) d h = Ensures-bind _ λ k _.
    Ensures-bind _ λ _ _.
      Ensures-bind _ λ _ _. Ensures-ok _ (answered-resolve id k accepted d.invitations refl h)
act-answered id c (decline_action i) d h =
    Ensures-bind _ λ k _.
      Ensures-bind _ λ _ _. Ensures-ok _ (answered-resolve id k declined d.invitations refl h)

kept-answered :
    (id : ℕ) (d : Desk) (r : Result Desk)
    → StaysAnswered id r
    → is_answered id d.invitations ≡ true
    → is_answered id (kept d r).invitations ≡ true
kept-answered id d (ok d') s h = s.at d' refl
kept-answered id d (err e) s h = h

act_all-answered :
    (id : ℕ) (d : Desk) (actions : List (Caller × Action))
    → is_answered id d.invitations ≡ true
    → is_answered id (act_all d actions).invitations ≡ true
unfolding act_all
act_all-answered id d [] h = h
act_all-answered id d ((c, a) ∷ actions) h =
    act_all-answered id (kept d (act c a d)) actions
      (kept-answered id d (act c a d) (act-answered id c a d h) h)

uuid_value : (id k : ℕ) (m : String) → assert_uuid (uuid id) m ≡ ok k → k ≡ id
unfolding assert_uuid
uuid_value id k m h = cc

-- The row that an answer was for.
answered_as :
    (u id k : ℕ) (m : String) (a : Answer) (is : List Invitation) (row : Invitation)
    → is_final a ≡ true
    → assert_uuid (uuid id) m ≡ ok k
    → load_own_pending_invitation u k is ≡ ok row
    → is_answered id (resolve k a is) ≡ true
answered_as u id k m a is row f e found =
    subst (λ x. is_answered x (resolve k a is) ≡ true) (uuid_value id k m e)
      (resolve-answers k a is row f (loaded u k is row found))

accept-answered : (id : ℕ) (c : Caller) (d : Desk) → StaysAnswered id (accept c (uuid id) d)
unfolding accept
accept-answered id c d = Ensures-bind _ λ k e. Ensures-bind _ λ row found.
    Ensures-bind _
      λ _ _. Ensures-ok _ (answered_as c.id id k _ accepted d.invitations row refl e found)

decline-answered : (id : ℕ) (c : Caller) (d : Desk) → StaysAnswered id (decline c (uuid id) d)
unfolding decline
decline-answered id c d = Ensures-bind _ λ k e.
    Ensures-bind _
      λ row found. Ensures-ok _ (answered_as c.id id k _ declined d.invitations row refl e found)

-- Both answers to an invitation that has its answer are refused.
both_refused :
    (id : ℕ) (c : Caller) (d : Desk)
    → is_answered id d.invitations ≡ true
    → (accept c (uuid id) d ≡ err invitation_not_found)
      × (decline c (uuid id) d ≡ err invitation_not_found)
unfolding accept decline assert_uuid ◌>>=◌
both_refused id c d h = (
  rw (answered-refused c.id id d.invitations h) refl,
  rw (answered-refused c.id id d.invitations h) refl,
)

-- When an invitation was accepted or declined, then after any invitations and answers of anybody
-- every further answer to it, of whomever, is refused with the error of a missing invitation.
pub answered_once :
    (id : ℕ) (c c' : Caller) (d d' : Desk) (actions : List (Caller × Action))
    → (accept c (uuid id) d ≡ ok d') ⊎ (decline c (uuid id) d ≡ ok d')
    → (accept c' (uuid id) (act_all d' actions) ≡ err invitation_not_found)
      × (decline c' (uuid id) (act_all d' actions) ≡ err invitation_not_found)
answered_once id c c' d d' actions (inl h) =
    both_refused id c' (act_all d' actions)
      (act_all-answered id d' actions ((accept-answered id c d).at d' h))
answered_once id c c' d d' actions (inr h) =
    both_refused id c' (act_all d' actions)
      (act_all-answered id d' actions ((decline-answered id c d).at d' h))
