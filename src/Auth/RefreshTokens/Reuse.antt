-- ===== src/Auth/RefreshTokens/Reuse.antt =====
-- A token that was rotated is of no use to anybody.
use silent_whisper.Prelude.{
  ℕ, ◌+◌, ◌≤◌, ◌≡◌, refl, Bool, true, false, Option, none, some, is_some, List, [], ◌∷◌, ◌++◌,
  arith, ltb, ◌==◌, ==_refl, if◌then◌else◌, Bool-cases, Option-cases, inl, inr,
}
use silent_whisper.Text.{Text}
use silent_whisper.Auth.RefreshTokens.{
  Row, Env, Rotation, reuse, rotated, issue_refresh_token, find_token, is_active, revoke_where,
  active_of, revoke_all_refresh_tokens_for_user, rotate_row, rotate_found, rotate_refresh_token,
  revoke_refresh_token, Call, issue, rotate, revoke, revoke_all, step, run,
}

-- The row that a hash finds is revoked.
abbrev is_spent_row : Option Row → Bool
is_spent_row none = false
is_spent_row (some r) = is_some r.revoked_at

abbrev pub is_spent : Text → List Row → Bool
is_spent h rows = is_spent_row (find_token h rows)

spent-append :
    (h : Text) (rows more : List Row) → is_spent h rows ≡ true → is_spent h (rows ++ more) ≡ true
spent-append h [] more s = cc
spent-append h (r ∷ rows) more s = ground (arith, spent-append h rows more)

spent-revoke_where :
    (p : Row → Bool) (now : ℕ) (h : Text) (rows : List Row)
    → is_spent h rows ≡ true
    → is_spent h (revoke_where p now rows) ≡ true
spent-revoke_where p now h [] s = cc
spent-revoke_where p now h (r ∷ rows) s = ground (arith, spent-revoke_where p now h rows)

-- A row that the condition takes is spent afterwards.
revoke_where-spends :
    (p : Row → Bool) (now : ℕ) (h : Text) (rows : List Row) (r : Row)
    → find_token h rows ≡ some r
    → p r ≡ true
    → is_spent h (revoke_where p now rows) ≡ true
revoke_where-spends p now h [] r f q = cc
revoke_where-spends p now h (x ∷ rows) r f q = ground (arith, revoke_where-spends p now h rows r)

abbrev pub is_reuse : Rotation → Bool
is_reuse (reuse u) = true
is_reuse _ = false

abbrev pub is_rotated : Rotation → Bool
is_rotated (rotated u t) = true
is_rotated _ = false

row-spent :
    (e : Env) (h : Text) (rows : List Row) (r : Row)
    → is_spent h rows ≡ true
    → is_spent h (rotate_row e rows r).0 ≡ true
unfolding revoke_all_refresh_tokens_for_user issue_refresh_token
row-spent e h rows r s = elim (Bool-cases (is_some r.revoked_at)) [
  | inl old ↦ rw old (spent-revoke_where _ e.now h rows s)
  | inr live ↦ elim (Bool-cases (ltb r.expires_at e.now)) [
    | inl late ↦ rw (live, late) s
    | inr timely ↦ rw (live, timely) (spent-append h _ _ (spent-revoke_where _ e.now h rows s))
  ]
]

found_spent :
    (e : Env) (h : Text) (rows : List Row) (o : Option Row)
    → is_spent h rows ≡ true
    → is_spent h (rotate_found e rows o).0 ≡ true
found_spent e h rows none s = s
found_spent e h rows (some r) s = row-spent e h rows r s

step-spent :
    (h : Text) (rows : List Row) (c : Env × Call)
    → is_spent h rows ≡ true
    → is_spent h (step rows c) ≡ true
unfolding step rotate_refresh_token revoke_refresh_token revoke_all_refresh_tokens_for_user
    issue_refresh_token
step-spent h rows (e, issue u) s = spent-append h rows _ s
step-spent h rows (e, rotate t) s = found_spent e h rows (find_token (e.hash_token t) rows) s
step-spent h rows (e, revoke t) s = spent-revoke_where _ e.now h rows s
step-spent h rows (e, revoke_all u) s = spent-revoke_where _ e.now h rows s

run-spent :
    (h : Text) (rows : List Row) (calls : List (Env × Call))
    → is_spent h rows ≡ true
    → is_spent h (run rows calls) ≡ true
unfolding run
run-spent h rows [] s = s
run-spent h rows (c ∷ calls) s = run-spent h (step rows c) calls (step-spent h rows c s)

-- Presenting a spent token is taken for reuse.
spent-reuse :
    (e : Env) (t : Text) (rows : List Row)
    → is_spent (e.hash_token t) rows ≡ true
    → is_reuse (rotate_refresh_token e t rows).1 ≡ true
unfolding rotate_refresh_token
spent-reuse e t rows s = ground arith

rotated-spent :
    (e : Env) (t : Text) (rows : List Row)
    → is_rotated (rotate_refresh_token e t rows).1 ≡ true
    → is_spent (e.hash_token t) (rotate_refresh_token e t rows).0 ≡ true
unfolding rotate_refresh_token issue_refresh_token
rotated-spent e t rows h = elim (Option-cases (find_token (e.hash_token t) rows)) [
  | inl none_found ↦ absurd (ground arith)
  | inr (r, found) ↦
      let live : is_some r.revoked_at ≡ false = ground arith in
      let timely : ltb r.expires_at e.now ≡ false = ground arith in
      rw (found, live, timely)
        (spent-append (e.hash_token t) _ _
          (revoke_where-spends _ e.now (e.hash_token t) rows r found (==_refl r.id)))
]

-- When a token was rotated, every later attempt to rotate it is taken for reuse, whatever tokens
-- were issued, rotated and revoked in between, the hash being the same function.
pub rotated_once :
    (e e' : Env) (t : Text) (rows : List Row) (calls : List (Env × Call))
    → is_rotated (rotate_refresh_token e t rows).1 ≡ true
    → e'.hash_token t ≡ e.hash_token t
    → is_reuse (rotate_refresh_token e' t (run (rotate_refresh_token e t rows).0 calls)).1 ≡ true
rotated_once e e' t rows calls h same =
    spent-reuse e' t (run (rotate_refresh_token e t rows).0 calls) (
      rw same (
        run-spent (e.hash_token t) (rotate_refresh_token e t rows).0 calls
          (rotated-spent e t rows h)))

-- How many tokens of a user are not revoked.
abbrev pub sessions : ℕ → List Row → ℕ
sessions u [] = 0
sessions u (r ∷ rows) = let rest = sessions u rows in if active_of u r then rest + 1 else rest

pub sessions-append :
    (u : ℕ) (xs ys : List Row) → sessions u (xs ++ ys) ≡ sessions u xs + sessions u ys
sessions-append u [] ys = omega arith
sessions-append u (x ∷ xs) ys = ground (arith, sessions-append u xs ys)

pub sessions-revoke_where :
    (p : Row → Bool) (now u : ℕ) (rows : List Row)
    → sessions u (revoke_where p now rows) ≤ sessions u rows
sessions-revoke_where p now u [] = omega arith
sessions-revoke_where p now u (r ∷ rows) = ground (arith, sessions-revoke_where p now u rows)

pub no_sessions :
    (now u : ℕ) (rows : List Row) → sessions u (revoke_where (active_of u) now rows) ≡ 0
no_sessions now u [] = refl
no_sessions now u (r ∷ rows) = ground (arith, no_sessions now u rows)

-- One session less where the condition takes an active row.
one_less :
    (p : Row → Bool) (now : ℕ) (h : Text) (rows : List Row) (r : Row)
    → find_token h rows ≡ some r
    → p r ≡ true
    → is_active r ≡ true
    → sessions r.user_id (revoke_where p now rows) + 1 ≤ sessions r.user_id rows
one_less p now h [] r f q live = cc
one_less p now h (x ∷ rows) r f q live =
    ground (
      arith,
      one_less p now h rows r,
      sessions-revoke_where p now r.user_id rows,
      ==_refl r.user_id,
    )

-- An attempt that is taken for reuse leaves the user whose token it was without any session.
pub reuse_ends_all_sessions :
    (e : Env) (t : Text) (rows : List Row) (u : ℕ)
    → (rotate_refresh_token e t rows).1 ≡ reuse u
    → sessions u (rotate_refresh_token e t rows).0 ≡ 0
unfolding rotate_refresh_token revoke_all_refresh_tokens_for_user
reuse_ends_all_sessions e t rows u h = elim (Option-cases (find_token (e.hash_token t) rows)) [
  | inl none_found ↦ ground arith
  | inr (r, found) ↦ ground (arith, found, no_sessions e.now u rows)
]

-- A rotation, whatever its outcome, gives no user more sessions than before.
pub rotation_adds_no_session :
    (e : Env) (t : Text) (rows : List Row) (u : ℕ)
    → sessions u (rotate_refresh_token e t rows).0 ≤ sessions u rows
unfolding rotate_refresh_token revoke_all_refresh_tokens_for_user issue_refresh_token
rotation_adds_no_session e t rows u = elim (Option-cases (find_token (e.hash_token t) rows)) [
  | inl none_found ↦ rw none_found (omega arith)
  | inr (r, found) ↦ ground (
    arith,
    found,
    sessions-revoke_where (active_of r.user_id) e.now u rows,
    sessions-revoke_where (λ s. s.id == r.id) e.now u rows,
    one_less (λ s. s.id == r.id) e.now (e.hash_token t) rows r found (==_refl r.id),
    sessions-append u (revoke_where (λ s. s.id == r.id) e.now rows) (
        record {
          id = e.new_id;
          user_id = r.user_id;
          token_hash = e.hash_token e.raw_token;
          expires_at = e.now + e.refresh_token_ttl_ms;
          revoked_at = none;
        }
        ∷ []),
  )
]
