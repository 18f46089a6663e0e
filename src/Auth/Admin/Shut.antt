-- ===== src/Auth/Admin/Shut.antt =====
-- Which tokens of disabled accounts are live after a write.
use silent_whisper.Prelude.{
  ℕ, ◌+◌, ◌≤◌, ◌≡◌, refl, sym, Bool, true, false, not, Option, none, some, List, [], ◌∷◌, ◌++◌,
  arith, ◌==◌, ==_iff, Bool-cases, Option-cases, inl, inr,
}
use silent_whisper.Text.{Text}
use silent_whisper.Auth.RefreshTokens.{
  Row, Rotation, invalid, expired, reuse, rotated, issue_refresh_token, revoke_where, active_of,
  rotate_refresh_token, revoke_refresh_token, revoke_all_refresh_tokens_for_user,
}
use silent_whisper.Auth.RefreshTokens
use silent_whisper.Auth.RefreshTokens.Reuse.{
  sessions, sessions-append, sessions-revoke_where, no_sessions,
}
use silent_whisper.Auth.Accounts.{
  Account, House, Outside, Status, is_active_status, active, disabled, active_account, find_account,
  update_account, open_session, login_found, after_rotation,
}
use silent_whisper.Auth.Admin.{with_status}
use silent_whisper.Auth.Admin.Rows.{find-append, find-update, distinct, distinct-update}

abbrev shut : Option Account → Bool
shut none = false
shut (some a) = not (is_active_status a.status)

-- The account of an identifier is there and disabled.
abbrev pub is_shut : List Account → ℕ → Bool
is_shut xs id = shut (find_account id xs)

-- Identifiers are unique, and no token of a disabled account is live.
pub record ShutOut (xs : List Account) (rows : List Row) : Type 0 where
  pub unique : distinct xs ≡ true
  pub ended : (id : ℕ) → is_shut xs id ≡ true → sessions id rows ≡ 0

-- No disabled account more, and no session more for the disabled ones.
module _ (xs ys : List Account) (rows more : List Row) (h : ShutOut xs rows) where
  pub fewer :
      distinct ys ≡ true
      → ((id : ℕ)
          → is_shut ys id ≡ true
          → (is_shut xs id ≡ true) × (sessions id more ≤ sessions id rows))
      → ShutOut ys more
  fewer unique k = record {
    unique = unique;
    ended = λ id gone.
        let (was, le) = k id gone in let zero_before = h.ended id was in omega (arith, le);
  }

-- A write that changes no status.
module _ (xs : List Account) (i : ℕ) (f : Account → Account) where
  pub shut-update :
      ((a : Account) → (f a).id ≡ a.id)
      → ((a : Account) → (f a).status ≡ a.status)
      → (id : ℕ) → is_shut (update_account i f xs) id ≡ is_shut xs id
  shut-update same status id = elim (Option-cases (find_account id xs)) [
    | inl e ↦ ground (arith, find-update id i f xs same, e)
    | inr (a, e) ↦ ground (arith, find-update id i f xs same, e, status a)
  ]

pub sessions-issue :
    (e : RefreshTokens.Env) (u id : ℕ) (rows : List Row)
    → (u == id) ≡ false
    → sessions id (issue_refresh_token e u rows) ≡ sessions id rows
unfolding issue_refresh_token
sessions-issue e u id rows other =
    let row : Row = record {
      id = e.new_id;
      user_id = u;
      token_hash = e.hash_token e.raw_token;
      expires_at = e.now + e.refresh_token_ttl_ms;
      revoked_at = none;
    } in
    ground (arith, sessions-append id rows (row ∷ []), other)

-- An active account is not shut.
pub not_shut :
    (xs : List Account) (i id : ℕ) (a : Account)
    → find_account i xs ≡ some a
    → is_active_status a.status ≡ true
    → is_shut xs id ≡ true
    → (i == id) ≡ false
not_shut xs i id a found live gone = elim (Bool-cases (i == id)) [
  | inr other ↦ other
  | inl this ↦
      let here : find_account id xs ≡ some a = rw (sym ((==_iff i id).0 this)) found in
      absurd (ground (arith, here, live, gone))
]

open-ShutOut :
    (o : Outside) (i : ℕ) (s : Status) (h : House) (a : Account)
    → find_account i h.accounts ≡ some a
    → a.status ≡ s
    → ShutOut h.accounts h.tokens
    → ShutOut h.accounts (open_session o i s h).0.tokens
open-ShutOut o i disabled h a found same out = out
open-ShutOut o i active h a found same out =
    fewer h.accounts h.accounts h.tokens _ out out.unique λ id gone.
      let other = not_shut h.accounts i id a found (rw same refl) gone in
      (gone, ground (arith, sessions-issue o.token_env i id h.tokens other))

pub login-ShutOut :
    (o : Outside) (t : Text) (m : Option Account) (h : House)
    → ((a : Account) → m ≡ some a → find_account a.id h.accounts ≡ some a)
    → ShutOut h.accounts h.tokens
    → ShutOut h.accounts (login_found o t m h).0.tokens
login-ShutOut o t none h found out = out
login-ShutOut o t (some a) h found out = elim (Bool-cases (o.bcrypt_compare t a.password_hash)) [
  | inr wrong ↦ rw wrong out
  | inl right ↦ rw right (open-ShutOut o a.id a.status h a (found a refl) refl out)
]

-- Fewer sessions for everybody.
pub fewer_tokens :
    (xs : List Account) (rows more : List Row)
    → ShutOut xs rows
    → ((id : ℕ) → sessions id more ≤ sessions id rows)
    → ShutOut xs more
fewer_tokens xs rows more out le = fewer xs xs rows more out out.unique λ id gone. (gone, le id)

pub rotation-ShutOut :
    (o : Outside) (rows : List Row) (r : Rotation) (h : House)
    → ((id : ℕ) → sessions id rows ≤ sessions id h.tokens)
    → ShutOut h.accounts h.tokens
    → ShutOut h.accounts (after_rotation o rows r h).0.tokens
unfolding revoke_all_refresh_tokens_for_user
rotation-ShutOut o rows invalid h le out = fewer_tokens h.accounts h.tokens rows out le
rotation-ShutOut o rows expired h le out = fewer_tokens h.accounts h.tokens rows out le
rotation-ShutOut o rows (reuse u) h le out = fewer_tokens h.accounts h.tokens rows out le
rotation-ShutOut o rows (rotated u t) h le out =
    elim (Bool-cases (active_account (find_account u h.accounts))) [
      | inl live ↦ rw live (fewer_tokens h.accounts h.tokens rows out le)
      | inr gone ↦ rw gone (
          fewer_tokens h.accounts h.tokens _ out λ id.
            ground (arith, sessions-revoke_where (active_of u) o.token_env.now id rows, le id))
    ]

pub shut-append :
    (xs : List Account) (a : Account) (id : ℕ)
    → is_active_status a.status ≡ true
    → is_shut (xs ++ a ∷ []) id ≡ true
    → is_shut xs id ≡ true
shut-append xs a id live gone = elim (Option-cases (find_account id xs)) [
  | inl e ↦ ground (arith, find-append id xs a, e, live, gone)
  | inr (x, e) ↦ ground (arith, find-append id xs a, e, gone)
]

pub disabled_out :
    (xs : List Account) (rows : List Row) (i now : ℕ)
    → ShutOut xs rows
    → ShutOut (update_account i (with_status false) xs) (revoke_where (active_of i) now rows)
disabled_out xs rows i now out = record {
  unique = distinct-update i (with_status false) xs (λ x. refl) out.unique;
  ended = λ id gone. elim (Bool-cases (i == id)) [
    | inl this ↦ rw (sym ((==_iff i id).0 this)) (no_sessions now i rows)
    | inr other ↦
        let was : is_shut xs id ≡ true =
          ground (arith, find-update id i (with_status false) xs (λ x. refl), other, gone) in
        let zero_before = out.ended id was in
        omega (arith, sessions-revoke_where (active_of i) now id rows)
  ];
}

pub enabled_out :
    (xs : List Account) (rows : List Row) (i : ℕ)
    → ShutOut xs rows
    → ShutOut (update_account i (with_status true) xs) rows
enabled_out xs rows i out =
    fewer xs _ rows rows out (distinct-update i (with_status true) xs (λ x. refl) out.unique)
      λ id gone. (was_shut id gone, omega arith)
  where
    was_shut :
        (id : ℕ) → is_shut (update_account i (with_status true) xs) id ≡ true → is_shut xs id ≡ true
    was_shut id gone = elim (Option-cases (find_account id xs)) [
      | inl e ↦ ground (arith, find-update id i (with_status true) xs (λ x. refl), e, gone)
      | inr (x, e) ↦ ground (arith, find-update id i (with_status true) xs (λ x. refl), e, gone)
    ]

-- What a route leaves of the accounts and the tokens.
