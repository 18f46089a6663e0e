-- ===== src/Auth/Admin/Sessions.antt =====
-- The sessions of disabled accounts (backend/src/routes/admin.js, auth.js).
use silent_whisper.Prelude.{
  ℕ, ◌≤◌, ◌≡◌, refl, sym, ◌∙◌, true, false, Option, none, some, List, [], ◌∷◌, arith, Bool-cases,
  inl, inr,
}
use silent_whisper.Text.{Text}
use silent_whisper.Errors.{Result, ok, err, Ensures, Ensures-bind, Ensures-ok, throw_if-false}
use silent_whisper.Validation.{Param, Value, text}
use silent_whisper.Auth.RefreshTokens.{
  Row, revoke_where, active_of, rotate_refresh_token, revoke_refresh_token,
  revoke_all_refresh_tokens_for_user,
}
use silent_whisper.Auth.RefreshTokens.Reuse.{
  sessions, sessions-revoke_where, rotation_adds_no_session,
}
use silent_whisper.Auth.Accounts.{
  Account, House, Outside, is_active_status, find_by_name, update_account, login, refresh,
  logged_out, logout, change_password,
}
use silent_whisper.Auth.Admin.{
  with_admin, with_password, create_user, disable_user, enable_user, promote_user, demote_user,
  reset_password, Request, login_request, refresh_request, logout_request, change_password_request,
  create_request, disable_request, enable_request, promote_request, demote_request, reset_request,
  kept, serve, serve_all,
}
use silent_whisper.Auth.Admin.Rows.{
  distinct-append, distinct-update, by_name-found, require_auth-active,
}
use silent_whisper.Auth.Admin.Remaining.{login-accounts, rotation-accounts}
use silent_whisper.Auth.Admin.Shut.{
  is_shut, ShutOut, fewer, shut-update, sessions-issue, not_shut, login-ShutOut, fewer_tokens,
  rotation-ShutOut, shut-append, disabled_out, enabled_out,
}

abbrev pub Closed : House → Type 0
Closed h = ShutOut h.accounts h.tokens

module _ (o : Outside) (h : House) (out : Closed h) where
  login_route-Closed : (u p : Value) → Closed (login o u p h).0
  unfolding login
  login_route-Closed (text u) (text p) =
      let name = find_by_name o.lower u h.accounts in
      rw (login-accounts o p name h)
        (login-ShutOut o p name h (λ a e. by_name-found o.lower u h.accounts a out.unique e) out)
  login_route-Closed u p = out

  refresh_route-Closed : (t : Option Text) → Closed (refresh o t h).0
  unfolding refresh
  refresh_route-Closed none = out
  refresh_route-Closed (some t) =
      let turn = rotate_refresh_token o.token_env t h.tokens in
      rw (rotation-accounts o turn.0 turn.1 h) (
        rotation-ShutOut o turn.0 turn.1 h
          (λ id. rotation_adds_no_session o.token_env t h.tokens id) out)

  logout_route-Closed : (t : Option Text) → Closed (logout o t h)
  unfolding logout revoke_refresh_token
  logout_route-Closed none = out
  logout_route-Closed (some t) =
      let turn = revoke_refresh_token o.token_env t h.tokens in
      ended turn.1 (record h { tokens = turn.0 })
        (fewer_tokens h.accounts h.tokens turn.0 out
          λ id. sessions-revoke_where _ o.token_env.now id h.tokens)
    where
      ended : (u : Option ℕ) (k : House) → Closed k → Closed (logged_out u k)
      ended none k c = c
      ended (some u) k c = c

  -- A write that changes no status, with fewer sessions.
  same_status :
      (i : ℕ) (f : Account → Account) (more : List Row)
      → ((a : Account) → (f a).id ≡ a.id)
      → ((a : Account) → (f a).status ≡ a.status)
      → ((id : ℕ) → is_shut h.accounts id ≡ true → sessions id more ≤ sessions id h.tokens)
      → ShutOut (update_account i f h.accounts) more
  same_status i f more same status le =
      fewer h.accounts _ h.tokens more out (distinct-update i f h.accounts same out.unique)
        λ id gone.
          let was = sym (shut-update h.accounts i f same status id) ∙ gone in (was, le id was)

  change-Closed : (b : Option Text) (u v : Value) → Ensures (change_password o b u v h) Closed
  unfolding change_password revoke_all_refresh_tokens_for_user
  change-Closed b u v = Ensures-bind _ λ i caller. Ensures-bind _ λ _ _. Ensures-bind _ λ _ _.
      Ensures-bind _ λ _ _. Ensures-bind _ λ t _.
        let (a, found, live) = (require_auth-active o b h).at i caller in
        let now = o.token_env.now in
        Ensures-ok _ (
          same_status i (with_password (o.bcrypt_hash t)) _ (λ x. refl) (λ x. refl)
            λ id gone.
              let other = not_shut h.accounts i id a found live gone in
              ground (
                arith,
                sessions-issue o.token_env i id (revoke_where (active_of i) now h.tokens) other,
                sessions-revoke_where (active_of i) now id h.tokens,
              ))

  create-Closed :
      (b : Option Text) (u e p d : Value) (i : Option Param)
      → Ensures (create_user o b u e p d i h) Closed
  unfolding create_user
  create-Closed b u e p d i = Ensures-bind _ λ _ _. Ensures-bind _ λ _ _. Ensures-bind _ λ _ _.
      Ensures-bind _ λ _ _. Ensures-bind _ λ _ _. Ensures-bind _ λ _ _. Ensures-bind _ λ _ _.
        Ensures-bind _ λ _ new. Ensures-bind _ λ _ _. Ensures-ok _ (
          fewer h.accounts _ h.tokens h.tokens out
            (distinct-append h.accounts _ out.unique (throw_if-false _ _ new))
            λ id gone. (shut-append h.accounts _ id refl gone, omega arith))

  disable-Closed : (b : Option Text) (p : Param) → Ensures (disable_user o b p h) Closed
  unfolding disable_user revoke_all_refresh_tokens_for_user
  disable-Closed b p = Ensures-bind _ λ caller _. Ensures-bind _ λ i _. Ensures-bind _ λ _ _.
      Ensures-bind _ λ target _. Ensures-ok _ (elim (Bool-cases (is_active_status target.status)) [
        | inr gone ↦ rw gone out
        | inl live ↦ rw live (disabled_out h.accounts h.tokens i o.token_env.now out)
      ])

  enable-Closed : (b : Option Text) (p : Param) → Ensures (enable_user o b p h) Closed
  unfolding enable_user
  enable-Closed b p = Ensures-bind _ λ caller _. Ensures-bind _ λ i _. Ensures-bind _ λ target _.
      Ensures-ok _ (elim (Bool-cases (is_active_status target.status)) [
        | inl live ↦ rw live out
        | inr gone ↦ rw gone (enabled_out h.accounts h.tokens i out)
      ])

  promote-Closed : (b : Option Text) (p : Param) → Ensures (promote_user o b p h) Closed
  unfolding promote_user
  promote-Closed b p = Ensures-bind _ λ _ _. Ensures-bind _ λ i _. Ensures-bind _ λ target _.
      Ensures-ok _ (elim (Bool-cases target.is_system_admin) [
        | inl had ↦ rw had out
        | inr lacked ↦
            rw lacked
              (same_status i (with_admin true) h.tokens (λ x. refl) (λ x. refl) λ id _. omega arith)
      ])

  demote-Closed : (b : Option Text) (p : Param) → Ensures (demote_user o b p h) Closed
  unfolding demote_user
  demote-Closed b p = Ensures-bind _ λ _ _. Ensures-bind _ λ i _. Ensures-bind _ λ _ _.
      Ensures-bind _ λ target _. Ensures-ok _ (elim (Bool-cases target.is_system_admin) [
        | inr lacked ↦ rw lacked out
        | inl had ↦
            rw had (
              same_status i (with_admin false) h.tokens (λ x. refl) (λ x. refl) λ id _. omega arith)
      ])

  reset-Closed :
      (b : Option Text) (p : Param) (v : Value) → Ensures (reset_password o b p v h) Closed
  unfolding reset_password revoke_all_refresh_tokens_for_user
  reset-Closed b p v = Ensures-bind _ λ _ _. Ensures-bind _ λ i _. Ensures-bind _ λ _ _.
      Ensures-bind _ λ _ _. Ensures-bind _ λ t _. Ensures-ok _ (
        same_status i (with_password (o.bcrypt_hash t)) _ (λ x. refl) (λ x. refl)
          λ id _. sessions-revoke_where (active_of i) o.token_env.now id h.tokens)

kept-Closed : (h : House) (r : Result House) → Closed h → Ensures r Closed → Closed (kept h r)
kept-Closed h (ok k) out sure = sure.at k refl
kept-Closed h (err e) out sure = out

-- Any requests, of anybody and in any order, keep it so that identifiers are unique and that no
-- refresh token of a disabled account is live.
pub serve_all-ShutOut :
    (rs : List (Outside × Request)) (h : House)
    → ShutOut h.accounts h.tokens
    → ShutOut (serve_all h rs).accounts (serve_all h rs).tokens
unfolding serve_all serve
serve_all-ShutOut [] h out = out
serve_all-ShutOut ((o, r) ∷ rs) h out = serve_all-ShutOut rs (serve h (o, r)) (served r)
  where
    served : (r : Request) → Closed (serve h (o, r))
    served (login_request u p) = login_route-Closed o h out u p
    served (refresh_request t) = refresh_route-Closed o h out t
    served (logout_request t) = logout_route-Closed o h out t
    served (change_password_request b u v) =
        kept-Closed h (change_password o b u v h) out (change-Closed o h out b u v)
    served (create_request b u e p d i) =
        kept-Closed h (create_user o b u e p d i h) out (create-Closed o h out b u e p d i)
    served (disable_request b i) =
        kept-Closed h (disable_user o b i h) out (disable-Closed o h out b i)
    served (enable_request b i) =
        kept-Closed h (enable_user o b i h) out (enable-Closed o h out b i)
    served (promote_request b i) =
        kept-Closed h (promote_user o b i h) out (promote-Closed o h out b i)
    served (demote_request b i) =
        kept-Closed h (demote_user o b i h) out (demote-Closed o h out b i)
    served (reset_request b i v) =
        kept-Closed h (reset_password o b i v h) out (reset-Closed o h out b i v)
