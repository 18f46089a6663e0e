-- ===== src/Auth/Admin/LockedOut.antt =====
-- The ways in for a disabled account (backend/src/auth, routes/auth.js, ws/server.js).
use silent_whisper.Prelude.{
  ℕ, ◌≡◌, refl, subst, ap, true, false, none, some, is_some, List, [], ◌∷◌, arith, ==_refl,
  Bool-cases, inl, inr,
}
use silent_whisper.Text.{Text, text_eq}
use silent_whisper.Errors.{err, ◌>>=◌, or_throw, throw_if}
use silent_whisper.Validation.{text}
use silent_whisper.Auth.RefreshTokens.{Row, find_token, rotate_refresh_token}
use silent_whisper.Auth.RefreshTokens.Reuse.{sessions}
use silent_whisper.Auth.Accounts.{
  Account, House, Outside, is_active_status, find_account, find_by_name, invalid_token,
  bad_credentials, bad_refresh, require_auth, Status, active, disabled, open_session, login,
  refresh,
}
use silent_whisper.Auth.Admin.Shut.{ShutOut}
use silent_whisper.Ws.Session.{Server, Config, close, claimed_user, handle_authenticate}

row_injective : {a b : Row} → some a ≡ some b → a ≡ b
row_injective e = cc

-- A token that is found is revoked, where its user has no session.
spent :
    (t : Text) (rows : List Row) (r : Row)
    → find_token t rows ≡ some r
    → sessions r.user_id rows ≡ 0
    → is_some r.revoked_at ≡ true
spent t [] r found no_session = absurd (cc)
spent t (x ∷ rows) r found no_session = elim (Bool-cases (text_eq x.token_hash t)) [
  | inl hit ↦
      let same : x ≡ r = row_injective (ground (arith, hit, found)) in
      let none_here : sessions r.user_id (r ∷ rows) ≡ 0 =
        subst (λ y. sessions r.user_id (y ∷ rows) ≡ 0) same no_session in
      ground (arith, none_here, ==_refl r.user_id)
  | inr missed ↦ spent t rows r (ground (arith, missed, found)) (ground (arith, no_session))
]

refused_session :
    (o : Outside) (i : ℕ) (s : Status) (h : House)
    → is_active_status s ≡ false
    → (open_session o i s h).1 ≡ err bad_credentials
refused_session o i active h gone = absurd (cc)
refused_session o i disabled h gone = refl

refused_claim :
    (o : Outside) (h : House) (a : Account) (bearer : Text)
    → find_account a.id h.accounts ≡ some a
    → is_active_status a.status ≡ false
    → o.verify_access_token bearer ≡ some a.id
    → claimed_user o bearer h ≡ none
unfolding claimed_user
refused_claim o h a bearer found gone token = ground (arith, token, found, gone)

-- While an account is disabled, an access token of it is refused, so is a login with its name,
-- whether the password is right or not, and so is a refresh with any of its tokens; and a WebSocket
-- that presents an access token of it is closed, with no other change of the server.
pub disabled_is_locked_out :
    (o : Outside) (h : House) (a : Account) (bearer name password raw : Text) (r : Row) (c : Config)
    (now ws : ℕ) (s : Server)
    → ShutOut h.accounts h.tokens
    → find_account a.id h.accounts ≡ some a
    → is_active_status a.status ≡ false
    → o.verify_access_token bearer ≡ some a.id
    → find_by_name o.lower name h.accounts ≡ some a
    → find_token (o.token_env.hash_token raw) h.tokens ≡ some r
    → r.user_id ≡ a.id
    → (require_auth o (some bearer) h ≡ err invalid_token)
      × ((login o (text name) (text password) h).1 ≡ err bad_credentials)
      × ((refresh o (some raw) h).1 ≡ err bad_refresh)
      × (handle_authenticate c now ws (claimed_user o bearer h) s ≡ close ws s)
unfolding require_auth ◌>>=◌ or_throw throw_if login refresh rotate_refresh_token
    handle_authenticate
disabled_is_locked_out o h a bearer name password raw r c now ws s out found gone token named
      has_row its =
    let shut : sessions r.user_id h.tokens ≡ 0 =
      rw its (out.ended a.id (ground (arith, found, gone))) in
    let old = spent (o.token_env.hash_token raw) h.tokens r has_row shut in
    (
      rw (token, found, gone) refl,
      rw named (elim (Bool-cases (o.bcrypt_compare password a.password_hash)) [
        | inl right ↦ rw right (refused_session o a.id a.status h gone)
        | inr wrong ↦ rw wrong refl
      ]),
      rw (has_row, old) refl,
      ap (λ u. handle_authenticate c now ws u s) (refused_claim o h a bearer found gone token),
    )
