-- ===== src/Auth/Admin/Remaining.antt =====
-- Which system administrators are left (backend/src/routes/admin.js).
use silent_whisper.Prelude.{
  ℕ, ◌≡◌, refl, Bool, true, false, ◌&&◌, Option, none, some, List, [], ◌∷◌, arith, ◌==◌, Bool-cases,
  inl, inr,
}
use silent_whisper.Text.{Text}
use silent_whisper.Errors.{
  AppError, Result, ok, err, Ensures, Ensures-bind, Ensures-ok, throw_if, throw_if-false,
}
use silent_whisper.Validation.{Param, Value, text, is_plain}
use silent_whisper.Auth.RefreshTokens.{
  Row, Rotation, invalid, expired, reuse, rotated, rotate_refresh_token, revoke_refresh_token,
}
use silent_whisper.Auth.Accounts.{
  Account, House, Outside, Status, is_active_status, active, disabled, active_account, find_account,
  find_by_name, update_account, open_session, login_found, login, after_rotation, refresh,
  logged_out, logout, change_password,
}
use silent_whisper.Auth.Admin.{
  with_status, with_admin, with_password, create_user, disable_user, enable_user, promote_user,
  demote_user, reset_password, Request, login_request, refresh_request, logout_request,
  change_password_request, create_request, disable_request, enable_request, promote_request,
  demote_request, reset_request, kept, serve, serve_all,
}
use silent_whisper.Auth.Admin.Rows.{find-append, find-update, require_system_admin-active}

abbrev pub can_administer : Account → Bool
can_administer a = is_active_status a.status && a.is_system_admin

-- Some account is active and of a system administrator.
abbrev pub AdminIn : List Account → Type 0
AdminIn xs = (id : ℕ) × (a : Account) × (find_account id xs ≡ some a) × (can_administer a ≡ true)

abbrev pub AdminLeft : House → Type 0
AdminLeft h = AdminIn h.accounts

abbrev KeepsId : (Account → Account) → Type 0
KeepsId f = (a : Account) → (f a).id ≡ a.id

-- A write to another account leaves this one.
other_left :
    (xs : List Account) (id i : ℕ) (f : Account → Account) (a : Account)
    → KeepsId f
    → find_account id xs ≡ some a
    → can_administer a ≡ true
    → (i == id) ≡ false
    → AdminIn (update_account i f xs)
other_left xs id i f a same found can other =
    (id, a, rw (find-update id i f xs same, other) found, can)

-- A write that takes no rights leaves an administrator.
raised_left :
    (xs : List Account) (i : ℕ) (f : Account → Account)
    → KeepsId f
    → ((a : Account) → can_administer a ≡ true → can_administer (f a) ≡ true)
    → AdminIn xs
    → AdminIn (update_account i f xs)
raised_left xs i f same raises (id, a, found, can) = elim (Bool-cases (i == id)) [
  | inr other ↦ other_left xs id i f a same found can other
  | inl this ↦ (id, f a, rw (find-update id i f xs same, this, found) refl, raises a can)
]

-- The check of the own account, for a parameter in the spelling of the database.
other_account :
    (p : Param) (i caller : ℕ) (e : AppError) {x : Unit {0}}
    → is_plain p ≡ true
    → throw_if (is_plain p && i == caller) e ≡ ok x
    → (i == caller) ≡ false
other_account p i caller e plain passed = let off = throw_if-false _ _ passed in ground (arith, off)

module _ (o : Outside) (h : House) (left : AdminLeft h) where
  create-AdminLeft :
      (b : Option Text) (u e p d : Value) (i : Option Param)
      → Ensures (create_user o b u e p d i h) AdminLeft
  unfolding create_user
  create-AdminLeft b u e p d i = Ensures-bind _ λ _ _. Ensures-bind _ λ _ _. Ensures-bind _ λ _ _.
      Ensures-bind _ λ _ _. Ensures-bind _ λ _ _. Ensures-bind _ λ _ _. Ensures-bind _ λ _ _.
        Ensures-bind _ λ _ _. Ensures-bind _ λ _ _.
          let (id, a, found, can) = left in
          Ensures-ok _ (id, a, rw (find-append id h.accounts _, found) refl, can)

  disable-AdminLeft :
      (b : Option Text) (p : Param) → is_plain p ≡ true → Ensures (disable_user o b p h) AdminLeft
  unfolding disable_user
  disable-AdminLeft b p plain = Ensures-bind _ λ caller admin. Ensures-bind _ λ i _.
      Ensures-bind _ λ _ other. Ensures-bind _ λ target _.
        let (a, found, can) = (require_system_admin-active o b h).at caller admin in
        Ensures-ok _ (elim (Bool-cases (is_active_status target.status)) [
          | inr gone ↦ rw gone left
          | inl live ↦ rw live (
              other_left h.accounts caller i (with_status false) a (λ x. refl) found can
                (other_account p i caller _ plain other))
        ])

  enable-AdminLeft : (b : Option Text) (p : Param) → Ensures (enable_user o b p h) AdminLeft
  unfolding enable_user
  enable-AdminLeft b p = Ensures-bind _ λ caller _. Ensures-bind _ λ i _. Ensures-bind _ λ target _.
      Ensures-ok _ (elim (Bool-cases (is_active_status target.status)) [
        | inl live ↦ rw live left
        | inr gone ↦ rw gone (
            raised_left h.accounts i (with_status true) (λ x. refl) (λ x can. ground (arith, can))
              left)
      ])

  promote-AdminLeft : (b : Option Text) (p : Param) → Ensures (promote_user o b p h) AdminLeft
  unfolding promote_user
  promote-AdminLeft b p = Ensures-bind _ λ caller _. Ensures-bind _ λ i _.
      Ensures-bind _ λ target _. Ensures-ok _ (elim (Bool-cases target.is_system_admin) [
        | inl had ↦ rw had left
        | inr lacked ↦ rw lacked (
            raised_left h.accounts i (with_admin true) (λ x. refl) (λ x can. ground (arith, can))
              left)
      ])

  demote-AdminLeft :
      (b : Option Text) (p : Param) → is_plain p ≡ true → Ensures (demote_user o b p h) AdminLeft
  unfolding demote_user
  demote-AdminLeft b p plain = Ensures-bind _ λ caller admin. Ensures-bind _ λ i _.
      Ensures-bind _ λ _ other. Ensures-bind _ λ target _.
        let (a, found, can) = (require_system_admin-active o b h).at caller admin in
        Ensures-ok _ (elim (Bool-cases target.is_system_admin) [
          | inr lacked ↦ rw lacked left
          | inl had ↦ rw had (
              other_left h.accounts caller i (with_admin false) a (λ x. refl) found can
                (other_account p i caller _ plain other))
        ])

  reset-AdminLeft :
      (b : Option Text) (p : Param) (v : Value) → Ensures (reset_password o b p v h) AdminLeft
  unfolding reset_password
  reset-AdminLeft b p v = Ensures-bind _ λ caller _. Ensures-bind _ λ i _. Ensures-bind _ λ _ _.
      Ensures-bind _ λ _ _. Ensures-bind _ λ t _.
        Ensures-ok _ (
          raised_left h.accounts i (with_password (o.bcrypt_hash t)) (λ x. refl) (λ x can. can)
            left)

  change-AdminLeft : (b : Option Text) (u v : Value) → Ensures (change_password o b u v h) AdminLeft
  unfolding change_password
  change-AdminLeft b u v = Ensures-bind _ λ i _. Ensures-bind _ λ _ _. Ensures-bind _ λ _ _.
      Ensures-bind _ λ _ _. Ensures-bind _ λ t _.
        Ensures-ok _ (
          raised_left h.accounts i (with_password (o.bcrypt_hash t)) (λ x. refl) (λ x can. can)
            left)

kept-AdminLeft :
    (h : House) (r : Result House) → AdminLeft h → Ensures r AdminLeft → AdminLeft (kept h r)
kept-AdminLeft h (ok k) left sure = sure.at k refl
kept-AdminLeft h (err e) left sure = left

-- Logging in and refreshing write no account.
session-accounts :
    (o : Outside) (i : ℕ) (s : Status) (h : House) → (open_session o i s h).0.accounts ≡ h.accounts
session-accounts o i active h = refl
session-accounts o i disabled h = refl

pub login-accounts :
    (o : Outside) (t : Text) (m : Option Account) (h : House)
    → (login_found o t m h).0.accounts ≡ h.accounts
login-accounts o t none h = refl
login-accounts o t (some a) h = elim (Bool-cases (o.bcrypt_compare t a.password_hash)) [
  | inl right ↦ rw right (session-accounts o a.id a.status h)
  | inr wrong ↦ rw wrong refl
]

pub rotation-accounts :
    (o : Outside) (rows : List Row) (r : Rotation) (h : House)
    → (after_rotation o rows r h).0.accounts ≡ h.accounts
rotation-accounts o rows invalid h = refl
rotation-accounts o rows expired h = refl
rotation-accounts o rows (reuse u) h = refl
rotation-accounts o rows (rotated u t) h =
    elim (Bool-cases (active_account (find_account u h.accounts))) [
      | inl live ↦ rw live refl
      | inr gone ↦ rw gone refl
    ]

pub login_route-accounts :
    (o : Outside) (u p : Value) (h : House) → (login o u p h).0.accounts ≡ h.accounts
unfolding login
login_route-accounts o (text u) (text p) h =
    login-accounts o p (find_by_name o.lower u h.accounts) h
login_route-accounts o u p h = refl

pub refresh_route-accounts :
    (o : Outside) (t : Option Text) (h : House) → (refresh o t h).0.accounts ≡ h.accounts
unfolding refresh
refresh_route-accounts o none h = refl
refresh_route-accounts o (some t) h =
    let turn = rotate_refresh_token o.token_env t h.tokens in rotation-accounts o turn.0 turn.1 h

pub logout_route-accounts :
    (o : Outside) (t : Option Text) (h : House) → (logout o t h).accounts ≡ h.accounts
unfolding logout
logout_route-accounts o none h = refl
logout_route-accounts o (some t) h =
    let turn = revoke_refresh_token o.token_env t h.tokens in
    ended turn.1 (record h { tokens = turn.0 })
  where
    ended : (u : Option ℕ) (k : House) → (logged_out u k).accounts ≡ k.accounts
    ended none k = refl
    ended (some u) k = refl

-- Whether a request that may take an administrator away spells the account as the database does.
abbrev pub spells_plainly : Request → Bool
spells_plainly (disable_request b p) = is_plain p
spells_plainly (demote_request b p) = is_plain p
spells_plainly _ = true

abbrev pub all_plain : List (Outside × Request) → Bool
all_plain [] = true
all_plain ((o, r) ∷ rs) = spells_plainly r && all_plain rs

-- Requests of anybody and in any order leave an active account of a system administrator where
-- there was one, as long as no request to disable or demote an account has its identifier in
-- another spelling than the database.
pub serve_all-AdminLeft :
    (rs : List (Outside × Request)) (h : House)
    → all_plain rs ≡ true
    → AdminLeft h
    → AdminLeft (serve_all h rs)
unfolding serve_all serve
serve_all-AdminLeft [] h plain left = left
serve_all-AdminLeft ((o, r) ∷ rs) h plain left =
    serve_all-AdminLeft rs (serve h (o, r)) (ground (arith, plain))
      (served r (ground (arith, plain)))
  where
    served : (r : Request) → spells_plainly r ≡ true → AdminLeft (serve h (o, r))
    served (login_request u p) spelt = rw (login_route-accounts o u p h) left
    served (refresh_request t) spelt = rw (refresh_route-accounts o t h) left
    served (logout_request t) spelt = rw (logout_route-accounts o t h) left
    served (change_password_request b u v) spelt =
        kept-AdminLeft h (change_password o b u v h) left (change-AdminLeft o h left b u v)
    served (create_request b u e p d i) spelt =
        kept-AdminLeft h (create_user o b u e p d i h) left (create-AdminLeft o h left b u e p d i)
    served (disable_request b i) spelt =
        kept-AdminLeft h (disable_user o b i h) left (disable-AdminLeft o h left b i spelt)
    served (enable_request b i) spelt =
        kept-AdminLeft h (enable_user o b i h) left (enable-AdminLeft o h left b i)
    served (promote_request b i) spelt =
        kept-AdminLeft h (promote_user o b i h) left (promote-AdminLeft o h left b i)
    served (demote_request b i) spelt =
        kept-AdminLeft h (demote_user o b i h) left (demote-AdminLeft o h left b i spelt)
    served (reset_request b i v) spelt =
        kept-AdminLeft h (reset_password o b i v h) left (reset-AdminLeft o h left b i v)
