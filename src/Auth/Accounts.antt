-- ===== src/Auth/Accounts.antt =====
-- backend/src/auth/requireAuth.js, backend/src/auth/passwordPolicy.js and the routes of
-- backend/src/routes/auth.js that open and close sessions.
use silent_whisper.Prelude.{
  ℕ, String, Bool, true, false, not, ◌&&◌, ◌||◌, Option, none, some, is_some, List, [], ◌∷◌, ◌++◌,
  length, ltb, ◌==◌, if◌then◌else◌,
}
use silent_whisper.Text.{Text, codes, text_eq}
use silent_whisper.Errors.{
  AppError, validation_error, unauthorized_error, Result, ok, err, ◌>>=◌, ◌>>◌, throw_if, or_throw,
}
use silent_whisper.Validation.{Value, text, undefined, is_space, all_chars}
use silent_whisper.Messages.Regex.{Pattern, finish, text_end, one, many, match}
use silent_whisper.Authz.Database.{OrgMember}
use silent_whisper.Ws.Registry.{Registry}
use silent_whisper.Auth.RefreshTokens.{
  Row, Rotation, invalid, expired, reuse, rotated, issue_refresh_token, rotate_refresh_token,
  revoke_refresh_token, revoke_all_refresh_tokens_for_user,
}
use silent_whisper.Auth.RefreshTokens

pub data Status : Type 0 where
  active disabled : Status

-- A row of users.
pub record Account : Type 0 where
  pub id : ℕ
  pub username : Text
  pub email : Text
  pub display_name : Text
  pub password_hash : Text
  pub status : Status
  pub is_system_admin : Bool

pub data LogType : Type 0 where
  auth_login auth_login_failure auth_token_refresh auth_refresh_reuse_detected : LogType
  auth_password_change auth_logout : LogType
  user_account_created user_status_change system_admin_status_change : LogType
  admin_password_reset : LogType

-- A call of `appendAuditEvent`; the anonymous actor is none.
pub record LogEntry : Type 0 where
  pub actor : Option ℕ
  pub type : LogType
  pub target : Option ℕ

-- The tables, the WebSocket registry, and the sockets that were told to close.
pub record House : Type 0 where
  pub accounts : List Account
  pub organizations : List ℕ
  pub organization_members : List OrgMember
  pub tokens : List Row
  pub registry : Registry
  pub closing : List ℕ
  pub log : List LogEntry

-- What a request takes from outside: the time and new tokens, the identifier that the database
-- makes, `lower` of PostgreSQL and JavaScript's `toLowerCase`, bcrypt, the check of access tokens, and which sockets are open.
pub record Outside : Type 0 where
  pub token_env : RefreshTokens.Env
  pub new_id : ℕ
  pub lower : Text → Text
  pub to_lower_case : Text → Text
  pub bcrypt_hash : Text → Text
  pub bcrypt_compare : Text → Text → Bool
  pub verify_access_token : Text → Option ℕ
  pub is_open : ℕ → Bool

-- where({ id }).first()
abbrev pub find_account : ℕ → List Account → Option Account
find_account id [] = none
find_account id (a ∷ rest) = if a.id == id then some a else find_account id rest

-- whereRaw('lower(username) = lower(?)').first()
abbrev pub find_by_name : (Text → Text) → Text → List Account → Option Account
find_by_name lower name [] = none
find_by_name lower name (a ∷ rest) =
    if text_eq (lower a.username) (lower name) then some a else find_by_name lower name rest

-- where({ id }).update(…)
abbrev pub update_account : ℕ → (Account → Account) → List Account → List Account
update_account id f [] = []
update_account id f (a ∷ rest) =
    let updated = update_account id f rest in if a.id == id then f a ∷ updated else a ∷ updated

abbrev pub is_active_status : Status → Bool
is_active_status active = true
is_active_status disabled = false

abbrev pub log_entry : Option ℕ → LogType → Option ℕ → House → House
log_entry actor type target h = record h {
  log = h.log ++ record { actor = actor; type = type; target = target } ∷ [];
}

abbrev pub invalid_token : AppError
invalid_token = unauthorized_error "Invalid or expired access token"

-- The bearer token is none where the header has none.
unfoldable pub require_auth : Outside → Option Text → House → Result ℕ
require_auth o bearer h = do
  token ← or_throw bearer (unauthorized_error "Missing bearer token")
  user_id ← or_throw (o.verify_access_token token) invalid_token
  user ← or_throw (find_account user_id h.accounts) invalid_token
  throw_if (not (is_active_status user.status)) invalid_token
  ok user_id

-- COMMON_PASSWORDS
abbrev pub common_passwords : List Text
common_passwords =
    codes "password"
    ∷ codes "password1"
    ∷ codes "password123"
    ∷ codes "123456"
    ∷ codes "123456789"
    ∷ codes "12345678"
    ∷ codes "qwerty"
    ∷ codes "qwerty123"
    ∷ codes "letmein"
    ∷ codes "welcome"
    ∷ codes "welcome1"
    ∷ codes "admin"
    ∷ codes "admin123"
    ∷ codes "iloveyou"
    ∷ codes "monkey"
    ∷ codes "dragon"
    ∷ codes "sunshine"
    ∷ codes "princess"
    ∷ codes "football"
    ∷ codes "baseball"
    ∷ codes "trustno1"
    ∷ codes "abc123"
    ∷ codes "abcd1234"
    ∷ codes "1q2w3e4r"
    ∷ codes "passw0rd"
    ∷ codes "superman"
    ∷ codes "starwars"
    ∷ codes "whatever"
    ∷ codes "freedom"
    ∷ codes "letmein123"
    ∷ []

abbrev among : Text → List Text → Bool
among t [] = false
among t (s ∷ ss) = text_eq s t || among t ss

unfoldable pub assert_valid_password : Outside → Value → Result Text
assert_valid_password o (text p) =
    if ltb (length p) 10
    then err (validation_error "Password must be at least 10 characters.")
    else if among (o.to_lower_case p) common_passwords
    then err (validation_error "That password is too common. Please choose a different one.")
    else ok p
assert_valid_password o _ = err (validation_error "Password must be at least 10 characters.")

abbrev in_address : ℕ → Bool
in_address c = not (is_space c) && not (c == b'@')

abbrev parts : Pattern → Pattern
parts p = one none in_address (many none in_address p)

-- EMAIL_RE
abbrev pub email_re : Pattern
email_re =
    parts (one none (λ c. c == b'@') (parts (one none (λ c. c == b'.') (parts (text_end finish)))))

unfoldable pub assert_email : Value → Result Text
assert_email (text t) =
    if not (is_some (match email_re t)) || ltb 255 (length t)
    then err (validation_error "email must be a valid email address")
    else ok t
assert_email _ = err (validation_error "email must be a valid email address")

-- An account's own name, or the one that is asked for.
unfoldable pub display_name_or : Text → Value → Result Text
display_name_or username undefined = ok username
display_name_or username (text t) =
    if all_chars is_space t || ltb 100 (length t)
    then err (validation_error "displayName must be 1-100 characters")
    else ok t
display_name_or username _ = err (validation_error "displayName must be 1-100 characters")

abbrev pub bad_credentials : AppError
bad_credentials = unauthorized_error "Invalid username or password"

abbrev pub bad_refresh : AppError
bad_refresh = unauthorized_error "Invalid refresh token"

abbrev pub failed_login : Option ℕ → House → House × Result ℕ
failed_login actor h = (log_entry actor auth_login_failure none h, err bad_credentials)

-- A session for a user whose password was right.
abbrev pub open_session : Outside → ℕ → Status → House → House × Result ℕ
open_session o id disabled h = failed_login (some id) h
open_session o id active h = (
  log_entry (some id) auth_login none
      (record h { tokens = issue_refresh_token o.token_env id h.tokens }),
  ok id,
)

abbrev pub login_found : Outside → Text → Option Account → House → House × Result ℕ
login_found o password none h = failed_login none h
login_found o password (some user) h =
    let opened = open_session o user.id user.status h in
    if o.bcrypt_compare password user.password_hash then opened else failed_login (some user.id) h

-- POST /login; the second part is the user that the access token and the cookie are for
unfoldable pub login : Outside → Value → Value → House → House × Result ℕ
login o (text username) (text password) h =
    login_found o password (find_by_name o.lower username h.accounts) h
login o _ _ h = (h, err (validation_error "username and password are required"))

abbrev pub active_account : Option Account → Bool
active_account none = false
active_account (some a) = is_active_status a.status

-- The route after the rotation.
abbrev pub after_rotation : Outside → List Row → Rotation → House → House × Result ℕ
after_rotation o rows invalid h = (record h { tokens = rows }, err bad_refresh)
after_rotation o rows expired h =
    (record h { tokens = rows }, err (unauthorized_error "Refresh token expired"))
after_rotation o rows (reuse user_id) h = (
  log_entry (some user_id) auth_refresh_reuse_detected none (record h { tokens = rows }),
  err bad_refresh,
)
after_rotation o rows (rotated user_id raw) h =
    if active_account (find_account user_id h.accounts)
    then (log_entry (some user_id) auth_token_refresh none (record h { tokens = rows }), ok user_id)
    else (
      record h { tokens = revoke_all_refresh_tokens_for_user o.token_env.now user_id rows },
      err bad_refresh,
    )

-- POST /refresh, with the cookie
unfoldable pub refresh : Outside → Option Text → House → House × Result ℕ
refresh o none h = (h, err (unauthorized_error "Missing refresh token"))
refresh o (some raw) h =
    let (rows, outcome) = rotate_refresh_token o.token_env raw h.tokens in
    after_rotation o rows outcome h

abbrev pub logged_out : Option ℕ → House → House
logged_out none h = h
logged_out (some user_id) h = log_entry (some user_id) auth_logout none h

-- POST /logout
unfoldable pub logout : Outside → Option Text → House → House
logout o none h = h
logout o (some raw) h =
    let (rows, user_id) = revoke_refresh_token o.token_env raw h.tokens in
    logged_out user_id (record h { tokens = rows })

abbrev pub assert_text : Value → String → Result Text
assert_text (text t) message = ok t
assert_text _ message = err (validation_error message)

-- POST /change-password
unfoldable pub change_password : Outside → Option Text → Value → Value → House → Result House
change_password o bearer current new h = do
  user_id ← require_auth o bearer h
  current ← assert_text current "currentPassword is required"
  user ← or_throw (find_account user_id h.accounts) (unauthorized_error "User no longer exists")
  throw_if (not (o.bcrypt_compare current user.password_hash))
      (unauthorized_error "Current password is incorrect")
  password ← assert_valid_password o new
  ok (
      log_entry (some user_id) auth_password_change none (record h {
        accounts =
            update_account user_id (λ a. record a { password_hash = o.bcrypt_hash password })
              h.accounts;
        tokens =
            issue_refresh_token o.token_env user_id
              (revoke_all_refresh_tokens_for_user o.token_env.now user_id h.tokens);
      }))
