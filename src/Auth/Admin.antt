-- ===== src/Auth/Admin.antt =====
-- backend/src/routes/admin.js: the accounts in the hands of a system administrator.
pub mod Rows
pub mod Remaining
pub mod Shut
pub mod Sessions
pub mod LockedOut
mod Examples
use silent_whisper.Prelude.{
  ℕ, String, Bool, true, false, not, ◌&&◌, ◌||◌, Option, none, some, is_some, List, [], ◌∷◌, ◌++◌,
  ◌==◌, if◌then◌else◌, has,
}
use silent_whisper.Text.{Text, text_eq}
use silent_whisper.Errors.{
  AppError, validation_error, forbidden_error, not_found_error, conflict_error, unhandled_error,
  Result, ok, err, ◌>>=◌, ◌>>◌, throw_if, or_throw,
}
use silent_whisper.Validation.{Param, respelled, Value, is_plain, assert_uuid, assert_username}
use silent_whisper.Authz.Permissions.{org_member}
use silent_whisper.Authz.Database.{OrgMember}
use silent_whisper.Auth.RefreshTokens.{revoke_all_refresh_tokens_for_user}
use silent_whisper.Ws.Registry.{disconnect_user}
use silent_whisper.Auth.Accounts.{
  Account, House, Outside, LogType, LogEntry, active, disabled, find_account, update_account,
  is_active_status, log_entry, require_auth, assert_valid_password, assert_email, display_name_or,
  user_account_created, user_status_change, system_admin_status_change, admin_password_reset, login,
  refresh, logout, change_password,
}

unfoldable pub is_system_admin_user : ℕ → House → Bool
is_system_admin_user id h = elim (find_account id h.accounts) [
  | none ↦ false
  | some a ↦ a.is_system_admin
]

-- requireAuth, and requireSystemAdmin of this file
unfoldable pub require_system_admin : Outside → Option Text → House → Result ℕ
unfolding is_system_admin_user
require_system_admin o bearer h = do
  caller ← require_auth o bearer h
  throw_if (not (is_system_admin_user caller h))
      (forbidden_error "System admin privileges required")
  ok caller

abbrev pub taken : (Text → Text) → Text → Text → List Account → Bool
taken lower username email [] = false
taken lower username email (a ∷ rest) =
    text_eq (lower a.username) (lower username)
    || text_eq a.email email
    || taken lower username email rest

abbrev earliest : List ℕ → Option ℕ
earliest [] = none
earliest (o ∷ os) = some o

abbrev optional_id : Option Param → Result (Option ℕ)
optional_id none = ok none
optional_id (some p) = do id ← assert_uuid p "organizationId must be a valid UUID"; ok (some id)

-- The organization that is asked for, or the earliest one; reading `id` of no row is a TypeError.
abbrev enrolled_in : Option ℕ → List ℕ → Result ℕ
enrolled_in none os = or_throw (earliest os) unhandled_error
enrolled_in (some id) os = do
  throw_if (not (has os id)) (validation_error "No organization with that id exists")
  ok id

-- POST /users; the table refuses an identifier that is there already
unfoldable pub create_user :
    Outside → Option Text → Value → Value → Value → Value → Option Param → House → Result House
create_user o bearer username email password display_name organization h = do
  caller ← require_system_admin o bearer h
  username ← assert_username username
  email ← assert_email email
  password ← assert_valid_password o password
  display_name ← display_name_or username display_name
  requested ← optional_id organization
  throw_if (taken o.lower username email h.accounts)
      (conflict_error "Username or email already in use")
  throw_if (is_some (find_account o.new_id h.accounts)) unhandled_error
  organization_id ← enrolled_in requested h.organizations
  ok (
      log_entry (some caller) user_account_created (some o.new_id) (record h {
        accounts =
            h.accounts
            ++ record {
              id = o.new_id;
              username = username;
              email = email;
              display_name = display_name;
              password_hash = o.bcrypt_hash password;
              status = active;
              is_system_admin = false;
            }
              ∷ [];
        organization_members =
            h.organization_members
            ++ record {
              organization_id = organization_id;
              user_id = o.new_id;
              org_role = org_member;
            }
              ∷ [];
      }))

abbrev pub bad_user_id : String
bad_user_id = "userId must be a valid UUID"

abbrev pub user_not_found : AppError
user_not_found = not_found_error "User not found"

abbrev pub with_status : Bool → Account → Account
with_status b a = record a { status = if b then active else disabled }

abbrev pub with_admin : Bool → Account → Account
with_admin b a = record a { is_system_admin = b }

-- The sockets that `disconnectUser` closes; its map has identifiers as the database prints them.
abbrev pub sockets_of : Outside → Param → ℕ → House → List ℕ
sockets_of o (respelled n) id h = []
sockets_of o p id h = (disconnect_user o.is_open id h.registry).1

-- What disabling an account writes.
abbrev pub shut_out : Outside → Param → ℕ → ℕ → House → House
shut_out o user_param caller id h = log_entry (some caller) user_status_change (some id) (record h {
  accounts = update_account id (with_status false) h.accounts;
  tokens = revoke_all_refresh_tokens_for_user o.token_env.now id h.tokens;
  closing = h.closing ++ sockets_of o user_param id h;
})

-- POST /users/:userId/disable
unfoldable pub disable_user : Outside → Option Text → Param → House → Result House
disable_user o bearer user_param h = do
  caller ← require_system_admin o bearer h
  id ← assert_uuid user_param bad_user_id
  throw_if (is_plain user_param && id == caller)
      (validation_error "Cannot disable your own account")
  target ← or_throw (find_account id h.accounts) user_not_found
  ok (if is_active_status target.status then shut_out o user_param caller id h else h)

-- POST /users/:userId/enable
unfoldable pub enable_user : Outside → Option Text → Param → House → Result House
enable_user o bearer user_param h = do
  caller ← require_system_admin o bearer h
  id ← assert_uuid user_param bad_user_id
  target ← or_throw (find_account id h.accounts) user_not_found
  ok (
      if is_active_status target.status
      then h
      else (log_entry (some caller) user_status_change (some id)
          (record h { accounts = update_account id (with_status true) h.accounts })))

abbrev pub set_admin : ℕ → ℕ → Bool → House → House
set_admin caller id b h =
    log_entry (some caller) system_admin_status_change (some id)
      (record h { accounts = update_account id (with_admin b) h.accounts })

-- POST /users/:userId/promote
unfoldable pub promote_user : Outside → Option Text → Param → House → Result House
promote_user o bearer user_param h = do
  caller ← require_system_admin o bearer h
  id ← assert_uuid user_param bad_user_id
  target ← or_throw (find_account id h.accounts) user_not_found
  ok (if target.is_system_admin then h else set_admin caller id true h)

-- POST /users/:userId/demote
unfoldable pub demote_user : Outside → Option Text → Param → House → Result House
demote_user o bearer user_param h = do
  caller ← require_system_admin o bearer h
  id ← assert_uuid user_param bad_user_id
  throw_if (is_plain user_param && id == caller) (validation_error "Cannot demote your own account")
  target ← or_throw (find_account id h.accounts) user_not_found
  ok (if target.is_system_admin then set_admin caller id false h else h)

abbrev pub with_password : Text → Account → Account
with_password hash a = record a { password_hash = hash }

-- POST /users/:userId/reset-password
unfoldable pub reset_password : Outside → Option Text → Param → Value → House → Result House
reset_password o bearer user_param password h = do
  caller ← require_system_admin o bearer h
  id ← assert_uuid user_param bad_user_id
  target ← or_throw (find_account id h.accounts) user_not_found
  throw_if (is_plain user_param && id == caller)
      (validation_error "Use POST /api/auth/change-password to change your own password")
  password ← assert_valid_password o password
  ok (
      log_entry (some caller) admin_password_reset (some id) (record h {
        accounts = update_account id (with_password (o.bcrypt_hash password)) h.accounts;
        tokens = revoke_all_refresh_tokens_for_user o.token_env.now id h.tokens;
      }))

pub data Request : Type 0 where
  login_request : Value → Value → Request
  refresh_request logout_request : Option Text → Request
  change_password_request : Option Text → Value → Value → Request
  create_request : Option Text → Value → Value → Value → Value → Option Param → Request
  disable_request enable_request promote_request demote_request : Option Text → Param → Request
  reset_request : Option Text → Param → Value → Request

abbrev pub kept : House → Result House → House
kept h (ok h') = h'
kept h (err e) = h

unfoldable pub serve : House → Outside × Request → House
serve h (o, login_request u p) = (login o u p h).0
serve h (o, refresh_request t) = (refresh o t h).0
serve h (o, logout_request t) = logout o t h
serve h (o, change_password_request b u v) = kept h (change_password o b u v h)
serve h (o, create_request b u e p d i) = kept h (create_user o b u e p d i h)
serve h (o, disable_request b i) = kept h (disable_user o b i h)
serve h (o, enable_request b i) = kept h (enable_user o b i h)
serve h (o, promote_request b i) = kept h (promote_user o b i h)
serve h (o, demote_request b i) = kept h (demote_user o b i h)
serve h (o, reset_request b i v) = kept h (reset_password o b i v h)

unfoldable pub serve_all : House → List (Outside × Request) → House
serve_all h [] = h
serve_all h (r ∷ rs) = serve_all (serve h r) rs
