-- ===== src/Auth/Admin/Examples.antt =====
-- Two administrators, of whom one disables the other.
use silent_whisper.Prelude.{◌≡◌, refl, true, false, none, some, [], ◌∷◌, arith}
use silent_whisper.Text.{codes, text_eq}
use silent_whisper.Errors.{err, ◌>>=◌, or_throw, throw_if}
use silent_whisper.Validation.{uuid, respelled, text, assert_uuid}
use silent_whisper.Auth.RefreshTokens.{Row}
use silent_whisper.Auth.Accounts.{
  Account, House, Outside, active, disabled, invalid_token, bad_credentials, bad_refresh,
  require_auth, login, refresh,
}
use silent_whisper.Auth.Admin.{
  Request, disable_request, demote_request, is_system_admin_user, require_system_admin,
  disable_user, demote_user, serve, serve_all,
}
use silent_whisper.Auth.Admin.Remaining.{AdminLeft, serve_all-AdminLeft}
use silent_whisper.Auth.Admin.Shut.{ShutOut}
use silent_whisper.Auth.Admin.Sessions.{serve_all-ShutOut}
use silent_whisper.Auth.Admin.LockedOut.{disabled_is_locked_out}
use silent_whisper.Ws.Registry.{disconnect_user}
use silent_whisper.Ws.Session.{Config, start, close, claimed_user, handle_authenticate}

-- An access token is here the user's identifier.
abbrev outside : Outside
outside = record {
  token_env = record {
    now = 100;
    hash_token = λ t. t;
    refresh_token_ttl_ms = 50;
    raw_token = codes "new";
    new_id = 9;
  };
  new_id = 5;
  lower = λ t. t;
  to_lower_case = λ t. t;
  bcrypt_hash = λ t. t;
  bcrypt_compare = text_eq;
  verify_access_token = λ t. elim t [ [] ↦ none | n ∷ rest ↦ some n ];
  is_open = λ _. true;
}

abbrev ann : Account
ann = record {
  id = 1;
  username = codes "ann";
  email = codes "a@b.c";
  display_name = codes "Ann";
  password_hash = codes "secret";
  status = active;
  is_system_admin = true;
}

abbrev bob : Account
bob = record ann { id = 2; username = codes "bob"; email = codes "b@b.c" }

abbrev token : Row
token = record {
  id = 3;
  user_id = 2;
  token_hash = codes "tok";
  expires_at = 200;
  revoked_at = none;
}

abbrev house : House
house = record {
  accounts = ann ∷ bob ∷ [];
  organizations = [];
  organization_members = [];
  tokens = token ∷ [];
  registry = record {
    user_connections = (2, 7 ∷ []) ∷ [];
    channel_rooms = [];
    joined_channels = λ _. [];
  };
  closing = [];
  log = [];
}

abbrev shut_bob : Outside × Request
shut_bob = (outside, disable_request (some (1 ∷ [])) (uuid 2))

disabling_closes_sockets : (serve_all house (shut_bob ∷ [])).closing ≡ 7 ∷ []
unfolding serve_all serve disable_user require_system_admin is_system_admin_user require_auth
    assert_uuid disconnect_user ◌>>=◌ or_throw throw_if
disabling_closes_sockets = refl

serve_all-AdminLeft_example :
    AdminLeft (serve_all house (shut_bob ∷ (outside, demote_request (some (2 ∷ [])) (uuid 1)) ∷ []))
serve_all-AdminLeft_example =
    serve_all-AdminLeft (shut_bob ∷ (outside, demote_request (some (2 ∷ [])) (uuid 1)) ∷ []) house
      refl (1, ann, refl, refl)

-- Ann, who is left alone, demotes herself, by her identifier in upper case.
respelled_demotes_oneself :
    (serve_all house
      (shut_bob ∷ (outside, demote_request (some (1 ∷ [])) (respelled 1)) ∷ [])).accounts
    ≡ record ann { is_system_admin = false } ∷ record bob { status = disabled } ∷ []
unfolding serve_all serve disable_user demote_user require_system_admin is_system_admin_user
    require_auth assert_uuid disconnect_user ◌>>=◌ or_throw throw_if
respelled_demotes_oneself = refl

house-ShutOut : ShutOut (ann ∷ bob ∷ []) (token ∷ [])
house-ShutOut = record { unique = refl; ended = λ id gone. absurd (ground (arith, gone)) }

serve_all-ShutOut_example :
    ShutOut (serve_all house (shut_bob ∷ [])).accounts (serve_all house (shut_bob ∷ [])).tokens
serve_all-ShutOut_example = serve_all-ShutOut (shut_bob ∷ []) house house-ShutOut

abbrev config : Config
config = record {
  limits = record { message_window_ms = 1000; max_messages_per_window = 2 };
  max_connections_per_user = 3;
}

abbrev bob_out : Account
bob_out = record bob { status = disabled }

abbrev old_token : Row
old_token = record token { revoked_at = some 100 }

abbrev house_without_bob : House
house_without_bob = record house { accounts = ann ∷ bob_out ∷ []; tokens = old_token ∷ [] }

disabled_is_locked_out_example :
    (require_auth outside (some (2 ∷ [])) house_without_bob ≡ err invalid_token)
    × ((login outside (text (codes "bob")) (text (codes "secret")) house_without_bob).1
        ≡ err bad_credentials)
    × ((refresh outside (some (codes "tok")) house_without_bob).1 ≡ err bad_refresh)
    × (handle_authenticate config 100 7 (claimed_user outside (2 ∷ []) house_without_bob) start
        ≡ close 7 start)
disabled_is_locked_out_example =
    disabled_is_locked_out outside house_without_bob bob_out (2 ∷ []) (codes "bob") (codes "secret")
      (codes "tok") old_token config 100 7 start
      (record { unique = refl; ended = λ id gone. ground (arith) }) refl refl refl refl refl refl
