-- ===== src/InvitationLinks/Examples.antt =====
-- A newcomer with the token of an invitation into a workspace.
use silent_whisper.Prelude.{◌≡◌, ◌≢◌, refl, true, false, none, some, [], ◌∷◌, List, update}
use silent_whisper.Text.{codes, text_eq}
use silent_whisper.Errors.{ok, err, Ensures, ◌>>=◌, or_throw, throw_if}
use silent_whisper.Validation.{Value, text, assert_username, is_username}
use silent_whisper.Authz.Permissions.{member}
use silent_whisper.Authz.Database.{Db, discoverable}
use silent_whisper.Invitations.{workspace_scope}
use silent_whisper.Messages.Regex.{match}
use silent_whisper.Auth.Accounts.{Outside, assert_email, assert_valid_password}
use silent_whisper.InvitationLinks.{
  Hall, Link, pending, find_by_hash, enroll, redeem, Request, redeem_request, serve_all,
}
use silent_whisper.InvitationLinks.Spent.{redeemed_once}
use silent_whisper.InvitationLinks.Granted.{IsGood, Gives, OthersKeep, redeem-Gives}

abbrev outside : Outside
outside = record {
  token_env = record {
    now = 100;
    hash_token = λ t. t;
    refresh_token_ttl_ms = 50;
    raw_token = codes "new";
    new_id = 9;
  };
  new_id = 5;
  lower = λ t. t;
  to_lower_case = λ t. t;
  bcrypt_hash = λ t. t;
  bcrypt_compare = text_eq;
  verify_access_token = λ t. none;
  is_open = λ _. true;
}

abbrev tables : Db
tables = record {
  users = [];
  organizations = λ _. none;
  organization_members = [];
  workspaces =
      update (λ _. none) 7
        (some (record {
          name = codes "home";
          owner_id = 1;
          organization_id = 3;
          visibility = discoverable;
          managers_can_archive = false;
          archived_at = none;
          archived_by = none;
        }));
  workspace_members = λ _ _. none;
  channels = λ _. none;
  channel_members = λ _ _. false;
  audit_events = [];
}

abbrev hall : Hall
hall = record {
  tables = tables;
  accounts = [];
  default_organization = some 3;
  tokens = [];
  links =
      record {
        id = 4;
        scope = workspace_scope 7 member;
        invited_by = 1;
        token_hash = codes "tok";
        expires_at = 200;
        link_status = pending;
      }
      ∷ [];
}

abbrev name : Value
name = text (codes "carl")

abbrev address : Value
address = text (codes "c@d.e")

abbrev secret : Value
secret = text (codes "long enough")

abbrev joined : Hall
joined = elim (redeem outside [] (codes "tok") name address secret hall) [ ok h ↦ h | err e ↦ hall ]

carl_joins : redeem outside [] (codes "tok") name address secret hall ≡ ok joined
unfolding redeem enroll assert_username is_username assert_email assert_valid_password match ◌>>=◌
    or_throw throw_if
carl_joins = refl

abbrev again : List (Outside × Request)
again = (outside, redeem_request [] (codes "tok") name address secret) ∷ []

redeemed_once_example :
    redeem outside [] (codes "tok") name address secret (serve_all joined again) ≢ ok joined
redeemed_once_example =
    redeemed_once outside outside [] [] (codes "tok") name name address address secret secret again
      hall joined joined refl carl_joins

redeem-Gives_example : Ensures (redeem outside [] (codes "tok") name address secret hall) (λ h.
    (l : Link) × (find_by_hash (codes "tok") hall.links ≡ some l)
    × IsGood 100 l tables
    × Gives 5 l.scope (some 3) tables h.tables
    × OthersKeep 5 tables h.tables)
redeem-Gives_example = redeem-Gives outside [] (codes "tok") name address secret hall
