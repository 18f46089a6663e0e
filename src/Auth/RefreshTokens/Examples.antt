-- ===== src/Auth/RefreshTokens/Examples.antt =====
-- A user's token, rotated and presented again.
use silent_whisper.Prelude.{◌≡◌, refl, true, none, some, List, [], ◌∷◌}
use silent_whisper.Text.{codes}
use silent_whisper.Auth.RefreshTokens.{Row, Env, issue, revoke, reuse, rotate_refresh_token, run}
use silent_whisper.Auth.RefreshTokens.Reuse.{
  is_reuse, is_rotated, sessions, rotated_once, reuse_ends_all_sessions,
}

-- The toy hash puts a mark before the token.
abbrev env : Env
env = record {
  now = 100;
  hash_token = λ t. b'#' ∷ t;
  refresh_token_ttl_ms = 50;
  raw_token = codes "two";
  new_id = 2;
}

abbrev table : List Row
table =
    record { id = 1; user_id = 7; token_hash = codes "#one"; expires_at = 120; revoked_at = none }
    ∷ []

abbrev spent_table : List Row
spent_table =
    record {
      id = 1;
      user_id = 7;
      token_hash = codes "#one";
      expires_at = 120;
      revoked_at = some 90;
    }
    ∷ record { id = 2; user_id = 7; token_hash = codes "#two"; expires_at = 150; revoked_at = none }
    ∷ []

one_is_rotated : is_rotated (rotate_refresh_token env (codes "one") table).1 ≡ true
unfolding rotate_refresh_token
one_is_rotated = refl

rotated_once_example :
    is_reuse
      (rotate_refresh_token env (codes "one") (
        run
          (rotate_refresh_token env (codes "one") table).0
          ((env, issue 7) ∷ (env, revoke (codes "two")) ∷ []))).1
    ≡ true
rotated_once_example =
    rotated_once env env (codes "one") table ((env, issue 7) ∷ (env, revoke (codes "two")) ∷ [])
      one_is_rotated refl

one_is_reused : (rotate_refresh_token env (codes "one") spent_table).1 ≡ reuse 7
unfolding rotate_refresh_token
one_is_reused = refl

reuse_ends_all_sessions_example :
    sessions 7 (rotate_refresh_token env (codes "one") spent_table).0 ≡ 0
reuse_ends_all_sessions_example =
    reuse_ends_all_sessions env (codes "one") spent_table 7 one_is_reused
