-- ===== src/Auth/RefreshTokens.antt =====
-- backend/src/auth/refreshTokens.js: the table of refresh tokens.
pub mod Reuse
mod Examples
use silent_whisper.Prelude.{
  ℕ, ◌+◌, Bool, true, false, not, ◌&&◌, Option, none, some, is_some, List, [], ◌∷◌, ◌++◌, map, ltb,
  ◌==◌, if◌then◌else◌,
}
use silent_whisper.Text.{Text, text_eq}

pub record Row : Type 0 where
  pub id : ℕ
  pub user_id : ℕ
  pub token_hash : Text
  pub expires_at : ℕ
  pub revoked_at : Option ℕ

-- What a call takes from outside: the time, SHA-256, config.auth.refreshTokenTtlMs, and for a new
-- row the random token and the identifier that the database makes.
pub record Env : Type 0 where
  pub now : ℕ
  pub hash_token : Text → Text
  pub refresh_token_ttl_ms : ℕ
  pub raw_token : Text
  pub new_id : ℕ

pub data Rotation : Type 0 where
  invalid expired : Rotation
  reuse : ℕ → Rotation
  rotated : ℕ → Text → Rotation

unfoldable pub issue_refresh_token : Env → ℕ → List Row → List Row
issue_refresh_token e user_id rows =
    rows
    ++ record {
      id = e.new_id;
      user_id = user_id;
      token_hash = e.hash_token e.raw_token;
      expires_at = e.now + e.refresh_token_ttl_ms;
      revoked_at = none;
    }
      ∷ []

-- where({ token_hash }).first()
abbrev pub find_token : Text → List Row → Option Row
find_token h [] = none
find_token h (r ∷ rows) = if text_eq r.token_hash h then some r else find_token h rows

abbrev pub is_active : Row → Bool
is_active r = not (is_some r.revoked_at)

abbrev pub revoked : ℕ → Row → Row
revoked now r = record r { revoked_at = some now }

-- update({ revoked_at }) of the rows that satisfy a condition
abbrev pub revoke_where : (Row → Bool) → ℕ → List Row → List Row
revoke_where p now [] = []
revoke_where p now (r ∷ rows) =
    let rest = revoke_where p now rows in if p r then revoked now r ∷ rest else r ∷ rest

abbrev pub active_of : ℕ → Row → Bool
active_of user_id r = r.user_id == user_id && is_active r

unfoldable pub revoke_all_refresh_tokens_for_user : ℕ → ℕ → List Row → List Row
revoke_all_refresh_tokens_for_user now user_id rows = revoke_where (active_of user_id) now rows

-- The transaction after it has found the row.
abbrev pub rotate_row : Env → List Row → Row → List Row × Rotation
rotate_row e rows r =
    if is_some r.revoked_at
    then (revoke_all_refresh_tokens_for_user e.now r.user_id rows, reuse r.user_id)
    else if ltb r.expires_at e.now
    then (rows, expired)
    else (
      issue_refresh_token e r.user_id (revoke_where (λ s. s.id == r.id) e.now rows),
      rotated r.user_id e.raw_token,
    )

abbrev pub rotate_found : Env → List Row → Option Row → List Row × Rotation
rotate_found e rows none = (rows, invalid)
rotate_found e rows (some r) = rotate_row e rows r

-- The error that a caller sees is thrown after the transaction.
unfoldable pub rotate_refresh_token : Env → Text → List Row → List Row × Rotation
rotate_refresh_token e raw_token rows =
    rotate_found e rows (find_token (e.hash_token raw_token) rows)

abbrev pub active_with : Text → Row → Bool
active_with h r = text_eq r.token_hash h && is_active r

abbrev first_user : (Row → Bool) → List Row → Option ℕ
first_user p [] = none
first_user p (r ∷ rows) = if p r then some r.user_id else first_user p rows

unfoldable pub revoke_refresh_token : Env → Text → List Row → List Row × Option ℕ
revoke_refresh_token e raw_token rows =
    let p = active_with (e.hash_token raw_token) in (revoke_where p e.now rows, first_user p rows)

-- The calls that change the table.
pub data Call : Type 0 where
  issue : ℕ → Call
  rotate : Text → Call
  revoke : Text → Call
  revoke_all : ℕ → Call

unfoldable pub step : List Row → Env × Call → List Row
step rows (e, issue u) = issue_refresh_token e u rows
step rows (e, rotate t) = (rotate_refresh_token e t rows).0
step rows (e, revoke t) = (revoke_refresh_token e t rows).0
step rows (e, revoke_all u) = revoke_all_refresh_tokens_for_user e.now u rows

unfoldable pub run : List Row → List (Env × Call) → List Row
run rows [] = rows
run rows (c ∷ calls) = run (step rows c) calls
