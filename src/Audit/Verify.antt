-- ===== src/Audit/Verify.antt =====
-- `verifyAuditChain` of backend/src/audit/auditService.js, and the check of
-- scripts/verify-audit-log.mjs, which reads all rows at once.
pub mod Append
pub mod Tamper
pub mod Pages
pub mod History
mod Examples
use silent_whisper.Prelude.{
  ℕ, zero, suc, ◌+◌, Option, none, some, List, [], ◌∷◌, length, take, ltb, if◌then◌else◌,
}
use silent_whisper.Text.{Text, text_eq}
use silent_whisper.Audit.Chain.{Platform, Row, Log, genesis_hash, compute_row_hash}

pub data Reason : Type 0 where
  prev_mismatch hash_mismatch : Reason

-- The end of the loop over some rows: the hash that the next row has to name, or a failure.
pub data Outcome : Type 0 where
  passed : Text → Outcome
  failed : ℕ → Reason → Outcome

-- The loop body that both programs share.
unfoldable pub check_rows : Platform → Text → List Row → Outcome
check_rows p expected [] = passed expected
check_rows p expected (r ∷ rs) =
    let rest = check_rows p r.curr_row_hash rs in
    if text_eq r.prev_row_hash expected
    then (if text_eq (compute_row_hash p r.prev_row_hash r.event) r.curr_row_hash
        then rest
        else failed r.id hash_mismatch)
    else failed r.id prev_mismatch

-- scripts/verify-audit-log.mjs
unfoldable pub verify_all : Platform → Log → Outcome
verify_all p log = check_rows p genesis_hash log.rows

-- where id > last_id
unfoldable pub newer : ℕ → List Row → List Row
newer last_id [] = []
newer last_id (r ∷ rs) = let rest = newer last_id rs in if ltb last_id r.id then r ∷ rest else rest

-- rows[rows.length - 1].id
unfoldable pub last_id_of : ℕ → List Row → ℕ
last_id_of d [] = d
last_id_of d (r ∷ rs) = last_id_of r.id rs

-- The result object; `rowsChecked` counts the whole page in which a failure lies.
pub data Verdict : Type 0 where
  verified : ℕ → Verdict
  broken : ℕ → ℕ → Reason → Verdict
  out_of_fuel : Verdict

-- What a page's outcome means; the last argument is the next round of the loop.
abbrev pub after_page : ℕ → ℕ → List Row → Outcome → (Text → Verdict) → Verdict
after_page batch_size checked page (failed i reason) next = broken checked i reason
after_page batch_size checked page (passed h) next =
    if ltb (length page) batch_size then verified checked else next h

abbrev pub read_page : ℕ → ℕ → List Row → List Row
read_page batch_size last_id rows = take batch_size (newer last_id rows)

-- A round of the loop over its page.
unfoldable pub on_page : Platform → ℕ → Text → ℕ → ℕ → (Text → ℕ → ℕ → Verdict) → List Row → Verdict
on_page p batch_size expected last_id checked next [] = verified checked
on_page p batch_size expected last_id checked next (r ∷ rs) =
    let checked' = checked + length (r ∷ rs) in
    after_page batch_size checked' (r ∷ rs) (check_rows p expected (r ∷ rs))
      (λ h. next h (last_id_of last_id (r ∷ rs)) checked')

unfoldable pub verify_pages : Platform → ℕ → ℕ → List Row → Text → ℕ → ℕ → Verdict
unfolding on_page
verify_pages p batch_size zero rows expected last_id checked = out_of_fuel
verify_pages p batch_size (suc fuel) rows expected last_id checked =
    on_page p batch_size expected last_id checked
      (λ h l c. verify_pages p batch_size fuel rows h l c) (read_page batch_size last_id rows)

-- A round of the loop reads at least one row that no earlier round read, so a round more than
-- the table has rows is enough.
unfoldable pub verify_audit_chain : Platform → ℕ → Log → Verdict
verify_audit_chain p batch_size log =
    verify_pages p batch_size (suc (length log.rows)) log.rows genesis_hash 0 0
