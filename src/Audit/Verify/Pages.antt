-- ===== src/Audit/Verify/Pages.antt =====
-- The check in pages gives what the check of all rows at once gives.
use silent_whisper.Prelude.{
  ℕ, zero, suc, ◌+◌, ◌≤◌, ◌<◌, ◌≡◌, refl, sym, ap, ◌∙◌, subst, List, [], ◌∷◌, ◌++◌, arith, length,
  take, drop, ltb, take-append-drop, length-take-drop, drop_of_short, ◌⊎◌, inl, inr, Bool-cases,
}
use silent_whisper.Text.{Text}
use silent_whisper.Audit.Chain.{Platform, Row, Log, genesis_hash}
use silent_whisper.Audit.Verify.{
  Reason, Outcome, passed, failed, check_rows, verify_all, newer, last_id_of, on_page, Verdict,
  verified, broken, out_of_fuel, verify_pages, verify_audit_chain,
}
use silent_whisper.Audit.Verify.Append.{check_rows-append}

-- The ids grow, from above a bound.
abbrev pub Ascending : ℕ → List Row → Type 0
Ascending lo [] = Unit
Ascending lo (r ∷ rs) = (lo < r.id) × Ascending r.id rs

newer-Ascending : (l lo : ℕ) (rs : List Row) → l ≤ lo → Ascending lo rs → newer l rs ≡ rs
unfolding newer
newer-Ascending l lo [] h a = refl
newer-Ascending l lo (r ∷ rs) h a = ground (arith, newer-Ascending l r.id rs)

newer-newer : (l m : ℕ) (rs : List Row) → l ≤ m → newer m (newer l rs) ≡ newer m rs
unfolding newer
newer-newer l m [] h = refl
newer-newer l m (r ∷ rs) h = ground (arith, newer-newer l m rs)

-- Past the last id of a page come the rows after it, which ascend from there.
newer-page :
    (n lo : ℕ) (rs : List Row)
    → Ascending lo rs
    → (newer (last_id_of lo (take n rs)) rs ≡ drop n rs)
      × Ascending (last_id_of lo (take n rs)) (drop n rs)
      × (lo ≤ last_id_of lo (take n rs))
unfolding newer last_id_of
newer-page zero lo rs a = (newer-Ascending lo lo rs (omega arith) a, a, omega arith)
newer-page (suc n) lo [] a = (refl, tt, omega arith)
newer-page (suc n) lo (r ∷ rs) a =
    let (e, asc, le) = newer-page n r.id rs a.1 in (ground arith, asc, omega arith)

-- A verdict says what the whole check says: the count is that of the rows, or the failure is the
-- same one, and no more rows than there are were counted.
abbrev pub Agrees : ℕ → List Row → Verdict → Outcome → Type 0
Agrees n rs (verified m) (passed h) = m ≡ n + length rs
Agrees n rs (broken m i q) (failed j s) = (i ≡ j) × (q ≡ s) × (m ≤ n + length rs)
Agrees n rs _ _ = ⊥

Agrees-shift :
    (m n : ℕ) (rs ss : List Row) (v : Verdict) (o : Outcome)
    → m + length rs ≡ n + length ss
    → Agrees m rs v o
    → Agrees n ss v o
Agrees-shift m n rs ss (verified k) (passed h) e a = omega arith
Agrees-shift m n rs ss (verified k) (failed i q) e a = a
Agrees-shift m n rs ss (broken k i q) (passed h) e a = a
Agrees-shift m n rs ss (broken k i q) (failed j s) e a = (a.0, a.1, omega arith)
Agrees-shift m n rs ss out_of_fuel (passed h) e a = a
Agrees-shift m n rs ss out_of_fuel (failed j s) e a = a

Outcome-cases :
    (o : Outcome) → ((h : Text) × (o ≡ passed h)) ⊎ ((i : ℕ) × (q : Reason) × (o ≡ failed i q))
Outcome-cases (passed h) = inl (h, refl)
Outcome-cases (failed i q) = inr (i, q, refl)

module _ (p : Platform) where
  -- A failure in the first part is the failure of the whole.
  pub check_rows_failed :
      (h : Text) (i : ℕ) (q : Reason) (xs ys : List Row)
      → check_rows p h xs ≡ failed i q
      → check_rows p h (xs ++ ys) ≡ failed i q
  unfolding check_rows
  check_rows_failed h i q [] ys e = cc
  check_rows_failed h i q (x ∷ xs) ys e =
      ground (arith, check_rows_failed x.curr_row_hash i q xs ys)

  module _ (b : ℕ) where
    abbrev AgreesFrom : ℕ → List Row → Text → ℕ → ℕ → Type 0
    AgreesFrom fuel table expected last checked =
        (rest : List Row)
        → newer last table ≡ rest
        → Ascending last rest
        → length rest < fuel
        → Agrees checked rest (verify_pages p (suc b) fuel table expected last checked)
            (check_rows p expected rest)

    on_page-Agrees :
        (fuel : ℕ) (table : List Row) (expected : Text) (last checked : ℕ)
        → ((e : Text) (l c : ℕ) → AgreesFrom fuel table e l c)
        → (rest : List Row) → newer last table ≡ rest
        → Ascending last rest
        → length rest < suc fuel
        → Agrees checked rest
            (on_page p
              (suc b)
              expected
              last
              checked
              (verify_pages p (suc b) fuel table)
              (take (suc b) rest))
            (check_rows p expected rest)
    unfolding on_page
    on_page-Agrees fuel table expected last checked ih [] e a lt = unfold check_rows in omega arith
    on_page-Agrees fuel table expected last checked ih (r ∷ rs) e a lt =
        let page = take (suc b) (r ∷ rs) in
        let later = drop (suc b) (r ∷ rs) in
        let whole : page ++ later ≡ r ∷ rs = take-append-drop (suc b) (r ∷ rs) in
        elim (Outcome-cases (check_rows p expected page)) [
          | inl (h, ok) ↦
              let go_on : check_rows p expected (r ∷ rs) ≡ check_rows p h later =
                rw whole at (check_rows-append p expected h page later ok) in
              elim (Bool-cases (ltb (length page) (suc b))) [
                | inl short ↦
                    let done : later ≡ [] = drop_of_short (suc b) (r ∷ rs) (ground arith) in
                    let all : check_rows p expected (r ∷ rs) ≡ passed h =
                      go_on ∙ ap (check_rows p h) done ∙ (unfold check_rows in refl) in
                    rw (ok, all, short, Agrees)
                      (omega (arith, length-take-drop b rs, ap length done))
                | inr full ↦
                    let (eq, asc, le) = newer-page (suc b) last (r ∷ rs) a in
                    let l = last_id_of last page in
                    let c = checked + length page in
                    let from : newer l table ≡ later =
                      sym (newer-newer last l table le) ∙ ap (newer l) e ∙ eq in
                    rw (ok, go_on, full, Agrees)
                      (Agrees-shift c checked later (r ∷ rs)
                        (verify_pages p (suc b) fuel table h l c) (check_rows p h later)
                        (omega (arith, length-take-drop b rs))
                        (ih h l c later from asc (omega (arith, length-take-drop b rs))))
              ]
          | inr (i, q, bad) ↦
              let bad' : check_rows p expected (r ∷ rs) ≡ failed i q =
                rw whole at (check_rows_failed expected i q page later bad) in
              rw (bad, bad', Agrees) (refl, refl, omega (arith, length-take-drop b rs))
        ]

    verify_pages-Agrees :
        (fuel : ℕ) (table : List Row) (expected : Text) (last checked : ℕ)
        → AgreesFrom fuel table expected last checked
    unfolding verify_pages
    verify_pages-Agrees zero table expected last checked rest e a lt = absurd (omega arith)
    verify_pages-Agrees (suc fuel) table expected last checked rest e a lt =
        subst
          (λ rows.
            Agrees checked rest
              (on_page p (suc b) expected last checked (verify_pages p (suc b) fuel table)
                (take (suc b) rows))
              (check_rows p expected rest))
          (sym e)
          (on_page-Agrees fuel table expected last checked
            (λ x l c. verify_pages-Agrees fuel table x l c) rest e a lt)

    -- On a table whose ids are positive and grow, and with any page size but 0, the check in pages
    -- ends, and says what the check of all rows at once says: it is verified with the number of
    -- rows as its count, or it reports the id and reason of the same first failure and has counted
    -- at most all rows.
    pub verify_audit_chain-Agrees :
        (log : Log)
        → Ascending 0 log.rows
        → Agrees 0 log.rows (verify_audit_chain p (suc b) log) (verify_all p log)
    unfolding verify_audit_chain verify_all
    verify_audit_chain-Agrees log a =
        verify_pages-Agrees (suc (length log.rows)) log.rows genesis_hash 0 0 log.rows
          (newer-Ascending 0 0 log.rows (omega arith) a) a (omega arith)
