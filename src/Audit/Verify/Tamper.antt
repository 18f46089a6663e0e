-- ===== src/Audit/Verify/Tamper.antt =====
-- What a passing check rules out.
use silent_whisper.Prelude.{
  ◌≡◌, ◌≢◌, refl, sym, ap, ◌∙◌, ◌⊎◌, inl, inr, List, [], ◌∷◌, ◌++◌, arith, length, Bool-cases,
}
use silent_whisper.Text.{Text, text_eq, text_eq_iff, text_eq_sound, append_split}
use silent_whisper.Audit.Chain.{Platform, Row, canonical_text, compute_row_hash, genesis_hash, Log}
use silent_whisper.Audit.Verify.{passed, check_rows, verify_all}

-- What is hashed for a row.
abbrev pub hashed_text : Platform → Row → Text
hashed_text p r = r.prev_row_hash ++ canonical_text p r.event

-- At some place the two lists have rows for which SHA-256 gives two different texts one digest.
abbrev pub Collide : Platform → List Row → List Row → Type 0
Collide p [] ss = ⊥
Collide p (r ∷ rs) [] = ⊥
Collide p (r ∷ rs) (s ∷ ss) =
    ((hashed_text p r ≢ hashed_text p s)
      × (p.sha256 (hashed_text p r) ≡ p.sha256 (hashed_text p s)))
    ⊎ Collide p rs ss

-- Row by row the same hashed text and the same hash.
abbrev pub SameEvents : Platform → List Row → List Row → Type 0
SameEvents p [] [] = Unit
SameEvents p [] (s ∷ ss) = ⊥
SameEvents p (r ∷ rs) [] = ⊥
SameEvents p (r ∷ rs) (s ∷ ss) =
    (canonical_text p r.event ≡ canonical_text p s.event)
    × (r.curr_row_hash ≡ s.curr_row_hash)
    × SameEvents p rs ss

module _ (p : Platform) (digest_length : (t : Text) → length (p.sha256 t) ≡ 64) where
  -- A row that passes names the hash before it, and carries the hash of its text.
  check_head :
      (h h' : Text) (r : Row) (rs : List Row)
      → check_rows p h (r ∷ rs) ≡ passed h'
      → (r.prev_row_hash ≡ h)
        × (p.sha256 (hashed_text p r) ≡ r.curr_row_hash)
        × (check_rows p r.curr_row_hash rs ≡ passed h')
  unfolding check_rows compute_row_hash
  check_head h h' r rs e = ground (
    arith,
    text_eq_iff r.prev_row_hash h,
    text_eq_iff (p.sha256 (r.prev_row_hash ++ canonical_text p r.event)) r.curr_row_hash,
  )

  same_head :
      (r s : Row)
      → length r.prev_row_hash ≡ length s.prev_row_hash
      → p.sha256 (hashed_text p r) ≡ r.curr_row_hash
      → p.sha256 (hashed_text p s) ≡ s.curr_row_hash
      → r.curr_row_hash ≡ s.curr_row_hash
      → ((r.prev_row_hash ≡ s.prev_row_hash)
          × (canonical_text p r.event ≡ canonical_text p s.event))
        ⊎ ((hashed_text p r ≢ hashed_text p s)
            × (p.sha256 (hashed_text p r) ≡ p.sha256 (hashed_text p s)))
  same_head r s l er es e =
      let x = hashed_text p r in
      let y = hashed_text p s in
      elim (Bool-cases (text_eq x y)) [
        | inl eq ↦ inl (append_split r.prev_row_hash s.prev_row_hash _ _ l (text_eq_sound x y eq))
        | inr ne ↦ inr ((λ q. cc ((text_eq_iff x y).1 q)), er ∙ e ∙ sym es)
      ]

  pub compare_chains :
      (h k t : Text) (rs ss : List Row)
      → length h ≡ 64
      → length k ≡ 64
      → length rs ≡ length ss
      → check_rows p h rs ≡ passed t
      → check_rows p k ss ≡ passed t
      → ((h ≡ k) × SameEvents p rs ss) ⊎ Collide p rs ss
  unfolding check_rows
  compare_chains h k t [] [] lh lk l e f = inl (ground arith, tt)
  compare_chains h k t [] (s ∷ ss) lh lk l e f = absurd (omega arith)
  compare_chains h k t (r ∷ rs) [] lh lk l e f = absurd (omega arith)
  compare_chains h k t (r ∷ rs) (s ∷ ss) lh lk l e f =
      let (pr, er, rest_r) = check_head h t r rs e in
      let (ps, es, rest_s) = check_head k t s ss f in
      let lr : length r.prev_row_hash ≡ length s.prev_row_hash =
        ap length pr ∙ lh ∙ sym lk ∙ sym (ap length ps) in
      elim (compare_chains r.curr_row_hash s.curr_row_hash t rs ss (rw (← er) (digest_length _))
        (rw (← es) (digest_length _)) (omega arith) rest_r rest_s) [
          | inr c ↦ inr (inr c)
          | inl (q, rest) ↦ elim (same_head r s lr er es q) [
            | inr c ↦ inr (inl c)
            | inl (hk, text) ↦ inl (sym pr ∙ hk ∙ ps, (text, q, rest))
          ]
        ]

  genesis_length : length genesis_hash ≡ 64
  unfolding genesis_hash
  genesis_length = refl

  -- Where digests have 64 digits: of two logs with as many rows that pass the check and end in the
  -- same hash, every row has the same canonical text and the same hash, or else two rows at one
  -- place show two different inputs of SHA-256 with one digest.
  pub tampering_needs_collision :
      (old new : Log) (t : Text)
      → length old.rows ≡ length new.rows
      → verify_all p old ≡ passed t
      → verify_all p new ≡ passed t
      → SameEvents p old.rows new.rows ⊎ Collide p old.rows new.rows
  unfolding verify_all
  tampering_needs_collision old new t l e f =
      elim (compare_chains genesis_hash genesis_hash t old.rows new.rows genesis_length
        genesis_length l e f) [ inl (_, same) ↦ inl same | inr c ↦ inr c ]
