-- ===== src/Messages/Tasks/Marks.antt =====
-- What ticking a task changes in the text.
use silent_whisper.Prelude.{
  ℕ, zero, suc, ◌+◌, ◌-◌, ◌≤◌, ◌≡◌, refl, sym, subst, Bool, true, false, Option, none, some,
  is_some, List, [], ◌∷◌, ◌++◌, arith, length, take, drop, ltb, ◌==◌, ◌∙◌, if◌then◌else◌,
  Bool-cases, Option-cases, inl, inr,
}
use silent_whisper.Text.{Text, text_eq_iff}
use silent_whisper.Validation.{is_space}
use silent_whisper.Messages.Regex.{is_line_terminator, Pattern, one, Match, match}
use silent_whisper.Messages.Tasks.{
  is_mark, after_box, description, checkbox, build_task_line_regex, Found, match_all, tasks_of,
  task_lines, parse_tasks, nth, mark_of, set_task_checked,
}
use silent_whisper.Messages.Tasks.Boxes.{
  begins_box, boxed_at, same_but_marks, same_elsewhere, differences, mark_of-mark, ticked_at,
  masked_ticked, elsewhere_ticked, put-take-drop, boxed_in_range,
}

-- What a match of one character says of the text.
one_taken :
    (g : Option ℕ) (c : ℕ → Bool) (p : Pattern) (a : ℕ) (t : Text) (m : Match)
    → match (one g c p) (a ∷ t) ≡ some m
    → (c a ≡ true) × ((m' : Match) × (match p t ≡ some m'))
unfolding match
one_taken g c p a t m e = elim (Bool-cases (c a)) [
  | inr h ↦ absurd (ground arith)
  | inl h ↦ elim (Option-cases (match p t)) [ inr r ↦ (h, r) | inl r ↦ absurd (ground arith) ]
]

match-box :
    (alias t : Text) (m : Match)
    → match (build_task_line_regex alias) t ≡ some m
    → begins_box t ≡ true
unfolding build_task_line_regex match
match-box alias [] m e = cc
match-box alias (a ∷ []) m e = ground arith
match-box alias (a ∷ b ∷ []) m e = ground arith
match-box alias (a ∷ b ∷ c ∷ []) m e = ground arith
match-box alias (a ∷ b ∷ c ∷ d ∷ []) m e = ground arith
match-box alias (a ∷ b ∷ c ∷ d ∷ f ∷ t) m e =
    let box = one (some 1) is_mark (description alias) in
    let (dash, (m₁, e₁)) =
      one_taken none (λ x. x == b'-') (checkbox alias) a (b ∷ c ∷ d ∷ f ∷ t) m e in
    let (space, (m₂, e₂)) =
      one_taken none is_space (one none (λ x. x == b'[') box) b (c ∷ d ∷ f ∷ t) m₁ e₁ in
    let (opens, (m₃, e₃)) = one_taken none (λ x. x == b'[') box c (d ∷ f ∷ t) m₂ e₂ in
    let (mark, (m₄, e₄)) = one_taken (some 1) is_mark (description alias) d (f ∷ t) m₃ e₃ in
    let (closes, (m₅, e₅)) = one_taken none (λ x. x == b']') (after_box alias) f t m₄ e₄ in
    rw (dash, space, opens, mark, closes) refl

-- A position after the first character.
step_back :
    (a position index : ℕ) (t : Text)
    → (position + 1 ≤ index) × (boxed_at t (index - (position + 1)) ≡ true)
    → (position ≤ index) × (boxed_at (a ∷ t) (index - position) ≡ true)
step_back a position index t (le, mark) =
    let shift : index - position ≡ suc (index - (position + 1)) = omega arith in
    (omega arith, rw shift mark)

-- A match at this position, or one after it.
found_here :
    (a position : ℕ) (t : Text) (groups : List (ℕ × Text)) (later : List Found) (i : ℕ) (f : Found)
    → begins_box (a ∷ t) ≡ true
    → nth (record { index = position; groups = groups } ∷ later) i ≡ some f
    → ((j : ℕ)
        → nth later j ≡ some f
        → (position + 1 ≤ f.index) × (boxed_at t (f.index - (position + 1)) ≡ true))
    → (position ≤ f.index) × (boxed_at (a ∷ t) (f.index - position) ≡ true)
found_here a position t groups later zero f mark e ih =
    let same : f.index ≡ position = cc in
    (omega arith, (let none_before : f.index - position ≡ 0 = omega arith in rw none_before mark))
found_here a position t groups later (suc i) f mark e ih = step_back a position f.index t (ih i e)

line_hit :
    (line_start : Bool) (o : Option Match) (m : Match)
    → (if line_start then o else none) ≡ some m
    → o ≡ some m
line_hit true o m e = e
line_hit false o m e = absurd (cc)

-- Every line that is found has a mark three characters after its start.
match_all-box :
    (alias t : Text) (taken position : ℕ) (line_start : Bool) (i : ℕ) (f : Found)
    → nth (match_all (build_task_line_regex alias) taken position line_start t) i ≡ some f
    → (position ≤ f.index) × (boxed_at t (f.index - position) ≡ true)
unfolding match_all
match_all-box alias [] taken position line_start i f e = absurd (cc)
match_all-box alias (a ∷ t) (suc n) position line_start i f e =
    step_back a position f.index t (match_all-box alias t n (position + 1) _ i f e)
match_all-box alias (a ∷ t) zero position line_start i f e =
    elim (Option-cases (if line_start then match (build_task_line_regex alias) (a ∷ t) else none)) [
      | inl missed ↦
          let e' : nth
                (match_all (build_task_line_regex alias) 0 (position + 1) (is_line_terminator a) t)
                i
              ≡ some f =
            cc in
          step_back a position f.index t (match_all-box alias t 0 (position + 1) _ i f e')
      | inr (m, hit) ↦
          let later =
            match_all (build_task_line_regex alias) (length t - length m.rest) (position + 1)
              (is_line_terminator a) t in
          let e' : nth (record { index = position; groups = m.groups } ∷ later) i ≡ some f = cc in
          found_here a position t m.groups later i f
            (match-box alias (a ∷ t) m (line_hit line_start _ m hit)) e'
            (λ j k. match_all-box alias t (length t - length m.rest) (position + 1) _ j f k)
    ]

-- Ticking a task, whatever its number and the spelling of the owner token, leaves a text of the
-- same length that differs at one position at most, where both texts have a mark: a space, an `x` or
-- an `X`; and apart from the marks that stand in checkboxes, `- [ ]`, the texts are the same.
pub tick_changes_one_mark :
    (alias s : Text) (i : ℕ) (b : Bool) (t : Text)
    → set_task_checked alias s i b ≡ some t
    → (same_elsewhere s t ≡ true) × (same_but_marks s t ≡ true) × (differences s t ≤ 1)
unfolding set_task_checked
tick_changes_one_mark alias s i b t e = elim (Option-cases (nth (task_lines alias s) i)) [
  | inl gone ↦ absurd (cc)
  | inr (f, found) ↦
      let (_, box) = match_all-box alias s 0 0 true i f found in
      let here : boxed_at s f.index ≡ true =
        (let at : f.index ≡ f.index - 0 = omega arith in rw at box) in
      let same : take (f.index + 3) s ++ mark_of b ∷ drop (f.index + 3 + 1) s ≡ t = cc in
      let three : f.index + 3 ≡ suc (suc (suc f.index)) = omega arith in
      let four : f.index + 3 + 1 ≡ suc (suc (suc (suc f.index))) = omega arith in
      let new : ticked_at s f.index (mark_of b) ≡ t =
        sym (put-take-drop s (suc (suc (suc f.index))) (mark_of b) (boxed_in_range s f.index here))
        ∙ subst (λ n. take n s ++ mark_of b ∷ drop (suc (suc (suc (suc f.index)))) s ≡ t) three
            (subst (λ n. take (f.index + 3) s ++ mark_of b ∷ drop n s ≡ t) four same) in
      let (elsewhere, few) = elsewhere_ticked s f.index (mark_of b) (mark_of-mark b) here in
      let same = sym (masked_ticked 0 0 0 s f.index (mark_of b) (mark_of-mark b) here) in
      subst (λ u. (same_elsewhere s u ≡ true) × (same_but_marks s u ≡ true) × (differences s u ≤ 1))
        new (elsewhere, (text_eq_iff _ _).1 same, few)
]

nth-tasks_of :
    (k : ℕ) (fs : List Found) (i : ℕ) → is_some (nth fs i) ≡ ltb i (length (tasks_of k fs))
nth-tasks_of k [] i = ground arith
nth-tasks_of k (f ∷ fs) zero = ground arith
nth-tasks_of k (f ∷ fs) (suc i) = ground (arith, nth-tasks_of (k + 1) fs i)

-- A task can be ticked exactly when its number is less than the number of the text's tasks.
pub tick_in_range :
    (alias s : Text) (i : ℕ) (b : Bool)
    → is_some (set_task_checked alias s i b) ≡ ltb i (length (parse_tasks alias s))
unfolding set_task_checked parse_tasks
tick_in_range alias s i b = elim (Option-cases (nth (task_lines alias s) i)) [
  | inl gone ↦ ground (arith, nth-tasks_of 0 (task_lines alias s) i)
  | inr (f, found) ↦ ground (arith, nth-tasks_of 0 (task_lines alias s) i)
]
