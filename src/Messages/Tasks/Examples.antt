-- ===== src/Messages/Tasks/Examples.antt =====
-- Tasks of docs/task-tokenizer-fixtures.json, and runs of the parser.
use silent_whisper.Prelude.{
  ◌≤◌, ◌≡◌, refl, true, false, none, some, is_some, [], ◌∷◌, ◌++◌, length, ltb,
}
use silent_whisper.Text.{Text, codes}
use silent_whisper.Messages.Regex.{match}
use silent_whisper.Messages.Tasks.Boxes.{same_elsewhere, same_but_marks, differences}
use silent_whisper.Messages.Tasks.Marks.{tick_changes_one_mark, tick_in_range}
use silent_whisper.Messages.Tasks.{build_task_line_regex, match_all, parse_tasks, set_task_checked}

abbrev alias : Text
alias = codes "owner"

unassigned :
    parse_tasks alias (codes "- [ ] Buy milk")
    ≡ record { index = 0; checked = false; text = codes "Buy milk"; owner = none } ∷ []
unfolding parse_tasks match_all build_task_line_regex match
unassigned = refl

assigned :
    parse_tasks alias (codes "- [X] Ship it [owner:: @jdoe] ")
    ≡ record { index = 0; checked = true; text = codes "Ship it"; owner = some (codes "jdoe") } ∷ []
unfolding parse_tasks match_all build_task_line_regex match
assigned = refl

-- An unfinished owner token belongs to the text, and lines of another form are no tasks.
several :
    parse_tasks alias (codes "- [ ] a [owner:: @jd]" ++ 10 ∷ codes "note" ++ 10 ∷ codes "- [x] b")
    ≡ record { index = 0; checked = false; text = codes "a [owner:: @jd]"; owner = none }
      ∷ record { index = 1; checked = true; text = codes "b"; owner = none }
      ∷ []
unfolding parse_tasks match_all build_task_line_regex match
several = refl

-- A task without a text takes the line that follows as its text.
empty_task_takes_next_line :
    parse_tasks alias (codes "- [ ]" ++ 10 ∷ codes "- [x] b")
    ≡ record { index = 0; checked = false; text = codes "- [x] b"; owner = none } ∷ []
unfolding parse_tasks match_all build_task_line_regex match
empty_task_takes_next_line = refl

ticked :
    set_task_checked alias (codes "- [ ] a" ++ 10 ∷ codes "- [ ] b") 1 true
    ≡ some (codes "- [ ] a" ++ 10 ∷ codes "- [x] b")
unfolding set_task_checked match_all build_task_line_regex match
ticked = refl

tick_changes_one_mark_example :
    (same_elsewhere (codes "- [ ] a") (codes "- [x] a") ≡ true)
    × (same_but_marks (codes "- [ ] a") (codes "- [x] a") ≡ true)
    × (differences (codes "- [ ] a") (codes "- [x] a") ≤ 1)
unfolding set_task_checked match_all build_task_line_regex match
tick_changes_one_mark_example =
    tick_changes_one_mark alias (codes "- [ ] a") 0 true (codes "- [x] a") refl

tick_in_range_example :
    is_some (set_task_checked alias (codes "- [ ] a") 1 true)
    ≡ ltb 1 (length (parse_tasks alias (codes "- [ ] a")))
tick_in_range_example = tick_in_range alias (codes "- [ ] a") 1 true
