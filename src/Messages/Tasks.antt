-- ===== src/Messages/Tasks.antt =====
-- backend/src/services/taskParser.js: the checkbox tasks in the text of a message.
pub mod Boxes
pub mod Marks
mod Examples
use silent_whisper.Prelude.{
  ℕ, zero, suc, ◌+◌, ◌-◌, ◌||◌, Bool, true, false, not, Option, none, some, List, [], ◌∷◌, ◌++◌,
  length, take, drop, ◌==◌, if◌then◌else◌,
}
use silent_whisper.Text.{Text}
use silent_whisper.Validation.{is_space, is_username_char}
use silent_whisper.Messages.Regex.{
  is_line_terminator, Pattern, finish, line_end, one, many, few, between, either, Match, match,
  group,
}

-- [ xX]
abbrev pub is_mark : ℕ → Bool
is_mark c = c == b' ' || c == b'x' || c == b'X'

abbrev literally : Text → Pattern → Pattern
literally [] p = p
literally (a ∷ t) p = one none (λ c. c == a) (literally t p)

abbrev spaces : Pattern → Pattern
spaces p = one none is_space (many none is_space p)

abbrev line_ends : Pattern
line_ends = many none is_space (line_end finish)

-- \s+\[alias::\s*@(user)\]
abbrev owner_token : Text → Pattern → Pattern
owner_token alias p = spaces (
    literally (b'[' ∷ alias) (
      literally (b':' ∷ b':' ∷ []) (
        many none is_space (
          literally (b'@' ∷ [])
            (between (some 3) 3 50 is_username_char (literally (b']' ∷ []) p))))))

-- \s+(.*?)(?:…)?\s*$
abbrev pub after_box : Text → Pattern
after_box alias = spaces (
    few (some 2) (λ c. not (is_line_terminator c)) (either (owner_token alias line_ends) line_ends))

-- \]…
abbrev pub description : Text → Pattern
description alias = literally (b']' ∷ []) (after_box alias)

-- \s\[([ xX])…
abbrev pub checkbox : Text → Pattern
checkbox alias =
    one none is_space (literally (b'[' ∷ []) (one (some 1) is_mark (description alias)))

-- What follows `^` in the regular expression.
unfoldable pub build_task_line_regex : Text → Pattern
build_task_line_regex alias = literally (b'-' ∷ []) (checkbox alias)

-- An element of matchAll: match.index with the captured groups.
pub record Found : Type 0 where
  pub index : ℕ
  pub groups : List (ℕ × Text)

-- matchAll from a position of the text, with the number of characters that the match before has
-- taken, and whether a line starts here.
unfoldable pub match_all : Pattern → ℕ → ℕ → Bool → Text → List Found
match_all p taken position line_start [] = []
match_all p (suc n) position line_start (a ∷ t) =
    match_all p n (position + 1) (is_line_terminator a) t
match_all p zero position line_start (a ∷ t) = elim (if line_start then match p (a ∷ t) else none) [
  | none ↦ match_all p 0 (position + 1) (is_line_terminator a) t
  | some m ↦
      record { index = position; groups = m.groups }
      ∷ match_all p (length t - length m.rest) (position + 1) (is_line_terminator a) t
]

pub record Task : Type 0 where
  pub index : ℕ
  pub checked : Bool
  pub text : Text
  pub owner : Option Text

abbrev or_empty : Option Text → Text
or_empty none = []
or_empty (some t) = t

abbrev is_blank : Text → Bool
is_blank (a ∷ []) = a == b' '
is_blank _ = false

abbrev pub tasks_of : ℕ → List Found → List Task
tasks_of index [] = []
tasks_of index (f ∷ fs) =
    record {
      index = index;
      checked = not (is_blank (or_empty (group 1 f.groups)));
      text = or_empty (group 2 f.groups);
      owner = group 3 f.groups;
    }
    ∷ tasks_of (index + 1) fs

abbrev pub task_lines : Text → Text → List Found
task_lines alias content = match_all (build_task_line_regex alias) 0 0 true content

unfoldable pub parse_tasks : Text → Text → List Task
parse_tasks alias content = tasks_of 0 (task_lines alias content)

abbrev pub nth {ℓ} : {A : Type ℓ} → List A → ℕ → Option A
nth [] i = none
nth (x ∷ xs) zero = some x
nth (x ∷ xs) (suc i) = nth xs i

abbrev pub mark_of : Bool → ℕ
mark_of true = b'x'
mark_of false = b' '

-- The target's checkbox is three characters after the start of its match.
unfoldable pub set_task_checked : Text → Text → ℕ → Bool → Option Text
set_task_checked alias content index checked = elim (nth (task_lines alias content) index) [
  | none ↦ none
  | some f ↦ some (take (f.index + 3) content ++ mark_of checked ∷ drop (f.index + 3 + 1) content)
]
