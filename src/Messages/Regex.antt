-- ===== src/Messages/Regex.antt =====
-- ECMAScript's regular expressions, as far as backend/src/services/taskParser.js and
-- backend/src/services/mentionService.js use them: a backtracking match with capture groups.
use silent_whisper.Prelude.{
  ℕ, zero, suc, ◌-◌, Bool, true, false, Option, none, some, List, [], ◌∷◌, ◌||◌, ◌==◌,
  if◌then◌else◌,
}
use silent_whisper.Text.{Text}

-- \n, \r, U+2028 and U+2029
abbrev pub is_line_terminator : ℕ → Bool
is_line_terminator c = c == 10 || c == 13 || c == 0x2028 || c == 0x2029

-- Each constructor is one element with what follows it; a class of characters is a test.
-- `line_end` is `$` with the flag m, `text_end` without it. `many` is `C*`, `few` is `C*?`, `between` is `C{lo,hi}` with the number of repetitions that may
-- follow the required ones, `either` tries its first part first, as `(?:…)?` does.
-- An element whose text is a capture group carries the number of the group.
pub data Pattern : Type 0 where
  finish : Pattern
  line_end text_end : Pattern → Pattern
  one many few : Option ℕ → (ℕ → Bool) → Pattern → Pattern
  between : Option ℕ → ℕ → ℕ → (ℕ → Bool) → Pattern → Pattern
  either : Pattern → Pattern → Pattern

-- The captured groups, and the text after the match.
pub record Match : Type 0 where
  pub groups : List (ℕ × Text)
  pub rest : Text

abbrev pub capture : Option ℕ → Text → Match → Match
capture none t m = m
capture (some g) t m = record m { groups = (g, t) ∷ m.groups }

abbrev pub Step : Type 0
Step = Text → Option Match

abbrev orelse {ℓ} : {A : Type ℓ} → Option A → Option A → Option A
orelse none o = o
orelse (some a) o = some a

-- The next element, with nothing taken by this one.
abbrev pub here : Option Match → Option (Text × Match)
here none = none
here (some m) = some ([], m)

abbrev pub taking : ℕ → Option (Text × Match) → Option (Text × Match)
taking a none = none
taking a (some (t, m)) = some (a ∷ t, m)

abbrev pub take_many : (ℕ → Bool) → Step → Text → Option (Text × Match)
take_many c k [] = here (k [])
take_many c k (a ∷ t) =
    let more = taking a (take_many c k t) in
    if c a then orelse more (here (k (a ∷ t))) else here (k (a ∷ t))

abbrev pub take_few : (ℕ → Bool) → Step → Text → Option (Text × Match)
take_few c k [] = here (k [])
take_few c k (a ∷ t) =
    let more = taking a (take_few c k t) in orelse (here (k (a ∷ t))) (if c a then more else none)

abbrev enough : ℕ → Option (Text × Match) → Option (Text × Match)
enough zero o = o
enough (suc lo) o = none

-- The `lo` repetitions that are still required count among the `hi` that are still allowed.
abbrev pub take_between : ℕ → ℕ → (ℕ → Bool) → Step → Text → Option (Text × Match)
take_between lo zero c k t = enough lo (here (k t))
take_between lo (suc hi) c k [] = enough lo (here (k []))
take_between lo (suc hi) c k (a ∷ t) =
    let more = taking a (take_between (lo - 1) hi c k t) in
    let stop = enough lo (here (k (a ∷ t))) in if c a then orelse more stop else stop

abbrev pub captured : Option ℕ → Option (Text × Match) → Option Match
captured g none = none
captured g (some (t, m)) = some (capture g t m)

abbrev ends_line : Text → Bool
ends_line [] = true
ends_line (a ∷ t) = is_line_terminator a

abbrev is_empty : Text → Bool
is_empty [] = true
is_empty (a ∷ t) = false

abbrev pub take_one : Option ℕ → (ℕ → Bool) → Step → Step
take_one g c k [] = none
take_one g c k (a ∷ t) = if c a then captured g (taking a (here (k t))) else none

unfoldable pub match : Pattern → Step
match finish t = some (record { groups = []; rest = t })
match (line_end p) t = if ends_line t then match p t else none
match (text_end p) t = if is_empty t then match p t else none
match (one g c p) t = take_one g c (match p) t
match (many g c p) t = captured g (take_many c (match p) t)
match (few g c p) t = captured g (take_few c (match p) t)
match (between g lo hi c p) t = captured g (take_between lo hi c (match p) t)
match (either p q) t = orelse (match p t) (match q t)

-- match[g], which is undefined where the group took no part
abbrev pub group : ℕ → List (ℕ × Text) → Option Text
group g [] = none
group g ((i, t) ∷ gs) = if i == g then some t else group g gs
