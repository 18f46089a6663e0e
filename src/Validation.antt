-- ===== src/Validation.antt =====
-- backend/src/validation.js: what a request may hold, and the checks of its parts.
use silent_whisper.Prelude.{
  ℕ, String, Bool, true, false, ◌&&◌, ◌||◌, not, Option, none, some, List, [], ◌∷◌, length, ◌==◌,
  ltb, leb, if◌then◌else◌,
}
use silent_whisper.Text.{Text, text_eq}
use silent_whisper.Errors.{validation_error, Result, ok, err}

-- A parameter: an identifier as the database prints it, one with upper-case digits, which the
-- database takes for the same, or a text that is no UUID.
pub data Param : Type 0 where
  uuid respelled : ℕ → Param
  malformed : Text → Param

-- A member of the request's body; `other` is a number, a list or an object.
pub data Value : Type 0 where
  undefined : Value
  null : Value
  boolean : Bool → Value
  text : Text → Value
  other : Value

unfoldable pub assert_uuid : Param → String → Result ℕ
assert_uuid (uuid n) message = ok n
assert_uuid (respelled n) message = ok n
assert_uuid (malformed t) message = err (validation_error message)

-- `===` finds an identifier of the database equal to a parameter in the same spelling alone.
abbrev pub is_plain : Param → Bool
is_plain (respelled n) = false
is_plain _ = true

-- The character class of USERNAME_PATTERN_SOURCE.
abbrev pub is_username_char : ℕ → Bool
is_username_char c =
    (leb b'a' c && leb c b'z')
    || (leb b'A' c && leb c b'Z')
    || (leb b'0' c && leb c b'9')
    || c == b'_'
    || c == b'.'
    || c == b'-'

abbrev pub all_chars : (ℕ → Bool) → Text → Bool
all_chars p [] = true
all_chars p (c ∷ t) = p c && all_chars p t

abbrev pub max_username_length : ℕ
max_username_length = 50

unfoldable pub is_username : Text → Bool
is_username t = leb 3 (length t) && leb (length t) 50 && all_chars is_username_char t

unfoldable pub assert_username : Value → Result Text
unfolding is_username
assert_username (text t) =
    if not (is_username t) || ltb max_username_length (length t)
    then err (
        validation_error "username must be 3-50 characters (letters, numbers, \".\", \"_\", \"-\")")
    else ok t
assert_username _ =
    err
      (validation_error "username must be 3-50 characters (letters, numbers, \".\", \"_\", \"-\")")

-- What `trim` takes off: white space and line terminators of ECMAScript.
abbrev pub is_space : ℕ → Bool
is_space c =
    (leb 9 c && leb c 13)
    || c == 32
    || c == 0xa0
    || c == 0x1680
    || (leb 0x2000 c && leb c 0x200a)
    || c == 0x2028
    || c == 0x2029
    || c == 0x202f
    || c == 0x205f
    || c == 0x3000
    || c == 0xfeff

abbrev pub max_name_length : ℕ
max_name_length = 100

-- `value.trim().length === 0` holds of a text of white space only.
unfoldable pub assert_name : Value → String → Result Text
assert_name (text t) message =
    if all_chars is_space t || ltb max_name_length (length t)
    then err (validation_error message)
    else ok t
assert_name _ message = err (validation_error message)

unfoldable pub assert_boolean : Value → String → Result Bool
assert_boolean (boolean b) message = ok b
assert_boolean _ message = err (validation_error message)

-- allowed.includes(value), for an enumeration whose texts are listed with their constructors.
abbrev pub find_text {ℓ} : {A : Type ℓ} → List (Text × A) → Text → Option A
find_text [] t = none
find_text ((s, a) ∷ allowed) t = if text_eq s t then some a else find_text allowed t

unfoldable pub assert_enum {ℓ} : {A : Type ℓ} → Value → List (Text × A) → String → Result A
assert_enum (text t) allowed message = elim (find_text allowed t) [
  | none ↦ err (validation_error message)
  | some a ↦ ok a
]
assert_enum _ allowed message = err (validation_error message)

abbrev pub max_message_length : ℕ
max_message_length = 10000

unfoldable pub assert_message_content : Value → Result Text
assert_message_content (text []) = err (validation_error "content must be a non-empty string")
assert_message_content (text (c ∷ t)) =
    if ltb max_message_length (length (c ∷ t))
    then err (validation_error "content must be at most 10000 characters")
    else ok (c ∷ t)
assert_message_content _ = err (validation_error "content must be a non-empty string")

-- The value is what `Number` makes of a parameter, where that is a whole number and not negative.
unfoldable pub assert_bounded_int : Option ℕ → ℕ → ℕ → String → Result ℕ
assert_bounded_int none min max message = err (validation_error message)
assert_bounded_int (some n) min max message =
    if ltb n min || ltb max n then err (validation_error message) else ok n
