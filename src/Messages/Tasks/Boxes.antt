-- ===== src/Messages/Tasks/Boxes.antt =====
-- The checkboxes of a text, and what a change of a mark in one of them leaves.
use silent_whisper.Prelude.{
  ℕ, zero, suc, ◌+◌, ◌≤◌, ◌≡◌, refl, sym, subst, Bool, true, false, ◌&&◌, ◌||◌, [], ◌∷◌, ◌++◌,
  arith, length, take, drop, ltb, ◌==◌, ==_refl, ==_iff, ap, ◌∙◌, if◌then◌else◌,
}
use silent_whisper.Text.{Text, text_eq, text_eq_refl, text_eq_sound, text_eq_iff}
use silent_whisper.Validation.{is_space}
use silent_whisper.Messages.Tasks.{is_mark, mark_of}

-- A text begins with a checkbox.
abbrev pub begins_box : Text → Bool
begins_box (a ∷ b ∷ c ∷ d ∷ e ∷ t) = a == b'-' && is_space b && c == b'[' && is_mark d && e == b']'
begins_box _ = false

-- There is a checkbox at a position.
abbrev pub boxed_at : Text → ℕ → Bool
boxed_at [] i = false
boxed_at (a ∷ t) zero = begins_box (a ∷ t)
boxed_at (a ∷ t) (suc i) = boxed_at t i

abbrev closes_box : Text → Bool
closes_box [] = false
closes_box (a ∷ t) = a == b']'

-- A mark in a checkbox becomes a space: the three characters before, the character, and whether the
-- checkbox ends after it.
unfoldable pub masked : ℕ → ℕ → ℕ → ℕ → Bool → ℕ
masked p q r a closed =
    if is_mark a && p == b'-' && is_space q && r == b'[' && closed then b' ' else a

-- The text with a space in every checkbox; the first three characters are those before it.
abbrev masked_after : ℕ → ℕ → ℕ → Text → Text
masked_after p q r [] = []
masked_after p q r (a ∷ t) = masked p q r a (closes_box t) ∷ masked_after q r a t

-- Two texts are the same but for the marks of their checkboxes.
abbrev pub same_but_marks : Text → Text → Bool
same_but_marks s t = text_eq (masked_after 0 0 0 s) (masked_after 0 0 0 t)

-- Two texts of one length that differ only where both have a space, an `x` or an `X`.
abbrev pub same_elsewhere : Text → Text → Bool
same_elsewhere [] [] = true
same_elsewhere (a ∷ s) (b ∷ t) = (a == b || (is_mark a && is_mark b)) && same_elsewhere s t
same_elsewhere _ _ = false

-- How many positions differ.
abbrev pub differences : Text → Text → ℕ
differences (a ∷ s) (b ∷ t) = let rest = differences s t in if a == b then rest else rest + 1
differences _ _ = 0

pub same_but_marks_refl : (t : Text) → same_but_marks t t ≡ true
same_but_marks_refl t = text_eq_refl (masked_after 0 0 0 t)

same_elsewhere_refl : (t : Text) → same_elsewhere t t ≡ true
same_elsewhere_refl [] = refl
same_elsewhere_refl (a ∷ t) = ground (arith, same_elsewhere_refl t)

pub differences_refl : (t : Text) → differences t t ≡ 0
differences_refl [] = refl
differences_refl (a ∷ t) = ground (arith, differences_refl t)

pub same_but_marks_trans :
    (s t u : Text)
    → same_but_marks s t ≡ true
    → same_but_marks t u ≡ true
    → same_but_marks s u ≡ true
same_but_marks_trans s t u h k = (text_eq_iff (masked_after 0 0 0 s) (masked_after 0 0 0 u)).1 (
    text_eq_sound (masked_after 0 0 0 s) (masked_after 0 0 0 t) h
    ∙ text_eq_sound (masked_after 0 0 0 t) (masked_after 0 0 0 u) k)

pub mark_of-mark : (b : Bool) → is_mark (mark_of b) ≡ true
mark_of-mark true = refl
mark_of-mark false = refl

masked_plain : (p q r a : ℕ) (c : Bool) → is_mark a ≡ false → masked p q r a c ≡ a
unfolding masked
masked_plain p q r a c h = rw h refl

masked_mark : (q a : ℕ) → is_space q ≡ true → is_mark a ≡ true → masked b'-' q b'[' a true ≡ b' '
unfolding masked
masked_mark q a blank mark = rw (blank, mark) refl

masked_far : (p q r a : ℕ) (c : Bool) → (r == b'[') ≡ false → masked p q r a c ≡ a
unfolding masked
masked_far p q r a c h = ground (arith, h)

masked_start : (p q r a : ℕ) (c : Bool) → (p == b'-') ≡ false → masked p q r a c ≡ a
unfolding masked
masked_start p q r a c h = ground (arith, h)

mark_is_no_dash : (m : ℕ) → is_mark m ≡ true → (m == b'-') ≡ false
mark_is_no_dash m h = ground (arith, h)

-- After a checkbox its mark is forgotten.
masked_behind :
    (m n : ℕ) (t : Text)
    → is_mark m ≡ true
    → is_mark n ≡ true
    → masked_after b'[' m b']' t ≡ masked_after b'[' n b']' t
masked_behind m n [] h k = refl
masked_behind m n (a ∷ []) h k =
    rw (masked_far b'[' m b']' a false refl, masked_far b'[' n b']' a false refl) refl
masked_behind m n (a ∷ b ∷ t) h k =
    rw
      (
        masked_far b'[' m b']' a (b == b']') refl,
        masked_far b'[' n b']' a (b == b']') refl,
        masked_start m b']' a b (closes_box t) (mark_is_no_dash m h),
        masked_start n b']' a b (closes_box t) (mark_is_no_dash n k),
      )
      refl

-- A checkbox with another mark is masked to the same.
masked_box :
    (p q r b m n : ℕ) (t : Text)
    → is_space b ≡ true
    → is_mark m ≡ true
    → is_mark n ≡ true
    → masked_after p q r (b'-' ∷ b ∷ b'[' ∷ m ∷ b']' ∷ t)
      ≡ masked_after p q r (b'-' ∷ b ∷ b'[' ∷ n ∷ b']' ∷ t)
masked_box p q r b m n t blank h k =
    rw
      (
        masked_plain r b'-' b b'[' (m == b']') refl,
        masked_plain r b'-' b b'[' (n == b']') refl,
        masked_mark b m blank h,
        masked_mark b n blank k,
        masked_plain b b'[' m b']' (closes_box t) refl,
        masked_plain b b'[' n b']' (closes_box t) refl,
        masked_behind m n t h k,
      )
      refl

-- A text with a checkbox at its start.
record Boxed (t : Text) : Type 0 where
  blank : ℕ
  mark : ℕ
  rest : Text
  is_blank : is_space blank ≡ true
  is_marked : is_mark mark ≡ true
  shape : t ≡ b'-' ∷ blank ∷ b'[' ∷ mark ∷ b']' ∷ rest

pub both : (x y : Bool) → x && y ≡ true → (x ≡ true) × (y ≡ true)
both x y h = (ground (arith, h), ground (arith, h))

box_of :
    (a c d e f : ℕ) (t : Text)
    → begins_box (a ∷ c ∷ d ∷ e ∷ f ∷ t) ≡ true
    → Boxed (a ∷ c ∷ d ∷ e ∷ f ∷ t)
box_of a c d e f t h =
    let (h₁, closes) = both (a == b'-' && is_space c && d == b'[' && is_mark e) (f == b']') h in
    let (h₂, marked) = both (a == b'-' && is_space c && d == b'[') (is_mark e) h₁ in
    let (h₃, opens) = both (a == b'-' && is_space c) (d == b'[') h₂ in
    let (dash, space) = both (a == b'-') (is_space c) h₃ in
    record {
      blank = c;
      mark = e;
      rest = t;
      is_blank = space;
      is_marked = marked;
      shape = rw ((==_iff a b'-').0 dash, (==_iff d b'[').0 opens, (==_iff f b']').0 closes) refl;
    }

begins_box-Boxed : (t : Text) → begins_box t ≡ true → Boxed t
begins_box-Boxed [] h = absurd (cc)
begins_box-Boxed (a ∷ []) h = absurd (cc)
begins_box-Boxed (a ∷ c ∷ []) h = absurd (cc)
begins_box-Boxed (a ∷ c ∷ d ∷ []) h = absurd (cc)
begins_box-Boxed (a ∷ c ∷ d ∷ e ∷ []) h = absurd (cc)
begins_box-Boxed (a ∷ c ∷ d ∷ e ∷ f ∷ t) h = box_of a c d e f t h

-- The text with a character put in.
abbrev put : Text → ℕ → ℕ → Text
put [] i m = []
put (a ∷ t) zero m = m ∷ t
put (a ∷ t) (suc i) m = a ∷ put t i m

abbrev pub ticked_at : Text → ℕ → ℕ → Text
ticked_at t i m = put t (suc (suc (suc i))) m

closes-ticked : (t : Text) (i m : ℕ) → closes_box (ticked_at t i m) ≡ closes_box t
closes-ticked [] i m = refl
closes-ticked (a ∷ t) i m = refl

pub masked_ticked :
    (p q r : ℕ) (t : Text) (i m : ℕ)
    → is_mark m ≡ true
    → boxed_at t i ≡ true
    → masked_after p q r (ticked_at t i m) ≡ masked_after p q r t
masked_ticked p q r [] i m mark h = absurd (cc)
masked_ticked p q r (a ∷ t) zero m mark h =
    let b = begins_box-Boxed (a ∷ t) h in
    subst (λ u. masked_after p q r (ticked_at u 0 m) ≡ masked_after p q r u) (sym b.shape)
      (masked_box p q r b.blank m b.mark b.rest b.is_blank mark b.is_marked)
masked_ticked p q r (a ∷ t) (suc i) m mark h =
    rw (closes-ticked t i m, masked_ticked q r a t i m mark h) refl

pub elsewhere_ticked :
    (t : Text) (i m : ℕ)
    → is_mark m ≡ true
    → boxed_at t i ≡ true
    → (same_elsewhere t (ticked_at t i m) ≡ true) × (differences t (ticked_at t i m) ≤ 1)
elsewhere_ticked [] i m mark h = absurd (cc)
elsewhere_ticked (a ∷ t) zero m mark h =
    let b = begins_box-Boxed (a ∷ t) h in
    let new = mark in
    let old = b.is_marked in
    subst (λ u. (same_elsewhere u (ticked_at u 0 m) ≡ true) × (differences u (ticked_at u 0 m) ≤ 1))
      (sym b.shape)
      (
        rw (==_refl b.blank, same_elsewhere_refl b.rest, old, new) (ground (arith)),
        rw (==_refl b.blank, differences_refl b.rest) (ground (arith)),
      )
elsewhere_ticked (a ∷ t) (suc i) m mark h =
    let (same, few) = elsewhere_ticked t i m mark h in
    (rw (==_refl a, same) refl, rw (==_refl a) few)

pub put-take-drop :
    (t : Text) (i m : ℕ) → ltb i (length t) ≡ true → take i t ++ m ∷ drop (suc i) t ≡ put t i m
put-take-drop [] i m h = absurd (ground (arith, h))
put-take-drop (a ∷ t) zero m h = refl
put-take-drop (a ∷ t) (suc i) m h = ap (λ u. a ∷ u) (put-take-drop t i m (ground (arith, h)))

pub boxed_in_range :
    (t : Text) (i : ℕ) → boxed_at t i ≡ true → ltb (suc (suc (suc i))) (length t) ≡ true
boxed_in_range [] i h = absurd (cc)
boxed_in_range (a ∷ t) zero h =
    let b = begins_box-Boxed (a ∷ t) h in
    subst (λ u. ltb 3 (length u) ≡ true) (sym b.shape) (ground (arith))
boxed_in_range (a ∷ t) (suc i) h = let ih = boxed_in_range t i h in ground (arith, ih)
