-- ===== src/Prelude/Lists.antt =====
-- Lists measured by native numbers, and sets of numbers as JavaScript's `Set` keeps them.
use Prim.Native.Nat.{ℕ, zero, suc, ◌+◌, ◌≤◌, ◌<◌}
use mathlib.Core.Path.{◌≡◌, refl}
use mathlib.Core.Bool.{Bool, false, ◌&&◌, not, ◌||◌}
use mathlib.Core.List.{List, [], ◌∷◌, ◌++◌}
use native.Mathlib.Omega.{arith}
use silent_whisper.Prelude.Tests.{◌==◌, if◌then◌else◌}

module _ {ℓ} {A : Type ℓ} where
  abbrev pub length : List A → ℕ
  length [] = 0
  length (x ∷ xs) = suc (length xs)

  abbrev pub take : ℕ → List A → List A
  take zero xs = []
  take (suc n) [] = []
  take (suc n) (x ∷ xs) = x ∷ take n xs

  abbrev pub drop : ℕ → List A → List A
  drop zero xs = xs
  drop (suc n) [] = []
  drop (suc n) (x ∷ xs) = drop n xs

  pub length-append : (xs ys : List A) → length (xs ++ ys) ≡ length xs + length ys
  length-append [] ys = omega arith
  length-append (x ∷ xs) ys = omega (arith, length-append xs ys)

-- set.has(x)
abbrev pub has : List ℕ → ℕ → Bool
has [] a = false
has (x ∷ xs) a = x == a || has xs a

-- set.add(x): the order of insertion is kept
abbrev pub add : List ℕ → ℕ → List ℕ
add [] a = a ∷ []
add (x ∷ xs) a = if x == a then x ∷ xs else x ∷ add xs a

-- set.delete(x), and a filter by `!== x`
abbrev pub delete : List ℕ → ℕ → List ℕ
delete [] a = []
delete (x ∷ xs) a = let rest = delete xs a in if x == a then rest else x ∷ rest

-- What is in a set after an insertion.
pub has-add : (xs : List ℕ) (a b : ℕ) → has (add xs a) b ≡ (a == b || has xs b)
has-add [] a b = ground arith
has-add (x ∷ xs) a b = ground (arith, has-add xs a b)

-- What is in a set after a removal.
pub has-delete : (xs : List ℕ) (a b : ℕ) → has (delete xs a) b ≡ (not (a == b) && has xs b)
has-delete [] a b = ground arith
has-delete (x ∷ xs) a b = ground (arith, has-delete xs a b)

-- A removal makes no set longer.
pub length-delete : (xs : List ℕ) (a : ℕ) → length (delete xs a) ≤ length xs
length-delete [] a = omega arith
length-delete (x ∷ xs) a = ground (arith, length-delete xs a)

-- An insertion of a new element makes a set longer by one, any other leaves it.
pub length-add :
    (xs : List ℕ) (a : ℕ) → length (add xs a) ≡ (if has xs a then length xs else suc (length xs))
length-add [] a = omega arith
length-add (x ∷ xs) a = ground (arith, length-add xs a)

module _ {ℓ} {A : Type ℓ} where
  pub take-append-drop : (n : ℕ) (xs : List A) → take n xs ++ drop n xs ≡ xs
  take-append-drop zero xs = refl
  take-append-drop (suc n) [] = refl
  take-append-drop (suc n) (x ∷ xs) = rw (take-append-drop n xs)

  pub length-take-drop : (n : ℕ) (xs : List A) → length xs ≡ length (take n xs) + length (drop n xs)
  length-take-drop zero xs = omega arith
  length-take-drop (suc n) [] = omega arith
  length-take-drop (suc n) (x ∷ xs) = omega (arith, length-take-drop n xs)

  -- A page that is not full is the last one.
  pub drop_of_short : (n : ℕ) (xs : List A) → length (take n xs) < n → drop n xs ≡ []
  drop_of_short zero xs h = absurd (omega arith)
  drop_of_short (suc n) [] h = refl
  drop_of_short (suc n) (x ∷ xs) h = drop_of_short n xs (omega arith)
