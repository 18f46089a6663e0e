-- ===== src/Ws/Table.antt =====
-- JavaScript's `Map` with identifiers as keys, and a `Map` of `Set`s.
use silent_whisper.Prelude.{
  ℕ, ◌≡◌, ◌≢◌, refl, not, ◌&&◌, ◌||◌, Option, none, some, List, [], ◌∷◌, arith, has, add, delete,
  has-add, has-delete, ◌==◌, if◌then◌else◌,
}

abbrev pub Table {ℓ} : Type ℓ → Type ℓ
Table V = List (ℕ × V)

module _ {ℓ} {V : Type ℓ} where
  -- map.get(k)
  abbrev pub get : Table V → ℕ → Option V
  get [] k = none
  get ((j, v) ∷ m) k = if j == k then some v else get m k

  -- map.set(k, v): a key that is there keeps its place
  abbrev pub put : Table V → ℕ → V → Table V
  put [] k v = (k, v) ∷ []
  put ((j, w) ∷ m) k v = if j == k then (j, v) ∷ m else (j, w) ∷ put m k v

  -- map.delete(k)
  abbrev pub remove : Table V → ℕ → Table V
  remove [] k = []
  remove ((j, w) ∷ m) k = let rest = remove m k in if j == k then rest else (j, w) ∷ rest

  -- What a table holds after a key is set.
  pub get-put :
      (m : Table V) (k j : ℕ) (v : V) → get (put m k v) j ≡ (if k == j then some v else get m j)
  get-put [] k j v = refl
  get-put ((i, w) ∷ m) k j v = ground (arith, get-put m k j v)

  -- What a table holds after a key is taken out.
  pub get-remove : (m : Table V) (k j : ℕ) → get (remove m k) j ≡ (if k == j then none else get m j)
  get-remove [] k j = ground arith
  get-remove ((i, w) ∷ m) k j = ground (arith, get-remove m k j)

abbrev pub or_empty : Option (List ℕ) → List ℕ
or_empty none = []
or_empty (some s) = s

-- map.get(k) ?? new Set()
abbrev pub members : Table (List ℕ) → ℕ → List ℕ
members m k = or_empty (get m k)

-- The set of a key is made where it is missing.
unfoldable pub add_to : Table (List ℕ) → ℕ → ℕ → Table (List ℕ)
add_to m k a = put m k (add (members m k) a)

-- A set without its last element is taken out of the map.
abbrev pub put_or_remove : Table (List ℕ) → ℕ → List ℕ → Table (List ℕ)
put_or_remove m k [] = remove m k
put_or_remove m k (x ∷ xs) = put m k (x ∷ xs)

unfoldable pub drop_from : Table (List ℕ) → ℕ → ℕ → Table (List ℕ)
drop_from m k a = elim (get m k) [ none ↦ m | some s ↦ put_or_remove m k (delete s a) ]

pub members-add_to :
    (m : Table (List ℕ)) (k j a : ℕ)
    → members (add_to m k a) j ≡ (if k == j then add (members m k) a else members m j)
unfolding add_to
members-add_to m k j a = ground (arith, get-put m k j (add (members m k) a))

members-put_or_remove :
    (m : Table (List ℕ)) (k j : ℕ) (s : List ℕ)
    → members (put_or_remove m k s) j ≡ (if k == j then s else members m j)
members-put_or_remove m k j [] = ground (arith, get-remove m k j)
members-put_or_remove m k j (x ∷ xs) = ground (arith, get-put m k j (x ∷ xs))

pub members-drop_from :
    (m : Table (List ℕ)) (k j a : ℕ)
    → members (drop_from m k a) j ≡ (if k == j then delete (members m k) a else members m j)
unfolding drop_from
members-drop_from m k j a = ground (arith, members-put_or_remove m k j (delete (members m k) a))

-- Who is in which set after an addition.
pub has-add_to :
    (m : Table (List ℕ)) (k j a b : ℕ)
    → has (members (add_to m k a) j) b ≡ ((k == j && a == b) || has (members m j) b)
has-add_to m k j a b = ground (arith, members-add_to m k j a, has-add (members m k) a b)

-- Who is in which set after a removal.
pub has-drop_from :
    (m : Table (List ℕ)) (k j a b : ℕ)
    → has (members (drop_from m k a) j) b ≡ (not (k == j && a == b) && has (members m j) b)
has-drop_from m k j a b = ground (arith, members-drop_from m k j a, has-delete (members m k) a b)

-- No key has an empty set.
abbrev pub Tight : Table (List ℕ) → Type 0
Tight m = (k : ℕ) → get m k ≢ some []

pub add_to-Tight : (m : Table (List ℕ)) (k a : ℕ) → Tight m → Tight (add_to m k a)
unfolding add_to
add_to-Tight m k a t j e =
    ground (arith, get-put m k j (add (members m k) a), t j, has-add (members m k) a a)

put_or_remove-Tight :
    (m : Table (List ℕ)) (k : ℕ) (s : List ℕ) → Tight m → Tight (put_or_remove m k s)
put_or_remove-Tight m k [] t j e = ground (arith, get-remove m k j, t j)
put_or_remove-Tight m k (x ∷ xs) t j e = ground (arith, get-put m k j (x ∷ xs), t j)

drop_from_found :
    (m : Table (List ℕ)) (k a : ℕ) (o : Option (List ℕ))
    → Tight m
    → Tight (elim o [ none ↦ m | some s ↦ put_or_remove m k (delete s a) ])
drop_from_found m k a none t = t
drop_from_found m k a (some s) t = put_or_remove-Tight m k (delete s a) t

pub drop_from-Tight : (m : Table (List ℕ)) (k a : ℕ) → Tight m → Tight (drop_from m k a)
unfolding drop_from
drop_from-Tight m k a t = drop_from_found m k a (get m k) t
