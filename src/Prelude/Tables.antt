-- ===== src/Prelude/Tables.antt =====
-- Keyed tables: rows found by a number, and by a pair of numbers.
use Prim.Native.Nat.{ℕ}
use mathlib.Core.Bool.{◌&&◌}
use silent_whisper.Prelude.Tests.{◌==◌, if◌then◌else◌}

module _ {ℓ} {V : Type ℓ} where
  -- the row of key k becomes v
  abbrev pub update : (ℕ → V) → ℕ → V → ℕ → V
  update f k v j = if k == j then v else f j

  -- the row of key (a, b) becomes v
  abbrev pub update₂ : (ℕ → ℕ → V) → ℕ → ℕ → V → ℕ → ℕ → V
  update₂ f a b v c d = if a == c && b == d then v else f c d
