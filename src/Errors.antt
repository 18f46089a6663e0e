-- ===== src/Errors.antt =====
-- backend/src/errors.js: the errors of the API and their statuses, and results that may be errors.
use silent_whisper.Prelude.{
  ℕ, String, Bool, true, false, not, ◌≡◌, refl, subst, ◌⊎◌, inl, inr, Option, none, some,
  if◌then◌else◌,
}

-- The last constructor is any other error, which `errorHandler` answers with 500.
pub data AppError : Type 0 where
  validation_error : String → AppError
  unauthorized_error : String → AppError
  forbidden_error : String → AppError
  not_found_error : String → AppError
  conflict_error : String → AppError
  rate_limited_error : String → AppError
  service_unavailable_error : String → AppError
  upstream_error : String → AppError
  unhandled_error : AppError

abbrev pub status : AppError → ℕ
status (validation_error m) = 400
status (unauthorized_error m) = 401
status (forbidden_error m) = 403
status (not_found_error m) = 404
status (conflict_error m) = 409
status (rate_limited_error m) = 429
status (service_unavailable_error m) = 503
status (upstream_error m) = 502
status unhandled_error = 500

pub data Result {ℓ} (A : Type ℓ) : Type ℓ where
  ok : A → Result A
  err : AppError → Result A

-- What follows a call that may throw.
unfoldable pub ◌>>=◌ {ℓ κ} : {A : Type ℓ} {B : Type κ} → Result A → (A → Result B) → Result B
err thrown >>= next = err thrown
ok value >>= next = next value

abbrev pub ◌>>◌ {ℓ κ} : {A : Type ℓ} {B : Type κ} → Result A → Result B → Result B
check >> next = check >>= λ _. next

infixl 5 ◌>>=◌ ◌>>◌
-- if (b) throw e
unfoldable pub throw_if : Bool → AppError → Result (Unit {0})
throw_if true e = err e
throw_if false e = ok tt

-- if (!value) throw e
unfoldable pub or_throw {ℓ} : {A : Type ℓ} → Option A → AppError → Result A
or_throw none e = err e
or_throw (some a) e = ok a

-- To split on a result and keep the equation.
pub Result-cases {ℓ} :
    {A : Type ℓ} (r : Result A) → ((e : AppError) × (r ≡ err e)) ⊎ ((a : A) × (r ≡ ok a))
Result-cases (err e) = inl (e, refl)
Result-cases (ok a) = inr (a, refl)

pub ok_injective {ℓ} : {A : Type ℓ} {a b : A} → ok a ≡ ok b → a ≡ b
ok_injective e = cc

-- What holds of the value of a result that is no error.
pub record Ensures {ℓ κ} {A : Type ℓ} (m : Result A) (P : A → Type κ) : Type (ℓ ⊔ κ) where
  pub at : (a : A) → m ≡ ok a → P a

module _ {ℓ κ μ} {A : Type ℓ} {B : Type κ} {P : B → Type μ} where
  pub Ensures-bind :
      (m : Result A) {f : A → Result B}
      → ((a : A) → m ≡ ok a → Ensures (f a) P)
      → Ensures (m >>= f) P
  unfolding ◌>>=◌
  Ensures-bind (ok a) k = k a refl
  Ensures-bind (err e) k = record { at = λ b h. cc }

module _ {ℓ κ} {A : Type ℓ} {P : A → Type κ} where
  pub Ensures-ok : (a : A) → P a → Ensures (ok a) P
  Ensures-ok a h = record { at = λ b e. subst P (ok_injective e) h }

  pub Ensures-err : (e : AppError) → Ensures (err e) P
  Ensures-err e = record { at = λ b h. cc }

  pub Ensures-if :
      (b : Bool) {m n : Result A}
      → (b ≡ true → Ensures m P)
      → (b ≡ false → Ensures n P)
      → Ensures (if b then m else n) P
  Ensures-if true k l = k refl
  Ensures-if false k l = l refl

-- What a check that threw nothing says.
pub or_throw-some {ℓ} :
    {A : Type ℓ} (o : Option A) (e : AppError) {a : A} → or_throw o e ≡ ok a → o ≡ some a
unfolding or_throw
or_throw-some none e h = cc
or_throw-some (some x) e h = cc

pub throw_if-false : (b : Bool) (e : AppError) {x : Unit {0}} → throw_if b e ≡ ok x → b ≡ false
unfolding throw_if
throw_if-false true e h = cc
throw_if-false false e h = refl

not-false : (b : Bool) → not b ≡ false → b ≡ true
not-false true h = refl
not-false false h = cc

pub throw_unless-true :
    (b : Bool) (e : AppError) {x : Unit {0}} → throw_if (not b) e ≡ ok x → b ≡ true
throw_unless-true b e h = not-false b (throw_if-false (not b) e h)
