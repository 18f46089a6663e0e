-- ===== src/Auth/Admin/Rows.antt =====
-- Which account is found after the writes of the routes.
use silent_whisper.Prelude.{
  ℕ, ◌≡◌, refl, Bool, true, false, not, ◌&&◌, Option, none, some, is_some, List, [], ◌∷◌, ◌++◌,
  arith, ◌==◌, ==_iff, ==_refl, Bool-cases, inl, inr, if◌then◌else◌,
}
use silent_whisper.Text.{Text, text_eq}
use silent_whisper.Errors.{Ensures, Ensures-bind, Ensures-ok, or_throw-some, throw_unless-true}
use silent_whisper.Auth.Accounts.{
  Account, House, Outside, is_active_status, find_account, find_by_name, update_account,
  require_auth,
}
use silent_whisper.Auth.Admin.{is_system_admin_user, require_system_admin}

abbrev pub orelse {ℓ} : {A : Type ℓ} → Option A → Option A → Option A
orelse none o = o
orelse (some a) o = some a

abbrev pub map_account : (Account → Account) → Option Account → Option Account
map_account f none = none
map_account f (some a) = some (f a)

pub find-append :
    (id : ℕ) (xs : List Account) (a : Account)
    → find_account id (xs ++ a ∷ [])
      ≡ orelse (find_account id xs) (if a.id == id then some a else none)
find-append id [] a = ground arith
find-append id (x ∷ xs) a = ground (arith, find-append id xs a)

-- An update that keeps the identifier.
pub find-update :
    (id i : ℕ) (f : Account → Account) (xs : List Account)
    → ((a : Account) → (f a).id ≡ a.id)
    → find_account id (update_account i f xs)
      ≡ (if i == id then map_account f (find_account id xs) else find_account id xs)
find-update id i f [] same = ground arith
find-update id i f (x ∷ xs) same = ground (arith, find-update id i f xs same, same x)

-- No two accounts have one identifier.
abbrev pub distinct : List Account → Bool
distinct [] = true
distinct (a ∷ rest) = not (is_some (find_account a.id rest)) && distinct rest

pub distinct-append :
    (xs : List Account) (a : Account)
    → distinct xs ≡ true
    → is_some (find_account a.id xs) ≡ false
    → distinct (xs ++ a ∷ []) ≡ true
distinct-append [] a d new = refl
distinct-append (x ∷ xs) a d new =
    let other : (x.id == a.id) ≡ false = ground arith in
    let ih = distinct-append xs a (ground (arith, d)) (ground (arith, new, other)) in
    ground (arith, ih, other, find-append x.id xs a)

has-update :
    (id i : ℕ) (f : Account → Account) (xs : List Account)
    → ((a : Account) → (f a).id ≡ a.id)
    → is_some (find_account id (update_account i f xs)) ≡ is_some (find_account id xs)
has-update id i f [] same = refl
has-update id i f (x ∷ xs) same = ground (arith, has-update id i f xs same, same x)

pub distinct-update :
    (i : ℕ) (f : Account → Account) (xs : List Account)
    → ((a : Account) → (f a).id ≡ a.id)
    → distinct xs ≡ true
    → distinct (update_account i f xs) ≡ true
distinct-update i f [] same d = refl
distinct-update i f (x ∷ xs) same d =
    let ih = distinct-update i f xs same (ground (arith, d)) in
    ground (arith, ih, same x, has-update x.id i f xs same, has-update (f x).id i f xs same)

some_injective : {a b : Account} → some a ≡ some b → a ≡ b
some_injective e = cc

-- The account that a name finds is the one of its identifier.
pub by_name-found :
    (lower : Text → Text) (name : Text) (xs : List Account) (a : Account)
    → distinct xs ≡ true
    → find_by_name lower name xs ≡ some a
    → find_account a.id xs ≡ some a
by_name-found lower name [] a d e = absurd (cc)
by_name-found lower name (x ∷ xs) a d e =
    elim (Bool-cases (text_eq (lower x.username) (lower name))) [
      | inl hit ↦
          let same : x ≡ a = some_injective (ground (arith, hit)) in
          rw same (ground (arith, ==_refl a.id))
      | inr missed ↦
          let ih = by_name-found lower name xs a (ground (arith, d)) (ground (arith, missed)) in
          elim (Bool-cases (x.id == a.id)) [
            | inr other ↦ ground (arith, other, ih)
            | inl this ↦
                let twice : find_account x.id xs ≡ some a = rw ((==_iff x.id a.id).0 this) ih in
                absurd (ground (arith, d, twice))
          ]
    ]

-- The caller of a route that needs authentication has an active account.
pub require_auth-active :
    (o : Outside) (b : Option Text) (h : House)
    → Ensures (require_auth o b h) (λ id.
      (a : Account) × (find_account id h.accounts ≡ some a) × (is_active_status a.status ≡ true))
unfolding require_auth
require_auth-active o b h = Ensures-bind _ λ _ _. Ensures-bind _ λ id _. Ensures-bind _ λ a found.
    Ensures-bind _ λ _ live. Ensures-ok id (a, or_throw-some _ _ found, throw_unless-true _ _ live)

pub require_system_admin-active :
    (o : Outside) (b : Option Text) (h : House)
    → Ensures (require_system_admin o b h) (λ id.
      (a : Account) × (find_account id h.accounts ≡ some a)
      × ((is_active_status a.status && a.is_system_admin) ≡ true))
unfolding require_system_admin is_system_admin_user
require_system_admin-active o b h = Ensures-bind _ λ id authenticated. Ensures-bind _ λ _ admin.
    let (a, found, live) = (require_auth-active o b h).at id authenticated in
    let rights = throw_unless-true _ _ admin in
    Ensures-ok id (a, found, ground (arith, rights, found, live))
