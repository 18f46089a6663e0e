-- ===== src/Organizations/Rows.antt =====
-- The rows of organization_members after the writes of the routes.
use silent_whisper.Prelude.{
  ℕ, ◌+◌, ◌≤◌, ◌≡◌, refl, sym, subst, Bool, true, false, ◌&&◌, inl, inr, Option, none, some,
  is_some, List, [], ◌∷◌, ◌++◌, arith, ◌==◌, ==_iff, Bool-cases, if◌then◌else◌, update,
}
use silent_whisper.Authz.Permissions.{OrgRole}
use silent_whisper.Authz.Database.{Organization, OrgMember, org_role_of}
use silent_whisper.Workspaces.Tables.{map_row}
use silent_whisper.Organizations.{is_seat, set_org_role, drop_seat}

-- How many rows a user has in an organization.
abbrev pub seats : ℕ → ℕ → List OrgMember → ℕ
seats o u [] = 0
seats o u (m ∷ ms) = let rest = seats o u ms in if is_seat o u m then rest + 1 else rest

pub role-append :
    (o u : ℕ) (ms : List OrgMember) (m : OrgMember)
    → is_seat o u m ≡ false
    → org_role_of o u (ms ++ m ∷ []) ≡ org_role_of o u ms
unfolding org_role_of
role-append o u [] m other = ground (arith, other)
role-append o u (x ∷ ms) m other = ground (arith, role-append o u ms m other)

pub role-set :
    (o u p v : ℕ) (r : OrgRole) (ms : List OrgMember)
    → (o == p && u == v) ≡ false
    → org_role_of p v (set_org_role o u r ms) ≡ org_role_of p v ms
unfolding org_role_of
role-set o u p v r [] other = refl
role-set o u p v r (x ∷ ms) other = ground (arith, role-set o u p v r ms other, other)

pub role-drop :
    (o u p v : ℕ) (ms : List OrgMember)
    → (o == p && u == v) ≡ false
    → org_role_of p v (drop_seat o u ms) ≡ org_role_of p v ms
unfolding org_role_of
role-drop o u p v [] other = refl
role-drop o u p v (x ∷ ms) other = ground (arith, role-drop o u p v ms other, other)

pub seats-append :
    (o u : ℕ) (ms : List OrgMember) (m : OrgMember)
    → seats o u (ms ++ m ∷ []) ≡ seats o u ms + (if is_seat o u m then 1 else 0)
seats-append o u [] m = ground arith
seats-append o u (x ∷ ms) m = ground (arith, seats-append o u ms m)

pub seats-set :
    (o u p v : ℕ) (r : OrgRole) (ms : List OrgMember)
    → seats p v (set_org_role o u r ms) ≡ seats p v ms
seats-set o u p v r [] = refl
seats-set o u p v r (x ∷ ms) = ground (arith, seats-set o u p v r ms)

pub seats-drop : (o u p v : ℕ) (ms : List OrgMember) → seats p v (drop_seat o u ms) ≤ seats p v ms
seats-drop o u p v [] = omega arith
seats-drop o u p v (x ∷ ms) = ground (arith, seats-drop o u p v ms)

pub no_seat : (o u : ℕ) (ms : List OrgMember) → org_role_of o u ms ≡ none → seats o u ms ≡ 0
unfolding org_role_of
no_seat o u [] h = refl
no_seat o u (x ∷ ms) h = ground (arith, no_seat o u ms)

-- A row lies in an organization that is there.
abbrev pub housed : (ℕ → Option Organization) → List OrgMember → Bool
housed os [] = true
housed os (m ∷ ms) = is_some (os m.organization_id) && housed os ms

pub empty_house :
    (os : ℕ → Option Organization) (o u : ℕ) (ms : List OrgMember)
    → os o ≡ none
    → housed os ms ≡ true
    → seats o u ms ≡ 0
empty_house os o u [] e h = refl
empty_house os o u (x ∷ ms) e h =
    let ih = empty_house os o u ms e (ground (arith, h)) in
    elim (Bool-cases (x.organization_id == o)) [
      | inr other ↦ ground (arith, other, ih)
      | inl this ↦
          let gone : os x.organization_id ≡ none = rw ((==_iff x.organization_id o).0 this) e in
          absurd (ground (arith, gone, h))
    ]

pub housed-append :
    (os : ℕ → Option Organization) (ms : List OrgMember) (m : OrgMember)
    → housed os ms ≡ true
    → is_some (os m.organization_id) ≡ true
    → housed os (ms ++ m ∷ []) ≡ true
housed-append os [] m h k = ground (arith, k)
housed-append os (x ∷ ms) m h k = ground (arith, housed-append os ms m)

pub housed-set :
    (os : ℕ → Option Organization) (o u : ℕ) (r : OrgRole) (ms : List OrgMember)
    → housed os ms ≡ true
    → housed os (set_org_role o u r ms) ≡ true
housed-set os o u r [] h = refl
housed-set os o u r (x ∷ ms) h = ground (arith, housed-set os o u r ms)

pub housed-drop :
    (os : ℕ → Option Organization) (o u : ℕ) (ms : List OrgMember)
    → housed os ms ≡ true
    → housed os (drop_seat o u ms) ≡ true
housed-drop os o u [] h = refl
housed-drop os o u (x ∷ ms) h = ground (arith, housed-drop os o u ms)

pub housed-update :
    (os : ℕ → Option Organization) (o : ℕ) (row : Option Organization) (ms : List OrgMember)
    → (is_some (os o) ≡ true → is_some row ≡ true)
    → housed os ms ≡ true
    → housed (update os o row) ms ≡ true
housed-update os o row [] k h = refl
housed-update os o row (x ∷ ms) k h =
    let ih = housed-update os o row ms k (ground (arith, h)) in
    elim (Bool-cases (o == x.organization_id)) [
      | inr other ↦ ground (arith, other, ih, h)
      | inl this ↦
          let there : is_some (os x.organization_id) ≡ true = ground (arith, h) in
          let kept : is_some row ≡ true = k (
            subst (λ i. is_some (os i) ≡ true) (sym ((==_iff o x.organization_id).0 this)) there) in
          ground (arith, this, kept, ih)
    ]

pub role_housed :
    (os : ℕ → Option Organization) (o u : ℕ) (ms : List OrgMember) (r : OrgRole)
    → housed os ms ≡ true
    → org_role_of o u ms ≡ some r
    → is_some (os o) ≡ true
unfolding org_role_of
role_housed os o u [] r h e = absurd (cc)
role_housed os o u (x ∷ ms) r h e = elim (Bool-cases (is_seat o u x)) [
  | inr other ↦ role_housed os o u ms r (ground (arith, h)) (ground (arith, other, e))
  | inl this ↦
      let there : is_some (os x.organization_id) ≡ true = ground (arith, h) in
      subst (λ i. is_some (os i) ≡ true) ((==_iff x.organization_id o).0 (ground (arith, this)))
        there
]

pub is_some-map :
    (f : Organization → Organization) (o : Option Organization)
    → is_some o ≡ true
    → is_some (map_row f o) ≡ true
is_some-map f none h = absurd (cc)
is_some-map f (some x) h = refl
