-- ===== src/Organizations/Seated.antt =====
-- One row for a user in an organization.
use silent_whisper.Prelude.{
  ℕ, ◌≤◌, ◌≡◌, refl, sym, true, ◌&&◌, inl, inr, is_some, List, [], ◌∷◌, ◌++◌, arith, ◌==◌, ==_iff,
  ==_refl, Bool-cases,
}
use silent_whisper.Errors.{Result, ok, err, Ensures}
use silent_whisper.Authz.Permissions.{OrgRole, org_admin}
use silent_whisper.Authz.Database.{Db, record_event}
use silent_whisper.Workspaces.Tables.{Caller}
use silent_whisper.Organizations.{seat, Request, handle, after, serve_all}
use silent_whisper.Organizations.Rules.{
  Manages, Change, founded, administered, enrolled, appointed, expelled, departed, Effect, nothing,
  audited,
}
use silent_whisper.Organizations.Refines.{handle-Effect}
use silent_whisper.Organizations.Rows.{
  seats-append, seats-set, seats-drop, no_seat, empty_house, housed-append, housed-set, housed-drop,
  housed-update, role_housed, is_some-map, seats, housed,
}

-- At most one row for a user in an organization, and every row in one that is there.
pub record Seated (db : Db) : Type 0 where
  pub single : (o u : ℕ) → seats o u db.organization_members ≤ 1
  pub inside : housed db.organizations db.organization_members ≡ true

module _ (u : ℕ) (db : Db) (h : Seated db) where
  -- One row more, for a user who had none.
  one_more :
      (o v : ℕ) (r : OrgRole)
      → seats o v db.organization_members ≡ 0
      → (p w : ℕ) → seats p w (db.organization_members ++ seat o v r ∷ []) ≤ 1
  one_more o v r none_yet p w =
      let before = h.single p w in
      elim (Bool-cases (o == p && v == w)) [
        | inr other ↦
            ground (arith, seats-append p w db.organization_members (seat o v r), other, before)
        | inl this ↦
            let same_o : o ≡ p = (==_iff o p).0 (ground (arith, this)) in
            let same_v : v ≡ w = (==_iff v w).0 (ground (arith, this)) in
            rw (sym same_o, sym same_v)
              (ground (arith, seats-append o v db.organization_members (seat o v r), none_yet))
      ]

  manager_exists : (o : ℕ) → Manages db u o → is_some (db.organizations o) ≡ true
  manager_exists o (inl (_, there)) = there
  manager_exists o (inr (r, role, _)) =
      role_housed db.organizations o u db.organization_members r h.inside role

  Change-Seated : (db' : Db) → Change u db db' → Seated db'
  Change-Seated db' (founded o t admin new) = record {
    single = one_more o u org_admin (empty_house db.organizations o u _ new h.inside);
    inside =
        housed-append _ db.organization_members (seat o u org_admin)
          (housed-update db.organizations o _ db.organization_members (λ x. refl) h.inside)
          (ground (arith, ==_refl o));
  }
  Change-Seated db' (administered o f admin there) = record {
    single = h.single;
    inside = housed-update db.organizations o _ db.organization_members (is_some-map f _) h.inside;
  }
  Change-Seated db' (enrolled o v r may live new) = record {
    single = one_more o v r (no_seat o v db.organization_members new);
    inside =
        housed-append db.organizations db.organization_members (seat o v r) h.inside
          (manager_exists o may);
  }
  Change-Seated db' (appointed o v r may live there) = record {
    single = λ p w.
        let le = h.single p w in ground (arith, seats-set o v p w r db.organization_members, le);
    inside = housed-set db.organizations o v r db.organization_members h.inside;
  }
  Change-Seated db' (expelled o v may live) = record {
    single =
        λ p w. let le = h.single p w in omega (arith, seats-drop o v p w db.organization_members);
    inside = housed-drop db.organizations o v db.organization_members h.inside;
  }
  Change-Seated db' (departed o live there) = record {
    single =
        λ p w. let le = h.single p w in omega (arith, seats-drop o u p w db.organization_members);
    inside = housed-drop db.organizations o u db.organization_members h.inside;
  }

Effect-Seated : (u : ℕ) (db db' : Db) → Seated db → Effect u db db' → Seated db'
unfolding record_event
Effect-Seated u db db' h nothing = h
Effect-Seated u db db' h (audited {db' = mid} e actor change) =
    let k = Change-Seated u db h mid change in record { single = k.single; inside = k.inside }

after-Seated :
    (u : ℕ) (db : Db) (r : Result Db)
    → Seated db
    → Ensures r (λ db'. Effect u db db')
    → Seated (after db r)
after-Seated u db (ok db') h sure = Effect-Seated u db db' h (sure.at db' refl)
after-Seated u db (err e) h sure = h

-- Any requests keep it so that a user has at most one row in an organization, and that every row is
-- of an organization that is there.
pub serve_all-Seated :
    (rs : List (Caller × Request)) (db : Db) → Seated db → Seated (serve_all db rs)
unfolding serve_all
serve_all-Seated [] db h = h
serve_all-Seated ((c, r) ∷ rs) db h =
    serve_all-Seated rs (after db (handle c r db))
      (after-Seated c.id db (handle c r db) h (handle-Effect c r db))
