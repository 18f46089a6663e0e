-- ===== src/InvitationLinks/Spent.antt =====
-- How often the token of an invitation serves (backend/src/routes/invitations.js).
use silent_whisper.Prelude.{
  ℕ, ◌≡◌, ◌≢◌, refl, Bool, true, false, not, Option, none, some, List, [], ◌∷◌, ◌++◌, arith,
  ==_refl, Bool-cases, inl, inr, subst,
}
use silent_whisper.Text.{Text, text_eq}
use silent_whisper.Errors.{
  Result, ok, err, Ensures, Ensures-bind, Ensures-ok, throw_if-false, or_throw-some,
}
use silent_whisper.Validation.{Param, Value}
use silent_whisper.Workspaces.Tables.{Caller}
use silent_whisper.Auth.Accounts.{Outside}
use silent_whisper.InvitationLinks.{
  Link, LinkStatus, Hall, is_pending_link, find_by_hash, set_link_status, redeemed, revoked,
  invite_into_organization, invite_into_workspace, redeem, revoke, Request, organization_request,
  workspace_request, redeem_request, revoke_request, handle, after, serve_all,
}

abbrev over : Option Link → Bool
over none = false
over (some l) = not (is_pending_link l.link_status)

-- The invitation of a token is redeemed or revoked.
abbrev pub spent : Text → List Link → Bool
spent hash ls = over (find_by_hash hash ls)

spent-append :
    (hash : Text) (ls : List Link) (l : Link)
    → spent hash ls ≡ true
    → spent hash (ls ++ l ∷ []) ≡ true
spent-append hash [] l h = absurd (cc)
spent-append hash (k ∷ ls) l h = elim (Bool-cases (text_eq k.token_hash hash)) [
  | inl this ↦ rw this (ground (arith, h, this))
  | inr other ↦ rw other (spent-append hash ls l (ground (arith, h, other)))
]

spent-set :
    (hash : Text) (id : ℕ) (s : LinkStatus) (ls : List Link)
    → is_pending_link s ≡ false
    → spent hash ls ≡ true
    → spent hash (set_link_status id s ls) ≡ true
spent-set hash id s [] closed h = absurd (cc)
spent-set hash id s (k ∷ ls) closed h = elim (Bool-cases (text_eq k.token_hash hash)) [
  | inl this ↦ ground (arith, h, this, closed)
  | inr other ↦
      let ih = spent-set hash id s ls closed (ground (arith, h, other)) in ground (arith, other, ih)
]

set-spent :
    (hash : Text) (s : LinkStatus) (ls : List Link) (row : Link)
    → is_pending_link s ≡ false
    → find_by_hash hash ls ≡ some row
    → spent hash (set_link_status row.id s ls) ≡ true
set-spent hash s [] row closed found = absurd (cc)
set-spent hash s (k ∷ ls) row closed found = elim (Bool-cases (text_eq k.token_hash hash)) [
  | inl this ↦
      let same : k ≡ row = ground (arith, found, this) in
      subst (λ r. spent hash (set_link_status r.id s (k ∷ ls)) ≡ true) same
        (rw (==_refl k.id, this, closed) refl)
  | inr other ↦
      let ih = set-spent hash s ls row closed (ground (arith, found, other)) in
      ground (arith, other, ih)
]

module _ (hash : Text) (o : Outside) (h : Hall) where
  abbrev StaysSpent : Result Hall → Type 0
  StaysSpent r = spent hash h.links ≡ true → Ensures r (λ h'. spent hash h'.links ≡ true)

  organization-Spent :
      (c : Caller) (p : Param) (v : Value) → StaysSpent (invite_into_organization o c p v h)
  unfolding invite_into_organization
  organization-Spent c p v was = Ensures-bind _ λ _ _. Ensures-bind _ λ _ _. Ensures-bind _ λ _ _.
      Ensures-bind _ λ _ _. Ensures-bind _ λ _ _. Ensures-ok _ (spent-append hash h.links _ was)

  workspace-Spent :
      (c : Caller) (p : Param) (v : Value) → StaysSpent (invite_into_workspace o c p v h)
  unfolding invite_into_workspace
  workspace-Spent c p v was = Ensures-bind _ λ _ _. Ensures-bind _ λ _ _. Ensures-bind _ λ _ _.
      Ensures-bind _ λ _ _. Ensures-bind _ λ _ _. Ensures-ok _ (spent-append hash h.links _ was)

  redeem-Spent : (ip t : Text) (u e p : Value) → StaysSpent (redeem o ip t u e p h)
  unfolding redeem
  redeem-Spent ip t u e p was = Ensures-bind _ λ _ _. Ensures-bind _ λ _ _. Ensures-bind _ λ _ _.
      Ensures-bind _ λ row _. Ensures-bind _ λ _ _. Ensures-bind _ λ _ _. Ensures-bind _ λ _ _.
        Ensures-bind _ λ _ _.
          Ensures-bind _ λ _ _. Ensures-ok _ (spent-set hash row.id redeemed h.links refl was)

  revoke-Spent : (c : Caller) (p : Param) → StaysSpent (revoke c p h)
  unfolding revoke
  revoke-Spent c p was = Ensures-bind _ λ id _. Ensures-bind _ λ row _. Ensures-bind _ λ _ _.
      Ensures-ok _ (elim (Bool-cases (is_pending_link row.link_status)) [
        | inl open' ↦ rw open' (spent-set hash id revoked h.links refl was)
        | inr closed ↦ rw closed was
      ])

  handle-Spent : (r : Request) → StaysSpent (handle o r h)
  unfolding handle
  handle-Spent (organization_request c p v) = organization-Spent c p v
  handle-Spent (workspace_request c p v) = workspace-Spent c p v
  handle-Spent (redeem_request ip t u e p) = redeem-Spent ip t u e p
  handle-Spent (revoke_request c p) = revoke-Spent c p

after-Spent :
    (hash : Text) (h : Hall) (r : Result Hall)
    → spent hash h.links ≡ true
    → Ensures r (λ h'. spent hash h'.links ≡ true)
    → spent hash (after h r).links ≡ true
after-Spent hash h (ok h') was sure = sure.at h' refl
after-Spent hash h (err e) was sure = was

serve_all-Spent :
    (hash : Text) (rs : List (Outside × Request)) (h : Hall)
    → spent hash h.links ≡ true
    → spent hash (serve_all h rs).links ≡ true
unfolding serve_all
serve_all-Spent hash [] h was = was
serve_all-Spent hash ((o, r) ∷ rs) h was =
    serve_all-Spent hash rs (after h (handle o r h))
      (after-Spent hash h (handle o r h) was (handle-Spent hash o h r was))

-- Redeeming spends the invitation of the token.
redeem-Spends :
    (o : Outside) (ip t : Text) (u e p : Value) (h : Hall)
    → Ensures (redeem o ip t u e p h) (λ h'. spent (o.token_env.hash_token t) h'.links ≡ true)
unfolding redeem
redeem-Spends o ip t u e p h = Ensures-bind _ λ _ _. Ensures-bind _ λ _ _. Ensures-bind _ λ _ _.
    Ensures-bind _ λ row found. Ensures-bind _ λ _ _. Ensures-bind _ λ _ _. Ensures-bind _ λ _ _.
      Ensures-bind _ λ _ _. Ensures-bind _ λ _ _.
        Ensures-ok _
          (set-spent (o.token_env.hash_token t) redeemed h.links row refl (or_throw-some _ _ found))

-- What redeeming wants of the invitation.
redeem-Unspent :
    (o : Outside) (ip t : Text) (u e p : Value) (h : Hall)
    → Ensures (redeem o ip t u e p h) (λ h'. spent (o.token_env.hash_token t) h.links ≡ false)
unfolding redeem
redeem-Unspent o ip t u e p h = Ensures-bind _ λ _ _. Ensures-bind _ λ _ _. Ensures-bind _ λ _ _.
    Ensures-bind _ λ row found. Ensures-bind _ λ _ live. Ensures-bind _ λ _ _. Ensures-bind _ λ _ _.
      Ensures-bind _ λ _ _. Ensures-bind _ λ _ _.
        let off = throw_if-false _ _ live in
        Ensures-ok _ (rw (or_throw-some _ _ found) (ground (arith, off)))

-- After an invitation is redeemed, and whatever requests come then, its token makes no account
-- again; the digest of the token stays the same.
pub redeemed_once :
    (o o' : Outside) (ip ip' t : Text) (u u' e e' p p' : Value) (rs : List (Outside × Request))
    (h h' h'' : Hall)
    → o'.token_env.hash_token t ≡ o.token_env.hash_token t
    → redeem o ip t u e p h ≡ ok h'
    → redeem o' ip' t u' e' p' (serve_all h' rs) ≢ ok h''
redeemed_once o o' ip ip' t u u' e e' p p' rs h h' h'' same first second =
    let hash = o.token_env.hash_token t in
    let was = serve_all-Spent hash rs h' ((redeem-Spends o ip t u e p h).at h' first) in
    let open' : spent hash (serve_all h' rs).links ≡ false =
      subst (λ x. spent x (serve_all h' rs).links ≡ false) same
        ((redeem-Unspent o' ip' t u' e' p' (serve_all h' rs)).at h'' second) in
    absurd (cc)
