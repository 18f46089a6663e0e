-- ===== src/DirectMessages/Groups.antt =====
-- Who is in a group.
use silent_whisper.Prelude.{
  ℕ, ◌≤◌, ◌≡◌, refl, subst, true, false, Option, List, [], ◌∷◌, ◌==◌, ltb, length, has, arith,
  ==_refl, ap, sym,
}
use silent_whisper.Errors.{ok, Ensures, Ensures-bind, Ensures-ok, throw_if-false}
use silent_whisper.Validation.{Param, uuid, respelled, malformed}
use silent_whisper.Authz.Database.{group_dm}
use silent_whisper.Workspaces.Tables.{Caller}
use silent_whisper.DirectMessages.{
  Desk, Moment, members_of, repeats, start_group, assert_uuids, without_repeats, drop_text, others,
  max_group_dm_members,
}
use silent_whisper.DirectMessages.Seats.{
  housed, insert_channel-Opened, Opened-members, Opened-housed,
}

length-drop_text : (q : Param) (ps : List Param) → length (drop_text q ps) ≤ length ps
length-drop_text q [] = omega arith
length-drop_text q (p ∷ ps) = let ih = length-drop_text q ps in ground (arith, ih)

length-without_repeats : (ps : List Param) → length (without_repeats ps) ≤ length ps
length-without_repeats [] = omega arith
length-without_repeats (p ∷ ps) =
    let ih = length-without_repeats ps in
    let fewer = length-drop_text p (without_repeats ps) in omega arith

length-others : (caller : ℕ) (ps : List Param) → length (others caller ps) ≤ length ps
length-others caller [] = omega arith
length-others caller (uuid n ∷ ps) = let ih = length-others caller ps in ground (arith, ih)
length-others caller (respelled n ∷ ps) = let ih = length-others caller ps in omega arith
length-others caller (malformed t ∷ ps) = let ih = length-others caller ps in omega arith

assert_uuids-same : (ps : List Param) → Ensures (assert_uuids ps) (λ qs. ps ≡ qs)
unfolding assert_uuids
assert_uuids-same [] = Ensures-ok _ refl
assert_uuids-same (p ∷ ps) =
    Ensures-bind _
      λ _ _. Ensures-bind _ λ qs e. Ensures-ok _ (rw ((assert_uuids-same ps).at qs e) refl)

group_size :
    (caller : ℕ) (ids qs : List Param)
    → assert_uuids ids ≡ ok qs
    → ltb max_group_dm_members (length ids) ≡ false
    → (length (others caller (without_repeats qs)) == 0) ≡ false
    → (2 ≤ length (caller ∷ others caller (without_repeats qs)))
      × (length (caller ∷ others caller (without_repeats qs)) ≤ 21)
group_size caller ids qs valid few somebody =
    let few' : length ids ≤ 20 = ground (arith, few) in
    let same : length qs ≡ length ids = ap length (sym ((assert_uuids-same ids).at qs valid)) in
    let u = length-without_repeats qs in
    let t = length-others caller (without_repeats qs) in (ground (arith, somebody), omega arith)

-- The maker of a group is a member, at least one other is and at most twenty, and nobody is twice.
abbrev pub IsGroup : ℕ → List ℕ → Type 0
IsGroup maker us = (has us maker ≡ true) × (2 ≤ length us) × (length us ≤ 21) × (repeats us ≡ false)

-- A group that is made has its maker as a member, one member more at least and at most twenty,
-- and nobody twice; every member stays one of a known channel.
pub start_group-IsGroup :
    (e : Moment) (c : Caller) (ps : Option (List Param)) (desk : Desk)
    → housed desk.channels desk.channel_members ≡ true
    → Ensures (start_group e c ps desk) (λ d.
      (housed d.channels d.channel_members ≡ true)
      × IsGroup c.id (members_of e.new_id d.channel_members))
unfolding start_group
start_group-IsGroup e c ps desk kept = Ensures-bind _ λ ids _. Ensures-bind _ λ _ _.
    Ensures-bind _ λ _ few. Ensures-bind _ λ qs valid. Ensures-bind _ λ _ some_other.
      Ensures-bind _ λ _ _. record {
        at = λ d opening.
            let targets = others c.id (without_repeats qs) in
            let o = (insert_channel-Opened e c group_dm (c.id ∷ targets) _ desk).at d opening in
            let bounds =
              group_size c.id ids qs valid (throw_if-false _ _ few)
                (throw_if-false _ _ some_other) in
            (
              Opened-housed e group_dm (c.id ∷ targets) desk d kept o,
              subst (IsGroup c.id) (sym (Opened-members e group_dm (c.id ∷ targets) desk d kept o))
                  (rw (==_refl c.id) refl, bounds.0, bounds.1, o.distinct),
            );
      }
