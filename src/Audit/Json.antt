-- ===== src/Audit/Json.antt =====
-- `canonicalize` of backend/src/audit/auditService.js: payloads with their keys in one order.
use silent_whisper.Prelude.{ℕ, ◌≡◌, ◌≢◌, refl, ◌∙◌, Bool, arith, if◌then◌else◌}
use silent_whisper.Text.{Text, text_lt, text_lt_asym, text_lt_trans, text_lt_total}

-- The values of JSON, with the numbers that payloads hold.
mutual
  pub data Json : Type 0 where
    null : Json
    bool : Bool → Json
    num : ℕ → Json
    str : Text → Json
    arr : Items → Json
    obj : Fields → Json

  pub data Items : Type 0 where
    nil : Items
    cons : Json → Items → Items

  pub data Fields : Type 0 where
    end : Fields
    field : Text → Json → Fields → Fields

-- One step of `Object.keys(value).sort()`: the key goes before the first key that is not smaller.
unfoldable pub insert_field : Text → Json → Fields → Fields
insert_field k v end = field k v end
insert_field k v (field j w fs) =
    if text_lt j k then field j w (insert_field k v fs) else field k v (field j w fs)

unfoldable mutual
  pub canonicalize : Json → Json
  canonicalize null = null
  canonicalize (bool b) = bool b
  canonicalize (num n) = num n
  canonicalize (str s) = str s
  canonicalize (arr xs) = arr (canonicalize_items xs)
  canonicalize (obj fs) = obj (canonicalize_fields fs)

  pub canonicalize_items : Items → Items
  canonicalize_items nil = nil
  canonicalize_items (cons v xs) = cons (canonicalize v) (canonicalize_items xs)

  pub canonicalize_fields : Fields → Fields
  canonicalize_fields end = end
  canonicalize_fields (field k v fs) = insert_field k (canonicalize v) (canonicalize_fields fs)

-- Two values that differ in the order of keys only, at any depth. A JSONB column gives a payload
-- back in an order of its own.
mutual
  pub data Reordered : Json → Json → Type 0 where
    same : {v : Json} → Reordered v v
    both : {u v w : Json} → Reordered u v → Reordered v w → Reordered u w
    in_arr : {xs ys : Items} → ReorderedItems xs ys → Reordered (arr xs) (arr ys)
    in_obj : {fs gs : Fields} → ReorderedFields fs gs → Reordered (obj fs) (obj gs)

  pub data ReorderedItems : Items → Items → Type 0 where
    no_items : ReorderedItems nil nil
    item :
        {v w : Json} {xs ys : Items}
        → Reordered v w
        → ReorderedItems xs ys
        → ReorderedItems (cons v xs) (cons w ys)

  pub data ReorderedFields : Fields → Fields → Type 0 where
    no_fields : ReorderedFields end end
    kept :
        {k : Text} {v w : Json} {fs gs : Fields}
        → Reordered v w
        → ReorderedFields fs gs
        → ReorderedFields (field k v fs) (field k w gs)
    swapped :
        {j k : Text} {v w : Json} {fs : Fields}
        → j ≢ k
        → ReorderedFields (field j v (field k w fs)) (field k w (field j v fs))
    then_fields :
        {fs gs hs : Fields} → ReorderedFields fs gs → ReorderedFields gs hs → ReorderedFields fs hs

insert_field_comm :
    (j k : Text) (v w : Json) (fs : Fields)
    → j ≢ k
    → insert_field j v (insert_field k w fs) ≡ insert_field k w (insert_field j v fs)
unfolding insert_field
insert_field_comm j k v w end h = ground (arith, text_lt_asym j k, text_lt_total j k)
insert_field_comm j k v w (field i u fs) h = ground (
  arith,
  text_lt_asym j k,
  text_lt_total j k,
  text_lt_asym k j,
  insert_field_comm j k v w fs h,
  text_lt_trans i j k,
  text_lt_trans i k j,
  text_lt_trans k i j,
  text_lt_trans j i k,
  text_lt_trans j k i,
  text_lt_trans k j i,
  text_lt_total i j,
  text_lt_total i k,
  text_lt_total j i,
  text_lt_total k i,
)

mutual
  unfolding canonicalize canonicalize_items canonicalize_fields

  canonicalize_value : {v w : Json} → Reordered v w → canonicalize v ≡ canonicalize w
  canonicalize_value same = refl
  canonicalize_value (both p q) = canonicalize_value p ∙ canonicalize_value q
  canonicalize_value (in_arr p) = rw (canonicalize_in_items p)
  canonicalize_value (in_obj p) = rw (canonicalize_in_fields p)

  canonicalize_in_items :
      {xs ys : Items} → ReorderedItems xs ys → canonicalize_items xs ≡ canonicalize_items ys
  canonicalize_in_items no_items = refl
  canonicalize_in_items (item p q) = rw (canonicalize_value p, canonicalize_in_items q)

  canonicalize_in_fields :
      {fs gs : Fields} → ReorderedFields fs gs → canonicalize_fields fs ≡ canonicalize_fields gs
  canonicalize_in_fields no_fields = refl
  canonicalize_in_fields (kept p q) = rw (canonicalize_value p, canonicalize_in_fields q)
  canonicalize_in_fields (swapped {j} {k} {v} {w} {fs} h) =
      insert_field_comm j k (canonicalize v) (canonicalize w) (canonicalize_fields fs) h
  canonicalize_in_fields (then_fields p q) = canonicalize_in_fields p ∙ canonicalize_in_fields q

-- Values that differ in the order of keys only, at any depth, have one canonical form.
pub canonicalize-Reordered : (v w : Json) → Reordered v w → canonicalize v ≡ canonicalize w
canonicalize-Reordered v w p = canonicalize_value p
