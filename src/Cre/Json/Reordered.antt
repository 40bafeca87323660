-- ===== src/Cre/Json/Reordered.antt =====
-- The order of an object's members does not matter to `stableStringify` of
-- packages/cre/src/evidence.ts.
use bufi.Base.{◌≡◌, ◌≢◌, refl, ap, ◌∙◌, true, false, List, [], ◌∷◌, arith, inl, inr, ◌⊎◌}
use bufi.Base.Texts.{Text}
use bufi.Cre.Checked.{Checked}
use bufi.Cre.Json.{
  Value, array, object, Items, no_item, item, Fields, no_field, field, Printed, text_leb,
  insert_printed, as_member, stable_stringify, print_before, print_items, print_fields,
}

text_leb_total : (s t : Text) → (text_leb s t ≡ true) ⊎ (text_leb t s ≡ true)
text_leb_total [] t = inl refl
text_leb_total (x ∷ xs) [] = inr refl
text_leb_total (x ∷ xs) (y ∷ ys) = ground (arith, text_leb_total xs ys)

text_leb_antisym : (s t : Text) → text_leb s t ≡ true → text_leb t s ≡ true → s ≡ t
text_leb_antisym [] [] p q = refl
text_leb_antisym [] (y ∷ ys) p q = ground arith
text_leb_antisym (x ∷ xs) [] p q = ground arith
text_leb_antisym (x ∷ xs) (y ∷ ys) p q = ground (arith, text_leb_antisym xs ys)

text_leb_trans : (s t u : Text) → text_leb s t ≡ true → text_leb t u ≡ true → text_leb s u ≡ true
text_leb_trans [] t u p q = refl
text_leb_trans (x ∷ xs) [] u p q = ground arith
text_leb_trans (x ∷ xs) (y ∷ ys) [] p q = ground arith
text_leb_trans (x ∷ xs) (y ∷ ys) (z ∷ zs) p q = ground (arith, text_leb_trans xs ys zs)

text_leb_different :
    (s t : Text)
    → s ≢ t
    → ((text_leb s t ≡ true) × (text_leb t s ≡ false))
      ⊎ ((text_leb s t ≡ false) × (text_leb t s ≡ true))
text_leb_different s t d = ground (arith, text_leb_total s t, text_leb_antisym s t)

-- Members with different keys may be inserted in either order.
insert_printed-commute :
    (p q : Printed) (ps : List Printed)
    → p.key ≢ q.key
    → insert_printed p (insert_printed q ps) ≡ insert_printed q (insert_printed p ps)
unfolding insert_printed
insert_printed-commute p q [] d = ground (arith, text_leb_different p.key q.key d)
insert_printed-commute p q (r ∷ rs) d = ground (
  arith,
  text_leb_different p.key q.key d,
  text_leb_trans p.key q.key r.key,
  text_leb_trans q.key p.key r.key,
  insert_printed-commute p q rs d,
)

-- The same value, with the members of its objects in another order.
mutual
  pub data Reordered : Value → Value → Type 0 where
    same : (v : Value) → Reordered v v
    in_array : {xs ys : Items} → ReorderedItems xs ys → Reordered (array xs) (array ys)
    in_object : {fs gs : Fields} → ReorderedFields fs gs → Reordered (object fs) (object gs)

  pub data ReorderedItems : Items → Items → Type 0 where
    ends : ReorderedItems no_item no_item
    then_item :
        {v w : Value} {xs ys : Items}
        → Reordered v w
        → ReorderedItems xs ys
        → ReorderedItems (item v xs) (item w ys)

  pub data ReorderedFields : Fields → Fields → Type 0 where
    closes : ReorderedFields no_field no_field
    then_field :
        (key : Text) {v w : Value} {fs gs : Fields}
        → Reordered v w
        → ReorderedFields fs gs
        → ReorderedFields (field key v fs) (field key w gs)
    swapped :
        (key other : Text) (v w : Value) (fs : Fields)
        → key ≢ other
        → ReorderedFields (field key v (field other w fs)) (field other w (field key v fs))
    joined :
        {fs gs hs : Fields} → ReorderedFields fs gs → ReorderedFields gs hs → ReorderedFields fs hs

-- A member's value is undefined before and after.
as_member-Reordered :
    (key : Text) (v w : Value)
    → Reordered v w
    → stable_stringify v ≡ stable_stringify w
    → as_member key v (stable_stringify v) ≡ as_member key w (stable_stringify w)
as_member-Reordered key _ _ (Reordered.same v) e = refl
as_member-Reordered key _ _ (Reordered.in_array r) e = ap (as_member key (array no_item)) e
as_member-Reordered key _ _ (Reordered.in_object r) e = ap (as_member key (array no_item)) e

print_before-same :
    {xs ys : Items} (first rest : Checked Text)
    → ReorderedItems xs ys
    → print_before xs first rest ≡ print_before ys first rest
print_before-same first rest ReorderedItems.ends = refl
print_before-same first rest (ReorderedItems.then_item r rs) = refl

mutual
  unfolding stable_stringify

  stable_stringify-same : (v w : Value) → Reordered v w → stable_stringify v ≡ stable_stringify w
  stable_stringify-same _ _ (Reordered.same v) = refl
  stable_stringify-same _ _ (Reordered.in_array r) = rw (print_items-same _ _ r) refl
  stable_stringify-same _ _ (Reordered.in_object r) = rw (print_fields-same _ _ r) refl

  print_items-same : (xs ys : Items) → ReorderedItems xs ys → print_items xs ≡ print_items ys
  print_items-same _ _ ReorderedItems.ends = refl
  print_items-same _ _ (ReorderedItems.then_item r rs) =
      print_before-same _ _ rs ∙ rw (stable_stringify-same _ _ r, print_items-same _ _ rs) refl

  print_fields-same : (fs gs : Fields) → ReorderedFields fs gs → print_fields fs ≡ print_fields gs
  print_fields-same _ _ ReorderedFields.closes = refl
  print_fields-same _ _ (ReorderedFields.then_field key {v} {w} r rs) =
      rw (as_member-Reordered key v w r (stable_stringify-same v w r), print_fields-same _ _ rs)
        refl
  print_fields-same _ _ (ReorderedFields.swapped key other v w fs d) =
      insert_printed-commute _ _ (print_fields fs) d
  print_fields-same _ _ (ReorderedFields.joined rs ss) =
      print_fields-same _ _ rs ∙ print_fields-same _ _ ss

-- Two values that differ in the order of the members of their objects, at any depth, have one text.
pub stable_stringify-Reordered :
    (v w : Value) → Reordered v w → stable_stringify v ≡ stable_stringify w
stable_stringify-Reordered = stable_stringify-same
