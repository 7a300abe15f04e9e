-- ===== src/TablePreference/Config/Stable.antt =====
-- Merging again what a merge gave.
use omni_python_web_template.Base.{
  String, ◌≡◌, refl, sym, ap, ◌∙◌, inl, inr, Bool, false, Option, none, some, List, [], ◌∷◌, nat_eq,
  string_eq, Option-cases, All, is_nil,
}
use omni_python_web_template.Base.Collections.{All-of_includes, All-includes}
use omni_python_web_template.Base.Num.{Fraction}
use omni_python_web_template.Base.Text.{is_empty}
use omni_python_web_template.TablePreference.{TableColumnPreference, or_else}
use omni_python_web_template.TablePreference.Actions.{merge_action_order}
use omni_python_web_template.TablePreference.Actions.Order.{
  merge_action_order_settled, merge_action_order-not_nil, includes-merge_action_order,
}
use omni_python_web_template.TablePreference.Config.{spread, merge_buttons}
use omni_python_web_template.TablePreference.Config.Normal.{
  normal_of_normalized, flag_again, width_again, text_again, order_again, inline_again,
}
use omni_python_web_template.TablePreference.Normalized.{
  raw_column, raw_flag, raw_number, raw_text, raw_order, raw_ids, ids_of, flag_of, positive_of,
  text_of, order_of, inline_max_of, normal, normalize_table_column_preference,
}

-- An optional field under its normaliser `n`: laying it over the default a second time changes nothing.
module _ {A : Type 0} (n : Option A → Option A) (again : (o : Option A) → n (n o) ≡ n o) where
  layered : (p b : Option A) → n p ≡ p → n (or_else (n (or_else p b)) b) ≡ n (or_else p b)
  layered (some x) b h = rw h h
  layered none b h = elim (Option-cases (n b)) [
    | inl gone ↦ rw gone gone
    | inr (y, there) ↦ rw there (rw (← there) (again b))
  ]

abbrev flag : Option Bool → Option Bool
flag o = flag_of (raw_flag o)

abbrev width : Option Fraction → Option Fraction
width o = positive_of (raw_number o)

abbrev text : Option String → Option String
text o = text_of (raw_text o)

abbrev order : Option (List String) → Option (List String)
order o = order_of (raw_order o)

abbrev inline_max : Option Fraction → Option Fraction
inline_max o = inline_max_of (raw_number o)

-- All fields but `pinned`, which is always present after normalising, are normal.
abbrev pub IsSettled : TableColumnPreference → Type 0
IsSettled p = normal p ≡ record p { pinned = (normal p).pinned }

spread_again :
    (b p : TableColumnPreference)
    → IsSettled p
    → normal (spread b (normal (spread b p))) ≡ normal (spread b p)
unfolding normalize_table_column_preference
spread_again b p h = λ i. record (normal (spread b p)) {
  pin_right =
      layered flag (λ o. flag_again (raw_flag o)) p.pin_right b.pin_right (ap (λ q. q.pin_right) h)
        i;
  width = layered width (λ o. width_again (raw_number o)) p.width b.width (ap (λ q. q.width) h) i;
  label = layered text (λ o. text_again (raw_text o)) p.label b.label (ap (λ q. q.label) h) i;
  tip = layered text (λ o. text_again (raw_text o)) p.tip b.tip (ap (λ q. q.tip) h) i;
  action_order =
      layered order (λ o. order_again (raw_order o)) p.action_order b.action_order
        (ap (λ q. q.action_order) h) i;
  action_inline_visible_max =
      layered inline_max (λ o. inline_again (raw_number o)) p.action_inline_visible_max
        b.action_inline_visible_max (ap (λ q. q.action_inline_visible_max) h) i;
}

-- The same where no preference was saved.
spread_self : (b : TableColumnPreference) → normal (spread b (normal b)) ≡ normal b
unfolding normalize_table_column_preference
spread_self b = λ i. record (normal b) {
  pin_right = layered flag (λ o. flag_again (raw_flag o)) none b.pin_right refl i;
  width = layered width (λ o. width_again (raw_number o)) none b.width refl i;
  label = layered text (λ o. text_again (raw_text o)) none b.label refl i;
  tip = layered text (λ o. text_again (raw_text o)) none b.tip refl i;
  action_order = layered order (λ o. order_again (raw_order o)) none b.action_order refl i;
  action_inline_visible_max =
      layered inline_max (λ o. inline_again (raw_number o)) none b.action_inline_visible_max refl i;
}

abbrev pub IsShown : String → Type 0
IsShown id = is_empty id ≡ false

ids_of_shown : (ids : List String) → All IsShown ids → ids_of (raw_ids ids) ≡ ids
ids_of_shown [] h = refl
ids_of_shown (id ∷ ids) (p, h) = rw p (ap (λ r. id ∷ r) (ids_of_shown ids h))

-- The button ids of a column are not empty, and there is at least one.
abbrev pub HasButtons : Option (List String) → Type 0
HasButtons none = Unit
HasButtons (some ids) = All IsShown ids × (is_nil ids ≡ false)

merged_shown :
    (saved : Option (List String)) (ids : List String)
    → All IsShown ids
    → order (some (merge_action_order saved ids)) ≡ some (merge_action_order saved ids)
merged_shown saved ids h = ap some (
    ids_of_shown (merge_action_order saved ids) (
      All-of_includes IsShown (merge_action_order saved ids)
        (λ a m. All-includes IsShown ids h a (sym (includes-merge_action_order a saved ids) ∙ m))))

merged_again :
    (saved : Option (List String)) (ids : List String)
    → is_nil ids ≡ false
    → merge_action_order (some (merge_action_order saved ids)) ids ≡ merge_action_order saved ids
merged_again saved ids h =
    merge_action_order_settled (merge_action_order saved ids) ids h
      (merge_action_order-not_nil saved ids h) (λ a. includes-merge_action_order a saved ids)

abbrev pub remerged :
    Option (List String) → TableColumnPreference → TableColumnPreference → TableColumnPreference
remerged buttons b p = normal (merge_buttons buttons (normal (spread b p)))

pub normal_twice : (q : TableColumnPreference) → normal (normal q) ≡ normal q
normal_twice q = normal_of_normalized (raw_column q)

abbrev with_order : List String → TableColumnPreference → TableColumnPreference
with_order l q = record q { action_order = some l }

normal-with_order :
    (l : List String) (q : TableColumnPreference)
    → order (some l) ≡ some l
    → normal q ≡ q
    → normal (with_order l q) ≡ with_order l q
unfolding normalize_table_column_preference
normal-with_order l q e h = λ i. record (h i) { action_order = e i }

spread-with_order :
    (l : List String) (b q : TableColumnPreference)
    → order (some l) ≡ some l
    → normal (spread b (with_order l q)) ≡ with_order l (normal (spread b q))
unfolding normalize_table_column_preference
spread-with_order l b q e = λ i. record (normal (spread b q)) { action_order = e i }

-- One column that had a saved preference, merged a second time.
pub column_again :
    (buttons : Option (List String)) (b p : TableColumnPreference)
    → HasButtons buttons
    → IsSettled p
    → remerged buttons b (normal (remerged buttons b p)) ≡ remerged buttons b p
column_again none b p has h =
    let once = normal_twice (spread b p) in
    ap (λ r. remerged none b (normal r)) once
    ∙ ap (remerged none b) once
    ∙ normal_twice (spread b (normal (spread b p)))
    ∙ spread_again b p h
    ∙ sym once
column_again (some ids) b p (shown, some_ids) h =
    let q : TableColumnPreference = normal (spread b p) in
    let l : List String = merge_action_order q.action_order ids in
    let kept : order (some l) ≡ some l = merged_shown q.action_order ids shown in
    let once : normal (with_order l q) ≡ with_order l q =
      normal-with_order l q kept (normal_twice (spread b p)) in
    ap (λ r. remerged (some ids) b (normal r)) once
    ∙ ap (remerged (some ids) b) once
    ∙ ap (λ r. normal (merge_buttons (some ids) r))
        (spread-with_order l b q kept ∙ ap (with_order l) (spread_again b p h))
    ∙ ap (λ o. normal (with_order o q)) (merged_again q.action_order ids some_ids)

with_order_self :
    (l : List String) (q : TableColumnPreference) → q.action_order ≡ some l → with_order l q ≡ q
with_order_self l q e = λ i. record q { action_order = sym e i }

-- One column that had none.
pub default_again :
    (buttons : Option (List String)) (b : TableColumnPreference)
    → HasButtons buttons
    → b.action_order ≡ buttons
    → remerged buttons b (normal (normal b)) ≡ normal b
default_again none b has shape =
    ap (remerged none b) (normal_twice b) ∙ normal_twice (spread b (normal b)) ∙ spread_self b
default_again (some ids) b (shown, some_ids) shape =
    let kept : (normal b).action_order ≡ some ids =
      unfold normalize_table_column_preference in
      ap order shape ∙ ap some (ids_of_shown ids shown) in
    ap (remerged (some ids) b) (normal_twice b)
    ∙ ap (λ r. normal (merge_buttons (some ids) r)) (spread_self b)
    ∙ ap (λ o. normal (with_order (merge_action_order o ids) (normal b))) kept
    ∙ ap (λ o. normal (with_order o (normal b)))
        (merge_action_order_settled ids ids some_ids some_ids (λ a. refl))
    ∙ ap normal (with_order_self ids (normal b) kept)
    ∙ normal_twice b
