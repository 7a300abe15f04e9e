-- ===== src/TablePreference/Actions.antt =====
-- types/table-preference.ts: the buttons of the action column.
pub mod Order
pub mod Split
use omni_python_web_template.Base.{
  ℕ, zero, suc, ◌+◌, ◌-◌, ◌*◌, ◌/◌, ◌%◌, ◌≤◌, ◌<◌, min, max, String, ◌≡◌, refl, sym, ap, ◌∙◌, subst,
  ◌≢◌, ◌↔◌, ◌⊎◌, inl, inr, Bool, true, false, not, ◌&&◌, ◌||◌, Option, none, some, List, [], ◌∷◌,
  ◌++◌, map, append-nil, append_assoc, map-append, arith, ltb, leb, if◌then◌else◌, Eq, ◌==◌, nat_eq,
  string_eq, Bool-cases, Option-cases, or_true_cases, and_true_parts, beq_refl, beq_sym, length,
  take, drop, get_elem?, filter, find?, any, all, All, length-append, take-append-drop, length-take,
  length-drop, take_of_length_le, length-map, filter-append, length-filter-le, filter-filter,
  All-append, All-filter_self, sum_of, sum_of-append, is_nil, sum_of-map, All-map,
}
use omni_python_web_template.Base.Collections.{
  includes, IsNodup, set_add, set_add_all, set_of, set_delete, set_delete_all, includes-append,
  includes-filter, includes-set_add, includes-set_add_all, includes-set_delete,
  includes-set_delete_all, IsNodup-append_one, set_add-IsNodup, set_add_all-IsNodup, filter-IsNodup,
  lookup, insert, remove, keys, lookup-insert, lookup-remove, includes-keys-insert,
  keys-insert_of_includes, lookup_cases,
}
use omni_python_web_template.Base.Num.{Fraction, round, whole}
use omni_python_web_template.TablePreference.{
  TableActionItem, or_default, inline_max_default, inline_max_min, inline_max_max,
}

unfoldable pub resolve_inline_visible_max : Option Fraction → ℕ
resolve_inline_visible_max value =
    max inline_max_min (min inline_max_max (round (or_default value inline_max_default)))

pub record SplitItems : Type 0 where
  pub inline : List TableActionItem
  pub folded : List TableActionItem

unfoldable pub split_table_action_items : List TableActionItem → Option Fraction → SplitItems
unfolding resolve_inline_visible_max
split_table_action_items items inline_max =
    let most = resolve_inline_visible_max inline_max in
    if leb (length items) (most + 1)
    then record { inline = items; folded = [] }
    else record { inline = take most items; folded = drop most items }

-- `!saved?.length`, and the loop that appends the default ids that are missing
unfoldable pub merge_action_order : Option (List String) → List String → List String
merge_action_order saved default_ids =
    if is_nil default_ids
    then []
    else if is_nil (or_default saved [])
    then default_ids
    else set_add_all (filter (λ id. includes id default_ids) (or_default saved [])) default_ids

-- `new Map(items.map((item) => [item.id, item])).get(id)`: the last item with this id
unfoldable pub item_by_id : String → List TableActionItem → Option TableActionItem
item_by_id id [] = none
item_by_id id (item ∷ items) = elim (item_by_id id items) [
  | some later ↦ some later
  | none ↦ if item.id == id then some item else none
]

-- `if (item) ordered.push(item)`, with what is pushed later
abbrev pub push_found : Option TableActionItem → List TableActionItem → List TableActionItem
push_found none later = later
push_found (some item) later = item ∷ later

unfoldable pub pick_items : List TableActionItem → List String → List TableActionItem
pick_items items [] = []
pick_items items (id ∷ ids) = push_found (item_by_id id items) (pick_items items ids)

abbrev pub item_ids : List TableActionItem → List String
item_ids = map (λ item. item.id)

unfoldable pub append_unlisted : List TableActionItem → List TableActionItem → List TableActionItem
append_unlisted ordered [] = ordered
append_unlisted ordered (item ∷ items) =
    append_unlisted
      (if any (λ row. row.id == item.id) ordered then ordered else ordered ++ (item ∷ [])) items

unfoldable pub resolve_ordered_action_items :
    List TableActionItem → Option (List String) → List TableActionItem
resolve_ordered_action_items items action_order =
    if is_nil (or_default action_order [])
    then items
    else append_unlisted (pick_items items (or_default action_order [])) items
