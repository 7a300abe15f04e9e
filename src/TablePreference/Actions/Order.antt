-- ===== src/TablePreference/Actions/Order.antt =====
-- The order of the buttons.
use omni_python_web_template.Base.{
  String, ◌≡◌, refl, sym, ap, ◌∙◌, ◌⊎◌, inl, inr, Bool, true, false, ◌&&◌, ◌||◌, Option, none, some,
  List, [], ◌∷◌, ◌++◌, map-append, arith, if◌then◌else◌, ◌==◌, nat_eq, string_eq, Bool-cases,
  beq_refl, beq_sym, filter, any, is_nil,
}
use omni_python_web_template.Base.Collections.{
  includes, IsNodup, set_add, set_add_all, includes-filter, includes-set_add_all,
  set_add_all-IsNodup, filter-IsNodup, All-of_includes, filter_of_All, set_add_all_of_All,
}
use omni_python_web_template.TablePreference.{TableActionItem, or_default}
use omni_python_web_template.TablePreference.Actions.{
  merge_action_order, item_by_id, pick_items, item_ids, append_unlisted,
  resolve_ordered_action_items,
}

-- Every default button is listed, and nothing else.
pub includes-merge_action_order :
    (a : String) (saved : Option (List String)) (ids : List String)
    → includes a (merge_action_order saved ids) ≡ includes a ids
unfolding merge_action_order
includes-merge_action_order a saved [] = refl
includes-merge_action_order a saved (d ∷ ids) = elim (Bool-cases (is_nil (or_default saved []))) [
  | inl fresh ↦ rw fresh
  | inr kept ↦ rw kept (
      includes-set_add_all a (filter (λ id. includes id (d ∷ ids)) (or_default saved [])) (d ∷ ids)
      ∙ ap (λ b. b || includes a (d ∷ ids))
          (includes-filter (λ id. includes id (d ∷ ids)) a (or_default saved []))
      ∙ absorb (includes a (or_default saved [])) (includes a (d ∷ ids)))
]
  where
    absorb : (p q : Bool) → ((p && q) || q) ≡ q
    absorb p q = ground arith

merge_action_order-IsNodup :
    (saved : Option (List String)) (ids : List String)
    → IsNodup ids
    → IsNodup (or_default saved [])
    → IsNodup (merge_action_order saved ids)
unfolding merge_action_order
merge_action_order-IsNodup saved [] h k = tt
merge_action_order-IsNodup saved (d ∷ ids) h k = elim (Bool-cases (is_nil (or_default saved []))) [
  | inl fresh ↦ rw fresh h
  | inr kept ↦ rw kept (set_add_all-IsNodup _ (d ∷ ids) (filter-IsNodup _ (or_default saved []) k))
]

-- Merging a saved order with the default one lists each default button exactly once and no other
-- id, if neither order repeats an id.
pub merge_action_order_lem :
    (saved : Option (List String)) (ids : List String)
    → IsNodup ids
    → IsNodup (or_default saved [])
    → IsNodup (merge_action_order saved ids)
      × ((a : String) → includes a (merge_action_order saved ids) ≡ includes a ids)
merge_action_order_lem saved ids h k =
    (merge_action_order-IsNodup saved ids h k, λ a. includes-merge_action_order a saved ids)

-- An order that lists exactly the buttons is left as it is.
pub merge_action_order_settled :
    (order ids : List String)
    → is_nil ids ≡ false
    → is_nil order ≡ false
    → ((a : String) → includes a order ≡ includes a ids)
    → merge_action_order (some order) ids ≡ order
unfolding merge_action_order
merge_action_order_settled order ids h k same =
    rw (h, k)
      (ap (λ r. set_add_all r ids)
          (filter_of_All (λ id. includes id ids) order
            (All-of_includes _ order (λ a m. sym (same a) ∙ m)))
        ∙ set_add_all_of_All order ids (All-of_includes _ ids (λ a m. same a ∙ m)))

pub merge_action_order-not_nil :
    (saved : Option (List String)) (ids : List String)
    → is_nil ids ≡ false
    → is_nil (merge_action_order saved ids) ≡ false
merge_action_order-not_nil saved [] h = cc
merge_action_order-not_nil saved (d ∷ ids) h =
    nonempty (merge_action_order saved (d ∷ ids))
      (includes-merge_action_order d saved (d ∷ ids) ∙ rw (beq_refl d) refl)
  where
    nonempty : (xs : List String) → includes d xs ≡ true → is_nil xs ≡ false
    nonempty [] m = cc
    nonempty (x ∷ xs) m = refl

item_by_id-cases :
    (id : String) (items : List TableActionItem)
    → ((item_by_id id items ≡ none) × (includes id (item_ids items) ≡ false))
      ⊎ ((item : TableActionItem) × (item_by_id id items ≡ some item)
          × (item.id ≡ id)
          × (includes id (item_ids items) ≡ true))
unfolding item_by_id
item_by_id-cases id [] = inl (refl, refl)
item_by_id-cases id (item ∷ items) = elim (item_by_id-cases id items) [
  | inr (later, e, same, there) ↦ inr (later, rw e, same, ground arith)
  | inl (e, absent) ↦ elim (Bool-cases (item.id == id)) [
    | inl here ↦ inr (
      item,
      rw (e, here),
      (string_eq.beq_iff item.id id).0 here,
      ground (arith, beq_sym id item.id),
    )
    | inr other ↦ inl (rw (e, other), ground (arith, beq_sym id item.id))
  ]
]

item_ids-pick_items :
    (items : List TableActionItem) (ids : List String)
    → item_ids (pick_items items ids) ≡ filter (λ id. includes id (item_ids items)) ids
unfolding pick_items
item_ids-pick_items items [] = refl
item_ids-pick_items items (id ∷ ids) = elim (item_by_id-cases id items) [
  | inl (e, absent) ↦ rw (e, absent) (item_ids-pick_items items ids)
  | inr (item, e, same, there) ↦
      rw (e, there, same) (ap (λ r. id ∷ r) (item_ids-pick_items items ids))
]

any-id :
    (id : String) (rows : List TableActionItem)
    → any (λ row. row.id == id) rows ≡ includes id (item_ids rows)
any-id id [] = refl
any-id id (row ∷ rows) = ground (arith, any-id id rows, beq_sym id row.id)

item_ids-push :
    (ordered : List TableActionItem) (item : TableActionItem)
    → item_ids (if any (λ row. row.id == item.id) ordered then ordered else ordered ++ (item ∷ []))
      ≡ set_add (item_ids ordered) item.id
item_ids-push ordered item =
    ground (
      arith,
      any-id item.id ordered,
      map-append (λ (i : TableActionItem). i.id) ordered (item ∷ []),
    )

item_ids-append_unlisted :
    (ordered items : List TableActionItem)
    → item_ids (append_unlisted ordered items) ≡ set_add_all (item_ids ordered) (item_ids items)
unfolding append_unlisted
item_ids-append_unlisted ordered [] = refl
item_ids-append_unlisted ordered (item ∷ items) =
    item_ids-append_unlisted
      (if any (λ row. row.id == item.id) ordered then ordered else ordered ++ (item ∷ [])) items
    ∙ ap (λ r. set_add_all r (item_ids items)) (item_ids-push ordered item)

pick_items-nil : (ids : List String) → pick_items [] ids ≡ []
unfolding pick_items item_by_id
pick_items-nil [] = refl
pick_items-nil (id ∷ ids) = pick_items-nil ids

-- The buttons are shown in the order that the settings list for them: the ids on display are the
-- saved order merged with the buttons' own.
pub resolve_ordered-merge :
    (items : List TableActionItem) (order : Option (List String))
    → item_ids (resolve_ordered_action_items items order)
      ≡ merge_action_order order (item_ids items)
unfolding resolve_ordered_action_items merge_action_order
resolve_ordered-merge [] order = elim (Bool-cases (is_nil (or_default order []))) [
  | inl fresh ↦ rw fresh
  | inr kept ↦
      rw kept (unfold append_unlisted in ap item_ids (pick_items-nil (or_default order [])))
]
resolve_ordered-merge (item ∷ items) order = elim (Bool-cases (is_nil (or_default order []))) [
  | inl fresh ↦ rw fresh refl
  | inr kept ↦ rw kept (
      item_ids-append_unlisted (pick_items (item ∷ items) (or_default order [])) (item ∷ items)
      ∙ ap (λ r. set_add_all r (item_ids (item ∷ items)))
          (item_ids-pick_items (item ∷ items) (or_default order [])))
]
