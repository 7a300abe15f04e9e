-- ===== src/TablePreference/Moves/Drag.antt =====
-- Dragging a column in the settings drawer (web/src/components/table/use-table-column-drag-reorder.ts,
-- table-column-drag-session.ts and table-column-drag-utils.ts): the session, the order shown meanwhile
-- and the orders handed to `onReorder`. Where a pointer is on the screen is the browser's: an event
-- carries the card under it and whether it is in the card's upper half. The overlay, the animation and
-- the scrolling at the edges are left out; a frame of the scrolling reorders as a pointer's move does.
pub mod Kept
pub mod Committed
use omni_python_web_template.Base.{
  ℕ, zero, suc, ◌+◌, ◌-◌, ◌*◌, ◌/◌, ◌%◌, ◌≤◌, ◌<◌, min, max, String, ◌≡◌, refl, sym, ap, ◌∙◌, subst,
  ◌≢◌, ◌↔◌, ◌⊎◌, inl, inr, Bool, true, false, not, ◌&&◌, ◌||◌, Option, none, some, List, [], ◌∷◌,
  ◌++◌, map, append-nil, append_assoc, map-append, arith, ltb, leb, if◌then◌else◌, Eq, ◌==◌, nat_eq,
  string_eq, Bool-cases, Option-cases, or_true_cases, and_true_parts, beq_refl, beq_sym, length,
  take, drop, get_elem?, filter, find?, any, all, All, length-append, take-append-drop, length-take,
  length-drop, take_of_length_le, length-map, filter-append, length-filter-le, filter-filter,
  All-append, All-filter_self, sum_of, sum_of-append, is_nil, sum_of-map, All-map,
}
use omni_python_web_template.Base.Collections.{
  includes, IsNodup, set_add, set_add_all, set_of, set_delete, set_delete_all, includes-append,
  includes-filter, includes-set_add, includes-set_add_all, includes-set_delete,
  includes-set_delete_all, IsNodup-append_one, set_add-IsNodup, set_add_all-IsNodup, filter-IsNodup,
  lookup, insert, remove, keys, lookup-insert, lookup-remove, includes-keys-insert,
  keys-insert_of_includes, lookup_cases, keys-insert, lookup_absent, map_ext, All-of_includes,
  All-includes, filter_of_All, set_add_all_of_All,
}
use omni_python_web_template.TablePreference.Columns.{normalize_column_order_ids}
use omni_python_web_template.TablePreference.Moves.{
  index_of, insert_at, Direction, MoveAction, move_column_by_keyboard, move_column_by_action,
}

-- `next.every((id, index) => id === previewOrder[index])`
abbrev pub every_same : List String → List String → Bool
every_same [] order = true
every_same (x ∷ xs) [] = false
every_same (x ∷ xs) (y ∷ ys) = x == y && every_same xs ys

-- The new order, `k` being the place of the card among the others, unless it is the old one.
abbrev pub dropped : List String → String → Bool → Option ℕ → Option (List String)
dropped preview_order drag_id upper none = none
dropped preview_order drag_id upper (some k) =
    let next = insert_at (if upper then k else suc k) drag_id (set_delete preview_order drag_id) in
    if every_same next preview_order then none else some next

unfoldable pub reorder_column_ids_at_point :
    List String → String → String → Bool → Option (List String)
reorder_column_ids_at_point preview_order drag_id target_id upper =
    if target_id == "" || target_id == drag_id
    then none
    else dropped preview_order drag_id upper (index_of target_id (set_delete preview_order drag_id))

-- `ColumnDragSession`: what decides the order
pub record ColumnDragSession : Type 0 where
  pub id : String
  pub pointer_id : ℕ

pub record ColumnDrag : Type 0 where
  -- `dragRef.current` and `previewOrderRef.current`
  pub drag : Option ColumnDragSession
  pub preview_order_ref : List String
  -- the state that is rendered
  pub drag_id : Option String
  pub preview_order : List String
  -- what `onReorder` was called with, the first one first
  pub reordered : List (List String)

abbrev pub no_drag : ColumnDrag
no_drag = record {
  drag = none;
  preview_order_ref = [];
  drag_id = none;
  preview_order = [];
  reordered = [];
}

-- The card under the pointer, and whether the pointer is in its upper half
abbrev pub Hit : Type 0
Hit = Option (String × Bool)

-- `if (next) animateToOrder(next)`
abbrev pub animate_to_order : Option (List String) → ColumnDrag → ColumnDrag
animate_to_order none s = s
animate_to_order (some next) s = record s { preview_order_ref = next; preview_order = next }

abbrev pub reorder_over : Option ColumnDragSession → Hit → ColumnDrag → ColumnDrag
reorder_over none hit s = s
reorder_over (some d) none s = s
reorder_over (some d) (some (target_id, upper)) s =
    animate_to_order (reorder_column_ids_at_point s.preview_order_ref d.id target_id upper) s

unfoldable pub reorder_at_point : Hit → ColumnDrag → ColumnDrag
reorder_at_point hit s = reorder_over s.drag hit s

-- `!drag || drag.pointerId !== event.pointerId`
abbrev pub is_pointer : Option ColumnDragSession → ℕ → Bool
is_pointer none pointer_id = false
is_pointer (some d) pointer_id = d.pointer_id == pointer_id

-- The action columns of the hook
module _ (action_ids : List String) where
  -- `onReorder(normalizeColumnOrderIds(ids, actionIds))`
  abbrev pub commit_order : List String → ColumnDrag → ColumnDrag
  commit_order ids s = record s {
    reordered = s.reordered ++ (normalize_column_order_ids ids action_ids ∷ []);
  }

  abbrev pub finish_session : Option ColumnDragSession → Bool → ColumnDrag → ColumnDrag
  finish_session none commit s = s
  finish_session (some d) commit s =
      let handed = if commit then commit_order s.preview_order_ref s else s in
      record handed { drag = none; drag_id = none; preview_order = [] }

  unfoldable pub finish_column_drag : Bool → ColumnDrag → ColumnDrag
  finish_column_drag commit s = finish_session s.drag commit s

  -- `if (next) commitOrder(next)`
  abbrev pub commit_some : Option (List String) → ColumnDrag → ColumnDrag
  commit_some none s = s
  commit_some (some next) s = commit_order next s

-- All the columns of the hook, and the action columns
module _ (column_ids action_ids : List String) where
  -- `editableColumns.map(...).filter((columnId) => !actionIds.includes(columnId))`
  abbrev pub movable_ids : List String
  movable_ids = filter (λ id. not (includes id action_ids)) column_ids

  -- `beginColumnDrag` with what follows it; `accepted` is its tests on the button and the card.
  abbrev pub begin_column_drag : Bool → String → ℕ → ColumnDrag → ColumnDrag
  begin_column_drag accepted id pointer_id s =
      if accepted
      then record s {
        drag = some record { id = id; pointer_id = pointer_id };
        preview_order_ref = movable_ids;
        drag_id = some id;
        preview_order = movable_ids;
      }
      else s

  unfoldable pub start_drag : Bool → String → ℕ → ColumnDrag → ColumnDrag
  start_drag accepted id pointer_id s =
      if includes id action_ids
      then s
      else begin_column_drag accepted id pointer_id (finish_column_drag action_ids false s)

-- What reaches the hook; `drag_cancelled` is also the window's loss of focus and the end of the hook.
pub data DragEvent : Type 0 where
  drag_started : Bool → String → ℕ → DragEvent
  pointer_moved : ℕ → Hit → DragEvent
  edge_scrolled : Hit → DragEvent
  pointer_up : ℕ → DragEvent
  drag_cancelled : DragEvent
  key_moved : String → Direction → DragEvent
  button_moved : String → MoveAction → DragEvent

module _ (column_ids action_ids : List String) where
  abbrev pub drag_step : ColumnDrag → DragEvent → ColumnDrag
  drag_step s (drag_started accepted id pointer_id) =
      start_drag column_ids action_ids accepted id pointer_id s
  drag_step s (pointer_moved pointer_id hit) =
      if is_pointer s.drag pointer_id then reorder_at_point hit s else s
  drag_step s (edge_scrolled hit) = reorder_at_point hit s
  drag_step s (pointer_up pointer_id) =
      if is_pointer s.drag pointer_id then finish_column_drag action_ids true s else s
  drag_step s drag_cancelled = finish_column_drag action_ids false s
  drag_step s (key_moved id direction) =
      commit_some action_ids (move_column_by_keyboard column_ids id direction action_ids) s
  drag_step s (button_moved id action) =
      commit_some action_ids (move_column_by_action column_ids id action action_ids) s

  abbrev pub drag_run : ColumnDrag → List DragEvent → ColumnDrag
  drag_run s [] = s
  drag_run s (e ∷ es) = drag_run (drag_step s e) es
