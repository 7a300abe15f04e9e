-- ===== src/TablePreference/Moves.antt =====
-- Moving one column of the settings drawer by a key or by a button
-- (web/src/components/table/table-column-order-moves.ts).
pub mod Places
pub mod Last
pub mod Order
pub mod Drag
use omni_python_web_template.Base.{
  ℕ, zero, suc, ◌+◌, ◌-◌, ◌*◌, ◌/◌, ◌%◌, ◌≤◌, ◌<◌, min, max, String, ◌≡◌, refl, sym, ap, ◌∙◌, subst,
  ◌≢◌, ◌↔◌, ◌⊎◌, inl, inr, Bool, true, false, not, ◌&&◌, ◌||◌, Option, none, some, List, [], ◌∷◌,
  ◌++◌, map, append-nil, append_assoc, map-append, arith, ltb, leb, if◌then◌else◌, Eq, ◌==◌, nat_eq,
  string_eq, Bool-cases, Option-cases, or_true_cases, and_true_parts, beq_refl, beq_sym, length,
  take, drop, get_elem?, filter, find?, any, all, All, length-append, take-append-drop, length-take,
  length-drop, take_of_length_le, length-map, filter-append, length-filter-le, filter-filter,
  All-append, All-filter_self, sum_of, sum_of-append, is_nil, sum_of-map, All-map,
}
use omni_python_web_template.Base.Collections.{
  includes, IsNodup, set_add, set_add_all, set_of, set_delete, set_delete_all, includes-append,
  includes-filter, includes-set_add, includes-set_add_all, includes-set_delete,
  includes-set_delete_all, IsNodup-append_one, set_add-IsNodup, set_add_all-IsNodup, filter-IsNodup,
  lookup, insert, remove, keys, lookup-insert, lookup-remove, includes-keys-insert,
  keys-insert_of_includes, lookup_cases, keys-insert, lookup_absent, map_ext, All-of_includes,
  All-includes, filter_of_All, set_add_all_of_All,
}
use mathlib.Core.Option
use omni_python_web_template.Base.{nat_beq}

-- `ids.indexOf(id)`; `none` is -1.
unfoldable pub index_of : String → List String → Option ℕ
index_of id [] = none
index_of id (x ∷ xs) = if x == id then some 0 else Option.map suc (index_of id xs)

-- `next[i] = x`
unfoldable pub put_at : ℕ → String → List String → List String
put_at i x [] = []
put_at zero x (y ∷ ys) = x ∷ ys
put_at (suc i) x (y ∷ ys) = y ∷ put_at i x ys

-- `next.splice(i, 1)`
unfoldable pub remove_at : ℕ → List String → List String
remove_at i [] = []
remove_at zero (y ∷ ys) = ys
remove_at (suc i) (y ∷ ys) = y ∷ remove_at i ys

-- `next.splice(i, 0, x)`
unfoldable pub insert_at : ℕ → String → List String → List String
insert_at zero x ys = x ∷ ys
insert_at (suc i) x [] = x ∷ []
insert_at (suc i) x (y ∷ ys) = y ∷ insert_at i x ys

-- -1 and 1
pub data Direction : Type 0 where
  backward : Direction
  forward : Direction

pub data MoveAction : Type 0 where
  top : MoveAction
  up : MoveAction
  down : MoveAction
  bottom : MoveAction

-- `from + direction`; `none` is -1.
abbrev pub step_to : Direction → ℕ → Option ℕ
step_to backward zero = none
step_to backward (suc i) = some i
step_to forward i = some (suc i)

-- `to`; `none` is below 0.
abbrev pub target : MoveAction → ℕ → ℕ → ℕ → Option ℕ
target top from count actions = some 0
target up from count actions = step_to backward from
target down from count actions = some (suc from)
target bottom from count actions = if ltb actions count then some (count - actions - 1) else none

-- `[next[from], next[to]] = [next[to], next[from]]`
unfoldable pub swapped : List String → String → ℕ → String → ℕ → List String
swapped ids id from other to = put_at to id (put_at from other ids)

-- The tests on `to`, with the column there
abbrev pub swap_with :
    List String → String → ℕ → ℕ → Option String → List String → Option (List String)
swap_with ids id from to none action_ids = none
swap_with ids id from to (some other) action_ids =
    if includes other action_ids then none else some (swapped ids id from other to)

abbrev pub swap_to : List String → String → ℕ → Option ℕ → List String → Option (List String)
swap_to ids id from none action_ids = none
swap_to ids id from (some to) action_ids = swap_with ids id from to (get_elem? ids to) action_ids

abbrev pub swap_from :
    List String → String → Option ℕ → Direction → List String → Option (List String)
swap_from ids id none direction action_ids = none
swap_from ids id (some from) direction action_ids =
    swap_to ids id from (step_to direction from) action_ids

unfoldable pub move_column_by_keyboard :
    List String → String → Direction → List String → Option (List String)
move_column_by_keyboard ids id direction action_ids =
    if includes id action_ids then none else swap_from ids id (index_of id ids) direction action_ids

abbrev pub splice_with :
    List String → String → ℕ → ℕ → Option String → List String → Option (List String)
splice_with ids id from to none action_ids = none
splice_with ids id from to (some other) action_ids =
    if includes other action_ids then none else some (insert_at to id (remove_at from ids))

abbrev pub splice_to : List String → String → ℕ → Option ℕ → List String → Option (List String)
splice_to ids id from none action_ids = none
splice_to ids id from (some to) action_ids =
    if nat_beq to from then none else splice_with ids id from to (get_elem? ids to) action_ids

abbrev pub splice_from :
    List String → String → Option ℕ → MoveAction → List String → Option (List String)
splice_from ids id none action action_ids = none
splice_from ids id (some from) action action_ids =
    splice_to ids id from (target action from (length ids) (length action_ids)) action_ids

unfoldable pub move_column_by_action :
    List String → String → MoveAction → List String → Option (List String)
move_column_by_action ids id action action_ids =
    if includes id action_ids then none else splice_from ids id (index_of id ids) action action_ids
