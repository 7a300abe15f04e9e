-- ===== src/TablePreference/Moves/Order.antt =====
-- A move changes the place of one column only (web/src/components/table/table-column-order-moves.ts).
use omni_python_web_template.Base.{
  ℕ, zero, suc, String, ◌≡◌, refl, sym, ap, ◌∙◌, subst, false, Option, none, some, List, [], ◌∷◌,
  if◌then◌else◌, nat_eq, string_eq, length, get_elem?,
}
use omni_python_web_template.Base.Collections.{includes, set_delete}
use mathlib.Core.List.Perm
use mathlib.Core.List.{Perm}
use omni_python_web_template.TablePreference.Columns.{normalize_column_order_ids}
use omni_python_web_template.TablePreference.Moves.{
  index_of, remove_at, insert_at, Direction, backward, forward, MoveAction, step_to, target,
  swapped, swap_with, swap_to, swap_from, move_column_by_keyboard, splice_with, splice_to,
  splice_from, move_column_by_action,
}
use omni_python_web_template.Base.{nat_beq}
use omni_python_web_template.TablePreference.Moves.Places.{
  get_elem?-index_of, swapped-backward, swapped-forward, insert_at-perm, remove_at-perm,
  set_delete-insert_at, set_delete-remove_at,
}
use omni_python_web_template.TablePreference.Moves.Last.{insert_remove-parted}
use omni_python_web_template.Base.{unguarded}

-- The columns are the same ones, the others stand in the same order, and action columns that stood
-- last still do.
abbrev pub Moved : List String → String → List String → List String → Type 0
Moved ids id action_ids next =
    Perm next ids
    × (set_delete next id ≡ set_delete ids id)
    × (normalize_column_order_ids ids action_ids ≡ ids
        → normalize_column_order_ids next action_ids ≡ next)

insert_remove-Moved :
    (ids : List String) (id o : String) (from to : ℕ) (action_ids : List String)
    → get_elem? ids from ≡ some id
    → get_elem? ids to ≡ some o
    → includes o action_ids ≡ false
    → includes id action_ids ≡ false
    → Moved ids id action_ids (insert_at to id (remove_at from ids))
unfolding normalize_column_order_ids
insert_remove-Moved ids id o from to action_ids here there plain own = (
  Perm.trans (insert_at-perm to id (remove_at from ids)) (remove_at-perm from id ids here),
  set_delete-insert_at to id (remove_at from ids) ∙ set_delete-remove_at from id ids here,
  ordered action_ids plain own,
)
  where
    ordered :
        (actions : List String)
        → includes o actions ≡ false
        → includes id actions ≡ false
        → normalize_column_order_ids ids actions ≡ ids
        → normalize_column_order_ids (insert_at to id (remove_at from ids)) actions
          ≡ insert_at to id (remove_at from ids)
    ordered [] p q h = refl
    ordered (a ∷ actions) p q h =
        insert_remove-parted (λ x. includes x (a ∷ actions)) ids id o from to there p q h

splice_with-Moved :
    (ids : List String) (id : String) (from to : ℕ) (o : Option String)
    (action_ids next : List String)
    → get_elem? ids from ≡ some id
    → includes id action_ids ≡ false
    → get_elem? ids to ≡ o
    → splice_with ids id from to o action_ids ≡ some next
    → Moved ids id action_ids next
splice_with-Moved ids id from to none action_ids next here own there h = cc
splice_with-Moved ids id from to (some o) action_ids next here own there h =
    let (plain, result) =
      unguarded (includes o action_ids) (some (insert_at to id (remove_at from ids))) next h in
    let same : insert_at to id (remove_at from ids) ≡ next = cc in
    subst (Moved ids id action_ids) same
      (insert_remove-Moved ids id o from to action_ids here there plain own)

splice_to-Moved :
    (ids : List String) (id : String) (from : ℕ) (t : Option ℕ) (action_ids next : List String)
    → get_elem? ids from ≡ some id
    → includes id action_ids ≡ false
    → splice_to ids id from t action_ids ≡ some next
    → Moved ids id action_ids next
splice_to-Moved ids id from none action_ids next here own h = cc
splice_to-Moved ids id from (some to) action_ids next here own h =
    let (apart, result) =
      unguarded (nat_beq to from) (splice_with ids id from to (get_elem? ids to) action_ids) next
        h in
    splice_with-Moved ids id from to (get_elem? ids to) action_ids next here own refl result

splice_from-Moved :
    (ids : List String) (id : String) (f : Option ℕ) (action : MoveAction)
    (action_ids next : List String)
    → index_of id ids ≡ f
    → includes id action_ids ≡ false
    → splice_from ids id f action action_ids ≡ some next
    → Moved ids id action_ids next
splice_from-Moved ids id none action action_ids next e own h = cc
splice_from-Moved ids id (some from) action action_ids next e own h =
    splice_to-Moved ids id from (target action from (length ids) (length action_ids)) action_ids
      next (get_elem?-index_of id ids from e) own h

-- A swap with a neighbour is a splice to its place.
swap_with-splice_with :
    (ids : List String) (id : String) (from to : ℕ) (d : Direction) (o : Option String)
    (action_ids : List String)
    → get_elem? ids from ≡ some id
    → get_elem? ids to ≡ o
    → step_to d from ≡ some to
    → swap_with ids id from to o action_ids ≡ splice_with ids id from to o action_ids
unfolding swapped
swap_with-splice_with ids id from to d none action_ids here there e = refl
swap_with-splice_with ids id zero to backward (some o) action_ids here there e = cc
swap_with-splice_with ids id (suc i) to backward (some o) action_ids here there e =
    let same : to ≡ i = cc in
    let behind : get_elem? ids i ≡ some o = subst (λ j. get_elem? ids j ≡ some o) same there in
    subst
      (λ j.
        swap_with ids id (suc i) j (some o) action_ids
        ≡ splice_with ids id (suc i) j (some o) action_ids)
      (sym same)
      (ap (λ r. if includes o action_ids then none else some r)
        (swapped-backward i ids id o behind here))
swap_with-splice_with ids id from to forward (some o) action_ids here there e =
    let same : to ≡ suc from = cc in
    let ahead : get_elem? ids (suc from) ≡ some o =
      subst (λ j. get_elem? ids j ≡ some o) same there in
    subst
      (λ j.
        swap_with ids id from j (some o) action_ids ≡ splice_with ids id from j (some o) action_ids)
      (sym same)
      (ap (λ r. if includes o action_ids then none else some r)
        (swapped-forward from ids id o here ahead))

swap_to-Moved :
    (ids : List String) (id : String) (from : ℕ) (d : Direction) (t : Option ℕ)
    (action_ids next : List String)
    → get_elem? ids from ≡ some id
    → includes id action_ids ≡ false
    → step_to d from ≡ t
    → swap_to ids id from t action_ids ≡ some next
    → Moved ids id action_ids next
swap_to-Moved ids id from d none action_ids next here own e h = cc
swap_to-Moved ids id from d (some to) action_ids next here own e h =
    splice_with-Moved ids id from to (get_elem? ids to) action_ids next here own refl
      (sym (swap_with-splice_with ids id from to d (get_elem? ids to) action_ids here refl e) ∙ h)

swap_from-Moved :
    (ids : List String) (id : String) (f : Option ℕ) (d : Direction) (action_ids next : List String)
    → index_of id ids ≡ f
    → includes id action_ids ≡ false
    → swap_from ids id f d action_ids ≡ some next
    → Moved ids id action_ids next
swap_from-Moved ids id none d action_ids next e own h = cc
swap_from-Moved ids id (some from) d action_ids next e own h =
    swap_to-Moved ids id from d (step_to d from) action_ids next (get_elem?-index_of id ids from e)
      own refl h

-- A key or a button
pub data Move : Type 0 where
  by_key : Direction → Move
  by_button : MoveAction → Move

abbrev pub move : List String → String → Move → List String → Option (List String)
move ids id (by_key d) action_ids = move_column_by_keyboard ids id d action_ids
move ids id (by_button a) action_ids = move_column_by_action ids id a action_ids

-- Where a key or a button moves a column, the columns are the same ones, all the others stand in the
-- same order among themselves, and the action columns, if they stood last, still stand last.
pub move-Moved :
    (ids : List String) (id : String) (m : Move) (action_ids next : List String)
    → move ids id m action_ids ≡ some next
    → Moved ids id action_ids next
unfolding move_column_by_keyboard move_column_by_action
move-Moved ids id (by_key d) action_ids next h =
    let (own, result) =
      unguarded (includes id action_ids) (swap_from ids id (index_of id ids) d action_ids) next h in
    swap_from-Moved ids id (index_of id ids) d action_ids next refl own result
move-Moved ids id (by_button a) action_ids next h =
    let (own, result) =
      unguarded (includes id action_ids) (splice_from ids id (index_of id ids) a action_ids) next
        h in
    splice_from-Moved ids id (index_of id ids) a action_ids next refl own result
