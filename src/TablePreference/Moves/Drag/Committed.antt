-- ===== src/TablePreference/Moves/Drag/Committed.antt =====
-- Every order that the hook hands over is one of its columns
-- (web/src/components/table/use-table-column-drag-reorder.ts).
use omni_python_web_template.Base.{
  ℕ, suc, String, ◌≡◌, refl, sym, ◌∙◌, subst, ◌⊎◌, inl, inr, Bool, true, false, not, ◌||◌, Option,
  none, some, List, [], ◌∷◌, arith, if◌then◌else◌, ◌==◌, nat_eq, string_eq, Bool-cases, beq_refl,
  All, All-append,
}
use omni_python_web_template.Base.Collections.{
  includes, IsNodup, set_delete, includes-filter, includes-set_delete, filter-IsNodup,
}
use mathlib.Core.List.Perm
use mathlib.Core.List.{Perm}
use omni_python_web_template.TablePreference.Columns.{normalize_column_order_ids}
use omni_python_web_template.TablePreference.Moves.{index_of, insert_at}
use omni_python_web_template.TablePreference.Moves.Places.{insert_at-perm}
use omni_python_web_template.TablePreference.Moves.Order.{Move, by_key, by_button, move, move-Moved}
use omni_python_web_template.TablePreference.Moves.Drag.{
  every_same, dropped, reorder_column_ids_at_point, ColumnDragSession, ColumnDrag, no_drag, Hit,
  animate_to_order, reorder_over, reorder_at_point, is_pointer, finish_session, finish_column_drag,
  commit_some, movable_ids, begin_column_drag, start_drag, DragEvent, drag_started, pointer_moved,
  edge_scrolled, pointer_up, drag_cancelled, key_moved, button_moved, drag_step, drag_run,
}
use omni_python_web_template.Base.{unguarded}
use omni_python_web_template.TablePreference.Moves.Drag.Kept.{
  includes-insert_at, insert_at-IsNodup, normalize-perm, normalize_idempotent, set_delete-perm,
}

module _ (column_ids action_ids : List String) where
  -- An order that is handed over: all the columns, or all that can be moved, once each if the hook's
  -- are, with the action columns last.
  abbrev pub Committed : List String → Type 0
  Committed ids =
      (Perm ids column_ids ⊎ Perm ids (movable_ids column_ids action_ids))
      × (normalize_column_order_ids ids action_ids ≡ ids)

  -- What a drag keeps
  abbrev pub Dragging : Option ColumnDragSession → List String → Type 0
  Dragging none order = Unit
  Dragging (some d) order =
      (includes d.id order ≡ true) × IsNodup order × Perm order (movable_ids column_ids action_ids)

  abbrev pub IsFine : ColumnDrag → Type 0
  IsFine s = Dragging s.drag s.preview_order_ref × All Committed s.reordered

  dropped-Dragging :
      (d : ColumnDragSession) (order next : List String) (upper : Bool) (o : Option ℕ)
      → Dragging (some d) order
      → dropped order d.id upper o ≡ some next
      → Dragging (some d) next
  dropped-Dragging d order next upper none h e = cc
  dropped-Dragging d order next upper (some k) (inside, nodup, same) e =
      let place = if upper then k else suc k in
      let moved = insert_at place d.id (set_delete order d.id) in
      let (fresh, result) = unguarded (every_same moved order) (some moved) next e in
      let taken : includes d.id (set_delete order d.id) ≡ false =
        ground (arith, includes-set_delete d.id order d.id, beq_refl d.id) in
      let it : moved ≡ next = cc in
      subst (λ r. (includes d.id r ≡ true) × IsNodup r × Perm r (movable_ids column_ids action_ids))
        it
        (
          includes-insert_at d.id place d.id (set_delete order d.id)
              ∙ ground (arith, beq_refl d.id),
          insert_at-IsNodup place d.id (set_delete order d.id) taken (filter-IsNodup _ order nodup),
          Perm.trans (insert_at-perm place d.id (set_delete order d.id))
              (Perm.trans (set_delete-perm d.id order nodup inside) same),
        )

  animate-IsFine :
      (d : ColumnDragSession) (o : Option (List String)) (s : ColumnDrag)
      → s.drag ≡ some d
      → ((next : List String) → o ≡ some next → Dragging (some d) next)
      → IsFine s
      → IsFine (animate_to_order o s)
  animate-IsFine d none s e h k = k
  animate-IsFine d (some next) s e h (dragging, done) =
      (subst (λ r. Dragging r next) (sym e) (h next refl), done)

  reorder_over-IsFine :
      (o : Option ColumnDragSession) (hit : Hit) (s : ColumnDrag)
      → s.drag ≡ o
      → IsFine s
      → IsFine (reorder_over o hit s)
  unfolding reorder_column_ids_at_point
  reorder_over-IsFine none hit s e h = h
  reorder_over-IsFine (some d) none s e h = h
  reorder_over-IsFine (some d) (some (target_id, upper)) s e (dragging, done) =
      animate-IsFine d _ s e
        (λ next r.
          let (other, result) =
            unguarded (target_id == "" || target_id == d.id)
              (dropped s.preview_order_ref d.id upper
                (index_of target_id (set_delete s.preview_order_ref d.id)))
              next r in
          dropped-Dragging d s.preview_order_ref next upper _
            (subst (λ o. Dragging o s.preview_order_ref) e dragging) result)
        (dragging, done)

  reorder-IsFine : (hit : Hit) (s : ColumnDrag) → IsFine s → IsFine (reorder_at_point hit s)
  unfolding reorder_at_point
  reorder-IsFine hit s h = reorder_over-IsFine s.drag hit s refl h

  normalized-Committed :
      (ids : List String)
      → Perm ids column_ids ⊎ Perm ids (movable_ids column_ids action_ids)
      → Committed (normalize_column_order_ids ids action_ids)
  normalized-Committed ids (inl whole) =
      (inl (Perm.trans (normalize-perm ids action_ids) whole), normalize_idempotent ids action_ids)
  normalized-Committed ids (inr part) =
      (inr (Perm.trans (normalize-perm ids action_ids) part), normalize_idempotent ids action_ids)

  finish-IsFine :
      (o : Option ColumnDragSession) (commit : Bool) (s : ColumnDrag)
      → s.drag ≡ o
      → IsFine s
      → IsFine (finish_session action_ids o commit s)
  finish-IsFine none commit s e h = h
  finish-IsFine (some d) false s e (dragging, done) = (tt, done)
  finish-IsFine (some d) true s e (dragging, done) =
      let (inside, nodup, same) = subst (λ o. Dragging o s.preview_order_ref) e dragging in
      (
        tt,
        All-append Committed s.reordered _ done
            (normalized-Committed s.preview_order_ref (inr same), tt),
      )

  finish_column_drag-IsFine :
      (commit : Bool) (s : ColumnDrag) → IsFine s → IsFine (finish_column_drag action_ids commit s)
  unfolding finish_column_drag
  finish_column_drag-IsFine commit s h = finish-IsFine s.drag commit s refl h

  begin-IsFine :
      (accepted : Bool) (id : String) (pointer_id : ℕ) (s : ColumnDrag)
      → IsNodup column_ids
      → includes id column_ids ≡ true
      → includes id action_ids ≡ false
      → IsFine s
      → IsFine (begin_column_drag column_ids action_ids accepted id pointer_id s)
  begin-IsFine false id pointer_id s nodup inside own h = h
  begin-IsFine true id pointer_id s nodup inside own (dragging, done) = (
    (
      ground (arith, includes-filter (λ x. not (includes x action_ids)) id column_ids),
      filter-IsNodup (λ x. not (includes x action_ids)) column_ids nodup,
      Perm.rfl,
    ),
    done,
  )

  commit_move-IsFine :
      (id : String) (m : Move) (o : Option (List String)) (s : ColumnDrag)
      → move column_ids id m action_ids ≡ o
      → IsFine s
      → IsFine (commit_some action_ids o s)
  commit_move-IsFine id m none s e h = h
  commit_move-IsFine id m (some next) s e (dragging, done) =
      let (same, rest, last) = move-Moved column_ids id m action_ids next e in
      (dragging, All-append Committed s.reordered _ done (normalized-Committed next (inl same), tt))

  -- A drag starts on one of the hook's columns.
  abbrev pub StartsInside : DragEvent → Type 0
  StartsInside (drag_started accepted id pointer_id) = includes id column_ids ≡ true
  StartsInside (pointer_moved pointer_id hit) = Unit
  StartsInside (edge_scrolled hit) = Unit
  StartsInside (pointer_up pointer_id) = Unit
  StartsInside drag_cancelled = Unit
  StartsInside (key_moved id direction) = Unit
  StartsInside (button_moved id action) = Unit

  drag_step-IsFine :
      (e : DragEvent) (s : ColumnDrag)
      → IsNodup column_ids
      → StartsInside e
      → IsFine s
      → IsFine (drag_step column_ids action_ids s e)
  unfolding start_drag
  drag_step-IsFine (drag_started accepted id pointer_id) s nodup inside h =
      elim (Bool-cases (includes id action_ids)) [
        | inl action ↦ rw action h
        | inr own ↦ rw own (
            begin-IsFine accepted id pointer_id (finish_column_drag action_ids false s) nodup inside
              own (finish_column_drag-IsFine false s h))
      ]
  drag_step-IsFine (pointer_moved pointer_id hit) s nodup inside h =
      elim (Bool-cases (is_pointer s.drag pointer_id)) [
        | inl ours ↦ rw ours (reorder-IsFine hit s h)
        | inr other ↦ rw other h
      ]
  drag_step-IsFine (edge_scrolled hit) s nodup inside h = reorder-IsFine hit s h
  drag_step-IsFine (pointer_up pointer_id) s nodup inside h =
      elim (Bool-cases (is_pointer s.drag pointer_id)) [
        | inl ours ↦ rw ours (finish_column_drag-IsFine true s h)
        | inr other ↦ rw other h
      ]
  drag_step-IsFine drag_cancelled s nodup inside h = finish_column_drag-IsFine false s h
  drag_step-IsFine (key_moved id direction) s nodup inside h =
      commit_move-IsFine id (by_key direction) _ s refl h
  drag_step-IsFine (button_moved id action) s nodup inside h =
      commit_move-IsFine id (by_button action) _ s refl h

  drag_run-IsFine :
      (es : List DragEvent) (s : ColumnDrag)
      → IsNodup column_ids
      → All StartsInside es
      → IsFine s
      → IsFine (drag_run column_ids action_ids s es)
  drag_run-IsFine [] s nodup k h = h
  drag_run-IsFine (e ∷ es) s nodup (i, k) h =
      drag_run-IsFine es (drag_step column_ids action_ids s e) nodup k
        (drag_step-IsFine e s nodup i h)

  -- Where the hook's columns are different ones and drags start on them: whatever the pointer, the
  -- keys and the buttons do, every order handed over has exactly all the columns, or exactly all those
  -- that are not action columns, and its action columns stand last.
  pub drag_run-Committed :
      (es : List DragEvent)
      → IsNodup column_ids
      → All StartsInside es
      → All Committed (drag_run column_ids action_ids no_drag es).reordered
  drag_run-Committed es nodup k = (drag_run-IsFine es no_drag nodup k (tt, tt)).1
