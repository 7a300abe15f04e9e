-- ===== src/Scenarios/Drags.antt =====
-- Columns of a table that are moved and dragged, and changes of a table that are saved.
use omni_python_web_template.Base.{
  ℕ, String, ◌≡◌, refl, true, false, none, some, List, [], ◌∷◌, nat_eq, string_eq, All,
}
use omni_python_web_template.Base.Num.{whole}
use omni_python_web_template.TablePreference.{TablePreferenceConfig}
use omni_python_web_template.TablePreference.Saving.{
  new_saver, SaveEvent, saved, change_later, timer, save_answered, save_run,
}
use omni_python_web_template.TablePreference.Saving.Latest.{
  last_of, last_asked, time_out, save_run-time_out,
}
use omni_python_web_template.TablePreference.Moves.{
  top, down, move_column_by_action, index_of, insert_at, remove_at,
}
use omni_python_web_template.TablePreference.Columns.{normalize_column_order_ids}
use omni_python_web_template.TablePreference.Moves.Order.{Moved, move, by_button, move-Moved}
use omni_python_web_template.TablePreference.Moves.Drag.{
  no_drag, start_drag, finish_column_drag, reorder_at_point, reorder_column_ids_at_point, DragEvent,
  drag_started, pointer_moved, pointer_up, drag_cancelled, button_moved, drag_run,
}
use omni_python_web_template.TablePreference.Moves.Drag.Committed.{Committed, drag_run-Committed}
use omni_python_web_template.TablePreference.Moves.Drag.{start_drag}
use omni_python_web_template.TablePreference.Moves.{move_column_by_action}

abbrev rows_of : ℕ → TablePreferenceConfig
rows_of height = record { row_height = whole height; sort = none; columns = [] }

abbrev changes : List SaveEvent
changes =
    change_later (rows_of 40)
    ∷ change_later (rows_of 50)
    ∷ timer 1
    ∷ save_answered 0 (saved "t1")
    ∷ change_later (rows_of 60)
    ∷ []

save_run-time_out_example :
    (last_of (time_out (save_run new_saver changes).save_timer (save_run new_saver changes)).sent
      ≡ last_asked none changes)
    × ((time_out (save_run new_saver changes).save_timer (save_run new_saver changes)).pending ≡ [])
save_run-time_out_example = save_run-time_out changes

abbrev columns : List String
columns = "name" ∷ "email" ∷ "role" ∷ "actions" ∷ []

abbrev actions : List String
actions = "actions" ∷ []

moved_to_top :
    move columns "role" (by_button top) actions ≡ some ("role" ∷ "name" ∷ "email" ∷ "actions" ∷ [])
unfolding move_column_by_action index_of insert_at remove_at
moved_to_top = refl

move-Moved_example : Moved columns "role" actions ("role" ∷ "name" ∷ "email" ∷ "actions" ∷ [])
move-Moved_example =
    move-Moved columns "role" (by_button top) actions ("role" ∷ "name" ∷ "email" ∷ "actions" ∷ [])
      moved_to_top

abbrev gestures : List DragEvent
gestures =
    drag_started true "email" 1
    ∷ pointer_moved 1 (some ("role", false))
    ∷ pointer_up 1
    ∷ button_moved "name" down
    ∷ drag_started true "name" 2
    ∷ drag_cancelled
    ∷ []

drag_run_test :
    (drag_run columns actions no_drag gestures).reordered
    ≡ ("name" ∷ "role" ∷ "email" ∷ []) ∷ ("email" ∷ "name" ∷ "role" ∷ "actions" ∷ []) ∷ []
unfolding start_drag finish_column_drag move_column_by_action index_of reorder_at_point
    reorder_column_ids_at_point insert_at normalize_column_order_ids remove_at
drag_run_test = refl

drag_run-Committed_example :
    All (Committed columns actions) (drag_run columns actions no_drag gestures).reordered
drag_run-Committed_example =
    drag_run-Committed columns actions gestures (refl, (refl, (refl, (refl, tt))))
      (refl, (tt, (tt, (tt, (refl, (tt, tt))))))
