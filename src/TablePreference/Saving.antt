-- ===== src/TablePreference/Saving.antt =====
-- Saving a configuration to the server (web/src/hooks/table-preferences-helpers.ts):
-- `scheduleTablePreferenceSave`, which waits half a second for a later change, and
-- `flushTablePreferenceSave`, which does not wait, with the callbacks that run later. `pending` is the
-- browser's own list of timers: `setTimeout` adds one with a new number, `clearTimeout` takes it out,
-- and one that is there may run. Its length in milliseconds plays no part.
pub mod Latest
use omni_python_web_template.Base.{
  ℕ, zero, suc, ◌+◌, ◌-◌, ◌*◌, ◌/◌, ◌%◌, ◌≤◌, ◌<◌, min, max, String, ◌≡◌, refl, sym, ap, ◌∙◌, subst,
  ◌≢◌, ◌↔◌, ◌⊎◌, inl, inr, Bool, true, false, not, ◌&&◌, ◌||◌, Option, none, some, List, [], ◌∷◌,
  ◌++◌, map, append-nil, append_assoc, map-append, arith, ltb, leb, if◌then◌else◌, Eq, ◌==◌, nat_eq,
  string_eq, Bool-cases, Option-cases, or_true_cases, and_true_parts, beq_refl, beq_sym, length,
  take, drop, get_elem?, filter, find?, any, all, All, length-append, take-append-drop, length-take,
  length-drop, take_of_length_le, length-map, filter-append, length-filter-le, filter-filter,
  All-append, All-filter_self, sum_of, sum_of-append, is_nil, sum_of-map, All-map,
}
use omni_python_web_template.Base.Collections.{
  includes, IsNodup, set_add, set_add_all, set_of, set_delete, set_delete_all, includes-append,
  includes-filter, includes-set_add, includes-set_add_all, includes-set_delete,
  includes-set_delete_all, IsNodup-append_one, set_add-IsNodup, set_add_all-IsNodup, filter-IsNodup,
  lookup, insert, remove, keys, lookup-insert, lookup-remove, includes-keys-insert,
  keys-insert_of_includes, lookup_cases, keys-insert, lookup_absent, map_ext, All-of_includes,
  All-includes, filter_of_All, set_add_all_of_All,
}
use omni_python_web_template.TablePreference.{TablePreferenceConfig}
use omni_python_web_template.TablePreference.Normalized.{serialize_table_preference_config}

-- `updated_at` of the answer, or a failure
pub data SaveAnswer : Type 0 where
  saved : String → SaveAnswer
  failed : SaveAnswer

pub record Saver : Type 0 where
  -- `saveTimer.current`
  pub save_timer : Option ℕ
  -- the browser's timers, and the number of the next one
  pub pending : List (ℕ × TablePreferenceConfig)
  pub next_timer : ℕ
  -- `api.tablePreferences.save`: the payloads sent so far, the first one first
  pub sent : List TablePreferenceConfig
  -- those whose answer is awaited
  pub in_flight : List TablePreferenceConfig
  -- `writeCache(payload, updated_at)`
  pub cache_writes : List (TablePreferenceConfig × String)
  pub toasts : ℕ

abbrev pub new_saver : Saver
new_saver = record {
  save_timer = none;
  pending = [];
  next_timer = 0;
  sent = [];
  in_flight = [];
  cache_writes = [];
  toasts = 0;
}

-- `if (saveTimer.current != null) window.clearTimeout(saveTimer.current)`
abbrev pub clear_timeout :
    Option ℕ → List (ℕ × TablePreferenceConfig) → List (ℕ × TablePreferenceConfig)
clear_timeout none timers = timers
clear_timeout (some id) timers = remove id timers

-- `api.tablePreferences.save(pageKey, tableKey, payload)`
abbrev pub send_payload : TablePreferenceConfig → Saver → Saver
send_payload payload s = record s {
  sent = s.sent ++ (payload ∷ []);
  in_flight = s.in_flight ++ (payload ∷ []);
}

unfoldable pub schedule_table_preference_save : Saver → TablePreferenceConfig → Saver
schedule_table_preference_save s next = record s {
  save_timer = some s.next_timer;
  pending =
      clear_timeout s.save_timer s.pending
      ++ ((s.next_timer, serialize_table_preference_config next) ∷ []);
  next_timer = s.next_timer + 1;
}

unfoldable pub flush_table_preference_save : Saver → TablePreferenceConfig → Saver
flush_table_preference_save s next =
    send_payload (serialize_table_preference_config next)
      (record s { save_timer = none; pending = clear_timeout s.save_timer s.pending })

abbrev pub run_callback : Option TablePreferenceConfig → ℕ → Saver → Saver
run_callback none id s = s
run_callback (some payload) id s = send_payload payload (record s { pending = remove id s.pending })

-- The browser runs a timer: its callback sends the payload, and leaves `saveTimer.current` as it is.
unfoldable pub fire : Saver → ℕ → Saver
fire s id = run_callback (lookup id s.pending) id s

-- What follows the answer of one save: `.then` and `.catch`, or the end of the `try`
abbrev pub settle : SaveAnswer → TablePreferenceConfig → Saver → Saver
settle (saved updated_at) payload s = record s {
  cache_writes = s.cache_writes ++ ((payload, updated_at) ∷ []);
}
settle failed payload s = record s { toasts = s.toasts + 1 }

abbrev pub answer_at : Option TablePreferenceConfig → ℕ → SaveAnswer → Saver → Saver
answer_at none k a s = s
answer_at (some payload) k a s =
    settle a payload (record s { in_flight = take k s.in_flight ++ drop (k + 1) s.in_flight })

-- The answers come in any order: `k` is the place among those awaited.
unfoldable pub answer_save : Saver → ℕ → SaveAnswer → Saver
answer_save s k a = answer_at (get_elem? s.in_flight k) k a s

pub data SaveEvent : Type 0 where
  change_later : TablePreferenceConfig → SaveEvent
  change_now : TablePreferenceConfig → SaveEvent
  timer : ℕ → SaveEvent
  save_answered : ℕ → SaveAnswer → SaveEvent

abbrev pub save_step : Saver → SaveEvent → Saver
save_step s (change_later next) = schedule_table_preference_save s next
save_step s (change_now next) = flush_table_preference_save s next
save_step s (timer id) = fire s id
save_step s (save_answered k a) = answer_save s k a

abbrev pub save_run : Saver → List SaveEvent → Saver
save_run s [] = s
save_run s (e ∷ es) = save_run (save_step s e) es
