-- ===== src/TablePreference/Saving/Latest.antt =====
-- One timer at most is set, and the last configuration asked for is the last one sent
-- (web/src/hooks/table-preferences-helpers.ts).
use omni_python_web_template.Base.{
  ℕ, ◌+◌, ◌≤◌, ◌≡◌, refl, sym, ◌∙◌, inl, inr, true, false, Option, none, some, List, [], ◌∷◌, ◌++◌,
  arith, ◌==◌, nat_eq, string_eq, Bool-cases, beq_refl, length, take, drop, get_elem?,
}
use omni_python_web_template.Base.Collections.{lookup}
use omni_python_web_template.TablePreference.{TablePreferenceConfig}
use omni_python_web_template.TablePreference.Saving.{
  SaveAnswer, saved, failed, Saver, new_saver, clear_timeout, schedule_table_preference_save,
  flush_table_preference_save, run_callback, fire, settle, answer_at, answer_save, SaveEvent,
  change_later, change_now, timer, save_answered, save_step, save_run,
}
use omni_python_web_template.TablePreference.Normalized.{serialize_table_preference_config}

abbrev pub last_of {ℓ} : {A : Type ℓ} → List A → Option A
last_of [] = none
last_of (x ∷ []) = some x
last_of (x ∷ y ∷ ys) = last_of (y ∷ ys)

last_of-append_one {ℓ} : {A : Type ℓ} (xs : List A) (x : A) → last_of (xs ++ (x ∷ [])) ≡ some x
last_of-append_one [] x = refl
last_of-append_one (y ∷ []) x = refl
last_of-append_one (y ∷ z ∷ xs) x = last_of-append_one (z ∷ xs) x

-- The configuration asked for last, as it is sent.
abbrev pub asked : Option TablePreferenceConfig → SaveEvent → Option TablePreferenceConfig
asked l (change_later next) = some (serialize_table_preference_config next)
asked l (change_now next) = some (serialize_table_preference_config next)
asked l (timer id) = l
asked l (save_answered k a) = l

abbrev pub last_asked : Option TablePreferenceConfig → List SaveEvent → Option TablePreferenceConfig
last_asked l [] = l
last_asked l (e ∷ es) = last_asked (asked l e) es

-- Either no timer is set and the last configuration was sent, or the one timer that is set has it,
-- and a later change would clear that timer.
abbrev pub Tidy :
    List (ℕ × TablePreferenceConfig)
    → Option ℕ
    → List TablePreferenceConfig
    → Option TablePreferenceConfig
    → Type 0
Tidy [] t done l = last_of done ≡ l
Tidy ((id, c) ∷ []) t done l = (t ≡ some id) × (l ≡ some c)
Tidy (p ∷ q ∷ ps) t done l = false ≡ true

abbrev pub IsTidy : Saver → Option TablePreferenceConfig → Type 0
IsTidy s l = Tidy s.pending s.save_timer s.sent l

clear_timeout-Tidy :
    (ps : List (ℕ × TablePreferenceConfig)) (t : Option ℕ) (done : List TablePreferenceConfig)
    (l : Option TablePreferenceConfig)
    → Tidy ps t done l
    → clear_timeout t ps ≡ []
clear_timeout-Tidy [] none done l h = refl
clear_timeout-Tidy [] (some id) done l h = refl
clear_timeout-Tidy ((id, c) ∷ []) t done l (h, k) = rw (h, beq_refl id) refl
clear_timeout-Tidy (p ∷ q ∷ ps) t done l h = cc

schedule-IsTidy :
    (s : Saver) (l : Option TablePreferenceConfig) (next : TablePreferenceConfig)
    → IsTidy s l
    → IsTidy (schedule_table_preference_save s next) (some (serialize_table_preference_config next))
unfolding schedule_table_preference_save
schedule-IsTidy s l next h = rw (clear_timeout-Tidy s.pending s.save_timer s.sent l h) (refl, refl)

flush-IsTidy :
    (s : Saver) (l : Option TablePreferenceConfig) (next : TablePreferenceConfig)
    → IsTidy s l
    → IsTidy (flush_table_preference_save s next) (some (serialize_table_preference_config next))
unfolding flush_table_preference_save
flush-IsTidy s l next h =
    rw (clear_timeout-Tidy s.pending s.save_timer s.sent l h)
      (last_of-append_one s.sent (serialize_table_preference_config next))

-- A timer's callback, the timers being `ps`
fire-Tidy :
    (ps : List (ℕ × TablePreferenceConfig)) (s : Saver) (id : ℕ) (l : Option TablePreferenceConfig)
    → Tidy ps s.save_timer s.sent l
    → IsTidy (run_callback (lookup id ps) id (record s { pending = ps })) l
fire-Tidy [] s id l h = h
fire-Tidy ((j, c) ∷ []) s id l (h, k) = elim (Bool-cases (j == id)) [
  | inl same ↦ rw (same, same) (last_of-append_one s.sent c ∙ sym k)
  | inr other ↦ rw other (h, k)
]
fire-Tidy (p ∷ q ∷ ps) s id l h = cc

settle-IsTidy :
    (a : SaveAnswer) (payload : TablePreferenceConfig) (s : Saver)
    (l : Option TablePreferenceConfig)
    → IsTidy s l
    → IsTidy (settle a payload s) l
settle-IsTidy (saved updated_at) payload s l h = h
settle-IsTidy failed payload s l h = h

answer_at-IsTidy :
    (o : Option TablePreferenceConfig) (k : ℕ) (a : SaveAnswer) (s : Saver)
    (l : Option TablePreferenceConfig)
    → IsTidy s l
    → IsTidy (answer_at o k a s) l
answer_at-IsTidy none k a s l h = h
answer_at-IsTidy (some payload) k a s l h =
    settle-IsTidy a payload
      (record s { in_flight = take k s.in_flight ++ drop (k + 1) s.in_flight }) l h

save_step-IsTidy :
    (s : Saver) (l : Option TablePreferenceConfig) (e : SaveEvent)
    → IsTidy s l
    → IsTidy (save_step s e) (asked l e)
unfolding fire answer_save
save_step-IsTidy s l (change_later next) h = schedule-IsTidy s l next h
save_step-IsTidy s l (change_now next) h = flush-IsTidy s l next h
save_step-IsTidy s l (timer id) h = fire-Tidy s.pending s id l h
save_step-IsTidy s l (save_answered k a) h = answer_at-IsTidy (get_elem? s.in_flight k) k a s l h

save_run-IsTidy :
    (s : Saver) (l : Option TablePreferenceConfig) (es : List SaveEvent)
    → IsTidy s l
    → IsTidy (save_run s es) (last_asked l es)
save_run-IsTidy s l [] h = h
save_run-IsTidy s l (e ∷ es) h =
    save_run-IsTidy (save_step s e) (asked l e) es (save_step-IsTidy s l e h)

one_timer :
    (ps : List (ℕ × TablePreferenceConfig)) (t : Option ℕ) (done : List TablePreferenceConfig)
    (l : Option TablePreferenceConfig)
    → Tidy ps t done l
    → (length ps ≤ 1) × (clear_timeout t ps ≡ [])
one_timer [] t done l h = (omega arith, clear_timeout-Tidy [] t done l h)
one_timer (p ∷ []) t done l h = (omega arith, clear_timeout-Tidy (p ∷ []) t done l h)
one_timer (p ∷ q ∷ ps) t done l h = cc

-- After any changes, timers and answers, one timer at most is set, and `saveTimer` names it: clearing
-- what `saveTimer` names leaves none.
pub save_run-one_timer :
    (es : List SaveEvent)
    → (length (save_run new_saver es).pending ≤ 1)
      × (clear_timeout (save_run new_saver es).save_timer (save_run new_saver es).pending ≡ [])
save_run-one_timer es =
    let s = save_run new_saver es in
    one_timer s.pending s.save_timer s.sent (last_asked none es)
      (save_run-IsTidy new_saver none es refl)

-- The browser runs the timer that `saveTimer` names, if it is set.
abbrev pub time_out : Option ℕ → Saver → Saver
time_out none s = s
time_out (some id) s = fire s id

time_out-Tidy :
    (ps : List (ℕ × TablePreferenceConfig)) (t : Option ℕ) (s : Saver)
    (l : Option TablePreferenceConfig)
    → Tidy ps t s.sent l
    → (last_of (time_out t (record s { pending = ps })).sent ≡ l)
      × ((time_out t (record s { pending = ps })).pending ≡ [])
unfolding fire
time_out-Tidy [] none s l h = (h, refl)
time_out-Tidy [] (some id) s l h = (h, refl)
time_out-Tidy ((j, c) ∷ []) t s l (h, k) =
    rw (h, beq_refl j, beq_refl j) (last_of-append_one s.sent c ∙ sym k, refl)
time_out-Tidy (p ∷ q ∷ ps) t s l h = cc

-- After any changes, timers and answers, once the timer has run that `saveTimer` names, no timer is
-- left, and the last configuration sent to the server is the last one asked for.
pub save_run-time_out :
    (es : List SaveEvent)
    → (last_of (time_out (save_run new_saver es).save_timer (save_run new_saver es)).sent
        ≡ last_asked none es)
      × ((time_out (save_run new_saver es).save_timer (save_run new_saver es)).pending ≡ [])
save_run-time_out es =
    let s = save_run new_saver es in
    time_out-Tidy s.pending s.save_timer s (last_asked none es)
      (save_run-IsTidy new_saver none es refl)
