-- ===== src/TablePreference/Loading.antt =====
-- hooks/table-preferences-helpers.ts: the loading of a saved configuration.
use omni_python_web_template.Base.{
  ℕ, Bool, true, Option, none, some, List, [], ◌∷◌, ◌++◌, leb, if◌then◌else◌, nat_eq, string_eq,
}
use omni_python_web_template.Base.Num.{Fraction}
use omni_python_web_template.TablePreference.{TablePreferenceConfig, TableColumnDef}
use omni_python_web_template.TablePreference.Config.{build_default_config, merge_preference_config}
use omni_python_web_template.TablePreference.Normalized.{RawConfig}

-- The answer of the store: an error, or a configuration with the time of its last change.
pub data Remote : Type 0 where
  failed : Remote
  nothing_saved : Remote
  saved : RawConfig → ℕ → Remote

-- What a load does, in order: the configurations it shows, the cache it writes, whether it is
-- ready, and the error it reports.
pub data LoadStep : Type 0 where
  show_config : TablePreferenceConfig → LoadStep
  write_cache : TablePreferenceConfig → ℕ → LoadStep
  ready : LoadStep
  report_error : LoadStep

module _ (default_columns : List TableColumnDef) (default_row_height : Fraction) where
  abbrev pub merged : RawConfig → TablePreferenceConfig
  merged raw = merge_preference_config default_columns (some raw) default_row_height

  abbrev pub base_config : TablePreferenceConfig
  base_config = build_default_config default_columns default_row_height

  abbrev shown_cache : Option (RawConfig × ℕ) → List LoadStep
  shown_cache none = []
  shown_cache (some (raw, t)) = show_config (merged raw) ∷ ready ∷ []

  -- The answer is used unless the cache is newer.
  abbrev pub is_fresh : Option (RawConfig × ℕ) → ℕ → Bool
  is_fresh none time = true
  is_fresh (some (raw, cached)) time = leb cached time

  abbrev answered : Option (RawConfig × ℕ) → Remote → List LoadStep
  answered none failed = show_config base_config ∷ ready ∷ report_error ∷ []
  answered (some c) failed = report_error ∷ []
  answered none nothing_saved = show_config base_config ∷ ready ∷ []
  answered (some c) nothing_saved = []
  answered none (saved raw time) =
      show_config (merged raw) ∷ write_cache (merged raw) time ∷ ready ∷ []
  answered (some c) (saved raw time) =
      if is_fresh (some c) time
      then show_config (merged raw) ∷ write_cache (merged raw) time ∷ []
      else []

  -- `active_after_cache` and `active_after_answer`: whether the table is still mounted.
  unfoldable pub load_table_preferences :
      Option (RawConfig × ℕ)
      → Remote
      → (active_after_cache active_after_answer : Bool) → List LoadStep
  load_table_preferences cached failed active_after_cache active_after_answer =
      if active_after_cache then shown_cache cached ++ answered cached failed else []
  load_table_preferences cached remote active_after_cache active_after_answer =
      if active_after_cache
      then shown_cache cached ++ (if active_after_answer then answered cached remote else [])
      else []
