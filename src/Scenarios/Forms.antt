-- ===== src/Scenarios/Forms.antt =====
-- A range of days that is picked, a role that is created, a phone's list, filters in rows and a layout
-- that is stored.
use omni_python_web_template.Base.{
  ℕ, ◌-◌, ◌≤◌, min, max, String, ◌≡◌, refl, Bool, true, false, Option, none, some, List, [], ◌∷◌,
  ◌++◌, map, arith, if◌then◌else◌, ◌==◌, nat_eq, string_eq, length, All,
}
use omni_python_web_template.Base.Collections.{set_of}
use omni_python_web_template.Base.Num.{whole}
use omni_python_web_template.Base.Codes.{codes, trim_codes, trim_codes_end, trim_codes_start}
use omni_python_web_template.Base.Text.{is_space}
use omni_python_web_template.DataScope.{is_scope_refused}
use omni_python_web_template.Permissions.{no_nodes}
use omni_python_web_template.DateRangePicker.{
  Picker, idle, from_of, to_of, value_to_range, handle_open_change, handle_select,
}
use omni_python_web_template.DateRangePicker.Picks.{value_of, anchor_of, handle_select-twice}
use omni_python_web_template.Roles.{
  RolesPage, CreateForm, RoleAnswers, tenant, is_refused, handle_create, is_role_code_refused,
  is_role_name_refused,
}
use omni_python_web_template.Roles.Requests.{AllSound, role_run, role_created, role_run-AllSound}
use omni_python_web_template.ListPaging.Mobile.{pages_arrived}
use omni_python_web_template.ListPaging.Mobile.Rows.{all_keys, keys-pages_arrived}
use omni_python_web_template.FilterGrid.{
  rendered, resolve_action_field_render_count, chunk_filter_fields, resolve_filter_cols_per_row,
  resolve_filter_toolbar_row_layout,
}
use omni_python_web_template.FilterGrid.Rows.{rendered-chunk_filter_fields}
use omni_python_web_template.DeviceNavLayout.{
  DeviceNavLayout, Window, left, read_device_nav_layout, write_device_nav_layout,
  normalize_nav_layout, raw_of,
}
use omni_python_web_template.DeviceNavLayout.Stored.{Fits, read-write_device_nav_layout}
use omni_python_web_template.Base.{nat_beq}
use omni_python_web_template.Roles.Closing.{ClosesIf, all_answered, handle_create-ClosesIf}

-- Days are read and written in any way here.
abbrev read_day : String → Option ℕ
read_day s = if s == "" then none else some 5

abbrev write_day : ℕ → String
write_day n = if n == 5 then "fifth" else "other"

abbrev closed_picker : Picker
closed_picker = record {
  is_open = false;
  range = none;
  phase = idle;
  hover_date = none;
  value = record { from = "fifth"; to = "" };
  changes = [];
}

handle_select-twice_example :
    (let range = value_to_range read_day write_day closed_picker.value in
      let opened = handle_open_change read_day write_day true closed_picker in
      let out =
        handle_select read_day write_day nat_beq 3
          (handle_select read_day write_day nat_beq 8 opened) in
      let x = anchor_of read_day write_day nat_beq (from_of range) (to_of range) 8 in
      (out.changes
        ≡ closed_picker.changes ++ (value_of read_day write_day (min x 3) (max x 3) ∷ []))
      × (out.value ≡ value_of read_day write_day (min x 3) (max x 3))
      × (out.is_open ≡ false))
handle_select-twice_example = handle_select-twice read_day write_day nat_beq 8 3 closed_picker

abbrev empty_page : RolesPage
empty_page = record {
  editing = none;
  create_open = true;
  func_perm_open = false;
  data_scope_open = false;
  code_error = false;
  name_error = false;
  data_scope_error = false;
  sent = [];
  form_resets = 0;
  loads = 0;
  toasts = 0;
}

abbrev auditor : CreateForm
auditor = record {
  code = codes "auditor";
  name = codes "Auditor";
  description = [];
  data_scope = 4;
  dept_ids = 3 ∷ [];
  menus = [];
  buttons = [];
  role_type = tenant;
}

abbrev scope_lost : RoleAnswers
scope_lost = record {
  created = some 9;
  scope_saved = false;
  permissions_saved = true;
  loaded = true;
}

abbrev any_order : String → String → Bool
any_order a b = true

auditor_passes : is_refused any_order false no_nodes no_nodes auditor ≡ false
unfolding is_role_code_refused is_role_name_refused trim_codes trim_codes_end trim_codes_start
    is_space is_scope_refused
auditor_passes = refl

role_run-AllSound_example :
    AllSound any_order false no_nodes no_nodes
      (role_run any_order false no_nodes no_nodes empty_page (role_created auditor scope_lost ∷ []))
role_run-AllSound_example =
    role_run-AllSound any_order false no_nodes no_nodes (role_created auditor scope_lost ∷ [])
      empty_page tt

handle_create-ClosesIf_example :
    ClosesIf any_order false no_nodes no_nodes
      (all_answered any_order false no_nodes no_nodes (some 9) auditor scope_lost)
      true
      (handle_create any_order false no_nodes no_nodes auditor scope_lost empty_page)
      empty_page
handle_create-ClosesIf_example =
    handle_create-ClosesIf any_order false no_nodes no_nodes auditor scope_lost empty_page
      auditor_passes

-- Rows that are their own keys
abbrev own_key : ℕ → ℕ
own_key n = n

keys-pages_arrived_example :
    map own_key (pages_arrived own_key 1 ((1 ∷ 2 ∷ []) ∷ (2 ∷ 3 ∷ []) ∷ []) (7 ∷ []))
    ≡ set_of (all_keys own_key ((1 ∷ 2 ∷ []) ∷ (2 ∷ 3 ∷ []) ∷ []))
keys-pages_arrived_example =
    keys-pages_arrived own_key (1 ∷ 2 ∷ []) ((2 ∷ 3 ∷ []) ∷ []) (7 ∷ []) (refl, (refl, tt))
      ((refl, (refl, tt)), tt)

abbrev filters : List ℕ
filters = 1 ∷ 2 ∷ 3 ∷ 4 ∷ 5 ∷ 6 ∷ 7 ∷ 8 ∷ []

rendered-chunk_filter_fields_example :
    (let cols = resolve_filter_cols_per_row false 4 in
      let rows = chunk_filter_fields filters cols in
      let layout = resolve_filter_toolbar_row_layout rows true false in
      All (λ r. length r ≤ cols) rows
      × ((missing : List ℕ) × (rendered layout ++ missing ≡ filters) × (length missing ≤ cols - 3)))
rendered-chunk_filter_fields_example =
    rendered-chunk_filter_fields filters false true false 4 (omega arith)

-- Of eight filters in four columns the last one is not shown.
eight_filters :
    rendered (resolve_filter_toolbar_row_layout (chunk_filter_fields filters 4) true false)
    ≡ 1 ∷ 2 ∷ 3 ∷ 4 ∷ 5 ∷ 6 ∷ 7 ∷ []
unfolding rendered chunk_filter_fields resolve_filter_toolbar_row_layout
    resolve_action_field_render_count
eight_filters = refl

abbrev wide : DeviceNavLayout
wide = record {
  position = left;
  width = whole 900;
  collapsed = false;
  expand_fab = some record { x = whole 5000; y = whole 20 };
}

abbrev screen : Window
screen = record { inner_width = 1280; inner_height = 800 }

read-write_device_nav_layout_example :
    (let out = read_device_nav_layout screen (write_device_nav_layout screen wide) in
      (out ≡ normalize_nav_layout screen (raw_of wide)) × Fits screen out)
read-write_device_nav_layout_example = read-write_device_nav_layout screen wide
