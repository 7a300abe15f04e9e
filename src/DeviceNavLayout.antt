-- ===== src/DeviceNavLayout.antt =====
-- The device's layout of the navigation (web/src/lib/device-nav-layout.ts), in a browser: its window is
-- an argument. A stored layout is what `JSON.parse` gives, with `none` for a field of another type; the
-- storage either keeps what is written or has nothing.
pub mod Stored
use omni_python_web_template.Base.{
  ℕ, zero, suc, ◌+◌, ◌-◌, ◌*◌, ◌/◌, ◌%◌, ◌≤◌, ◌<◌, min, max, String, ◌≡◌, refl, sym, ap, ◌∙◌, subst,
  ◌≢◌, ◌↔◌, ◌⊎◌, inl, inr, Bool, true, false, not, ◌&&◌, ◌||◌, Option, none, some, List, [], ◌∷◌,
  ◌++◌, map, append-nil, append_assoc, map-append, arith, ltb, leb, if◌then◌else◌, Eq, ◌==◌, nat_eq,
  string_eq, Bool-cases, Option-cases, or_true_cases, and_true_parts, beq_refl, beq_sym, length,
  take, drop, get_elem?, filter, find?, any, all, All, length-append, take-append-drop, length-take,
  length-drop, take_of_length_le, length-map, filter-append, length-filter-le, filter-filter,
  All-append, All-filter_self, sum_of, sum_of-append, is_nil, sum_of-map, All-map,
}
use omni_python_web_template.Base.Collections.{
  includes, IsNodup, set_add, set_add_all, set_of, set_delete, set_delete_all, includes-append,
  includes-filter, includes-set_add, includes-set_add_all, includes-set_delete,
  includes-set_delete_all, IsNodup-append_one, set_add-IsNodup, set_add_all-IsNodup, filter-IsNodup,
  lookup, insert, remove, keys, lookup-insert, lookup-remove, includes-keys-insert,
  keys-insert_of_includes, lookup_cases, keys-insert, lookup_absent, map_ext, All-of_includes,
  All-includes, filter_of_All, set_add_all_of_All,
}
use omni_python_web_template.Base.Num.{Fraction, round, whole}

pub data NavMenuPosition : Type 0 where
  left : NavMenuPosition
  right : NavMenuPosition
  top : NavMenuPosition
  bottom : NavMenuPosition

pub record ExpandFabPosition : Type 0 where
  pub x : Fraction
  pub y : Fraction

pub record DeviceNavLayout : Type 0 where
  pub position : NavMenuPosition
  pub width : Fraction
  pub collapsed : Bool
  pub expand_fab : Option ExpandFabPosition

-- `Partial<DeviceNavLayout>`; the button is `some none` if it is there with another shape.
pub record RawLayout : Type 0 where
  pub position : Option NavMenuPosition
  pub width : Option Fraction
  pub collapsed : Option Bool
  pub expand_fab : Option (Option ExpandFabPosition)

pub record Window : Type 0 where
  pub inner_width : ℕ
  pub inner_height : ℕ

abbrev pub sidebar_default_width : ℕ
sidebar_default_width = 180

abbrev pub sidebar_min_width : ℕ
sidebar_min_width = 160

abbrev pub sidebar_max_width : ℕ
sidebar_max_width = 360

abbrev pub expand_fab_size : ℕ
expand_fab_size = 36

abbrev pub default_layout : DeviceNavLayout
default_layout = record {
  position = left;
  width = whole sidebar_default_width;
  collapsed = false;
  expand_fab = none;
}

unfoldable pub clamp_width : Fraction → ℕ
clamp_width width = min sidebar_max_width (max sidebar_min_width (round width))

-- `Math.min(max, Math.max(0, Math.round(v)))`, where `max` is `Math.max(0, inner - size)`
abbrev pub clamp_place : Fraction → ℕ → ℕ → Fraction
clamp_place v inner size = whole (min (inner - size) (round v))

unfoldable pub clamp_expand_fab_position : Window → Fraction → Fraction → ℕ → ExpandFabPosition
clamp_expand_fab_position window x y size = record {
  x = clamp_place x window.inner_width size;
  y = clamp_place y window.inner_height size;
}

abbrev pub clamped_fab : Window → Option (Option ExpandFabPosition) → Option ExpandFabPosition
clamped_fab window none = none
clamped_fab window (some none) = none
clamped_fab window (some (some fab)) =
    some (clamp_expand_fab_position window fab.x fab.y expand_fab_size)

-- `value ?? other`
abbrev pub value_or {ℓ} : {A : Type ℓ} → Option A → A → A
value_or none other = other
value_or (some a) other = a

unfoldable pub normalize_nav_layout : Window → RawLayout → DeviceNavLayout
normalize_nav_layout window raw = record {
  position = value_or raw.position left;
  width = whole (clamp_width (value_or raw.width (whole sidebar_default_width)));
  collapsed = value_or raw.collapsed false;
  expand_fab = clamped_fab window raw.expand_fab;
}

-- A layout as it is stored
abbrev pub stored_fab : Option ExpandFabPosition → Option (Option ExpandFabPosition)
stored_fab none = none
stored_fab (some fab) = some (some fab)

abbrev pub raw_of : DeviceNavLayout → RawLayout
raw_of layout = record {
  position = some layout.position;
  width = some layout.width;
  collapsed = some layout.collapsed;
  expand_fab = stored_fab layout.expand_fab;
}

abbrev pub is_there {ℓ} : {A : Type ℓ} → Option A → Bool
is_there none = false
is_there (some a) = true

abbrev pub is_valid_fab : Option (Option ExpandFabPosition) → Bool
is_valid_fab none = true
is_valid_fab (some fab) = is_there fab

unfoldable pub is_valid_layout : RawLayout → Bool
is_valid_layout raw =
    is_there raw.position
    && is_there raw.width
    && is_there raw.collapsed
    && is_valid_fab raw.expand_fab

-- What is stored, if anything, and if it is an object
unfoldable pub read_device_nav_layout : Window → Option RawLayout → DeviceNavLayout
read_device_nav_layout window none = default_layout
read_device_nav_layout window (some raw) =
    if is_valid_layout raw then normalize_nav_layout window raw else default_layout

unfoldable pub write_device_nav_layout : Window → DeviceNavLayout → Option RawLayout
write_device_nav_layout window layout = some (raw_of (normalize_nav_layout window (raw_of layout)))

unfoldable pub is_side_nav_position : NavMenuPosition → Bool
is_side_nav_position left = true
is_side_nav_position right = true
is_side_nav_position top = false
is_side_nav_position bottom = false
