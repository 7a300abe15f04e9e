-- ===== src/DeviceNavLayout/Stored.antt =====
-- A stored layout is read back, and fits the window (web/src/lib/device-nav-layout.ts).
use omni_python_web_template.Base.{
  ℕ, ◌-◌, ◌≤◌, min, max, ◌≡◌, refl, sym, ap, ◌∙◌, subst, inl, inr, true, Option, none, some, arith,
  nat_eq, string_eq, Bool-cases,
}
use omni_python_web_template.Base.Num.{Fraction, round, whole, round-whole}
use omni_python_web_template.DeviceNavLayout.{
  ExpandFabPosition, DeviceNavLayout, Window, clamp_width, clamp_place, clamp_expand_fab_position,
  clamped_fab, normalize_nav_layout, stored_fab, raw_of, is_valid_layout, is_valid_fab,
  read_device_nav_layout, write_device_nav_layout, sidebar_min_width, sidebar_max_width,
  expand_fab_size,
}

-- The button, if it is there, is inside the window, if the window has room for it.
abbrev pub FabFits : Window → Option ExpandFabPosition → Type 0
FabFits window none = Unit
FabFits window (some fab) =
    (round fab.x ≤ window.inner_width - expand_fab_size)
    × (round fab.y ≤ window.inner_height - expand_fab_size)

abbrev pub Fits : Window → DeviceNavLayout → Type 0
Fits window layout =
    (sidebar_min_width ≤ round layout.width)
    × (round layout.width ≤ sidebar_max_width)
    × FabFits window layout.expand_fab

clamped_again :
    (v : Fraction) (inner size : ℕ)
    → clamp_place (clamp_place v inner size) inner size ≡ clamp_place v inner size
clamped_again v inner size =
    let n = min (inner - size) (round v) in
    let same : round (whole n) ≡ n = round-whole n in
    let inside : min (inner - size) n ≡ n = omega arith in
    ap whole (ap (min (inner - size)) same ∙ inside)

clamp_width_again : (v : Fraction) → clamp_width (whole (clamp_width v)) ≡ clamp_width v
unfolding clamp_width
clamp_width_again v =
    let n = min sidebar_max_width (max sidebar_min_width (round v)) in
    let same : round (whole n) ≡ n = round-whole n in
    ap (λ k. min sidebar_max_width (max sidebar_min_width k)) same ∙ omega arith

clamped_fab_again :
    (window : Window) (o : Option ExpandFabPosition)
    → clamped_fab window (stored_fab (clamped_fab window (stored_fab o)))
      ≡ clamped_fab window (stored_fab o)
unfolding clamp_expand_fab_position
clamped_fab_again window none = refl
clamped_fab_again window (some fab) = λ i. some record {
  x = clamped_again fab.x window.inner_width expand_fab_size i;
  y = clamped_again fab.y window.inner_height expand_fab_size i;
}

valid_fab : (o : Option ExpandFabPosition) → is_valid_fab (stored_fab o) ≡ true
valid_fab none = refl
valid_fab (some fab) = refl

normalize_again :
    (window : Window) (layout : DeviceNavLayout)
    → normalize_nav_layout window (raw_of (normalize_nav_layout window (raw_of layout)))
      ≡ normalize_nav_layout window (raw_of layout)
unfolding normalize_nav_layout
normalize_again window layout = λ i. record {
  position = layout.position;
  width = whole (clamp_width_again layout.width i);
  collapsed = layout.collapsed;
  expand_fab = clamped_fab_again window layout.expand_fab i;
}

fits_fab :
    (window : Window) (o : Option ExpandFabPosition)
    → FabFits window (clamped_fab window (stored_fab o))
unfolding clamp_expand_fab_position
fits_fab window none = tt
fits_fab window (some fab) = (
  omega (arith, round-whole (min (window.inner_width - expand_fab_size) (round fab.x))),
  omega (arith, round-whole (min (window.inner_height - expand_fab_size) (round fab.y))),
)

normalized-Fits :
    (window : Window) (layout : DeviceNavLayout)
    → Fits window (normalize_nav_layout window (raw_of layout))
unfolding normalize_nav_layout clamp_width
normalized-Fits window layout =
    let n = min sidebar_max_width (max sidebar_min_width (round layout.width)) in
    (omega (arith, round-whole n), omega (arith, round-whole n), fits_fab window layout.expand_fab)

read-write :
    (window : Window) (layout : DeviceNavLayout)
    → read_device_nav_layout window (write_device_nav_layout window layout)
      ≡ normalize_nav_layout window (raw_of layout)
unfolding read_device_nav_layout write_device_nav_layout is_valid_layout
read-write window layout =
    elim (Bool-cases
      (is_valid_fab (stored_fab (normalize_nav_layout window (raw_of layout)).expand_fab))) [
        | inl fine ↦ rw fine (normalize_again window layout)
        | inr wrong ↦
            let fine = valid_fab (normalize_nav_layout window (raw_of layout)).expand_fab in cc
      ]

-- A layout that is written is read back, in the same window, as the written layout brought inside its
-- bounds; it fits: the side bar is 160 to 360 wide and the button is inside the window.
pub read-write_device_nav_layout :
    (window : Window) (layout : DeviceNavLayout)
    → let out = read_device_nav_layout window (write_device_nav_layout window layout) in
      (out ≡ normalize_nav_layout window (raw_of layout)) × Fits window out
read-write_device_nav_layout window layout = (
  read-write window layout,
  subst (Fits window) (sym (read-write window layout)) (normalized-Fits window layout),
)
