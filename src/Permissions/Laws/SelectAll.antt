-- ===== src/Permissions/Laws/SelectAll.antt =====
-- lib/permissions.ts: selecting everything, the first menu, and the selections filtered by menus.
use omni_python_web_template.Base.{
  String, ◌≡◌, refl, ap, ◌∙◌, inl, inr, Bool, true, false, not, ◌&&◌, ◌||◌, List, [], ◌∷◌, map,
  arith, ◌==◌, nat_eq, string_eq, Bool-cases, get_elem?, filter, find?, any, all, All, is_nil,
}
use omni_python_web_template.Base.Collections.{
  includes, set_of, includes-append, includes-filter, includes-set_add_all, All-of_includes,
}
use mathlib.Core.Option
use omni_python_web_template.Permissions.{
  PermissionInfo, Nodes, code_of, is_menu, collect_all_menu_codes, first_menu_code,
  flatten_permission_tree, to_catalog_menu_tree,
}
use omni_python_web_template.Permissions.Options.{
  ButtonOption, collect_all_button_codes, build_select_all_assignment, is_full_assignment_selected,
  filter_button_options_by_menus, filter_button_codes_by_menus, menu_of_button, is_menu_code,
  merge_buttons_for_menu,
}

every : (xs : List String) → all (λ c. includes c (set_of xs)) xs ≡ true
every xs = go xs (
    All-of_includes (λ c. includes c (set_of xs) ≡ true) xs
      (λ c h. includes-set_add_all c [] xs ∙ h))
  where
    go :
        (ys : List String)
        → All (λ c. includes c (set_of xs) ≡ true) ys
        → all (λ c. includes c (set_of xs)) ys ≡ true
    go [] h = refl
    go (y ∷ ys) (e, h) = rw e (go ys h)

-- Selecting everything gives a full selection, unless the tree has neither a menu nor a button.
pub is_full-select_all :
    (locale_le : String → String → Bool) (tree : Nodes)
    → (let (menus, buttons) = build_select_all_assignment locale_le tree in
        is_full_assignment_selected locale_le tree menus buttons)
      ≡ not
          (is_nil (collect_all_menu_codes tree) && is_nil (collect_all_button_codes locale_le tree))
unfolding build_select_all_assignment is_full_assignment_selected
is_full-select_all locale_le tree =
    ground
      (arith, every (collect_all_menu_codes tree), every (collect_all_button_codes locale_le tree))

find-filter :
    (xs : List PermissionInfo)
    → Option.map code_of (find? is_menu xs) ≡ get_elem? (map code_of (filter is_menu xs)) 0
find-filter [] = refl
find-filter (x ∷ xs) = elim (Bool-cases (is_menu x)) [
  | inl e ↦ rw e refl
  | inr e ↦ rw e (find-filter xs)
]

-- The first menu is the first of all menu codes, and there is none exactly if there are none.
pub first_menu_code_lem :
    (tree : Nodes) → first_menu_code tree ≡ get_elem? (collect_all_menu_codes tree) 0
unfolding first_menu_code collect_all_menu_codes
first_menu_code_lem tree = find-filter (flatten_permission_tree (to_catalog_menu_tree tree))

includes-codes_of_filter :
    (p : ButtonOption → Bool) (c : String) (options : List ButtonOption)
    → includes c (map (λ o. o.code) (filter p options)) ≡ any (λ o. c == o.code && p o) options
includes-codes_of_filter p c [] = refl
includes-codes_of_filter p c (o ∷ options) = ground (arith, includes-codes_of_filter p c options)

any-ext :
    (p q : ButtonOption → Bool)
    → ((o : ButtonOption) → p o ≡ q o)
    → (options : List ButtonOption) → any p options ≡ any q options
any-ext p q h [] = refl
any-ext p q h (o ∷ options) = ground (arith, h o, any-ext p q h options)

any-false :
    (p : ButtonOption → Bool)
    → ((o : ButtonOption) → p o ≡ false)
    → (options : List ButtonOption) → any p options ≡ false
any-false p h [] = refl
any-false p h (o ∷ options) = ground (arith, h o, any-false p h options)

-- After the menus change, a selected button stays selected exactly if some option gives it to a
-- selected menu.
pub filter_button_codes_by_menus_lem :
    (codes : List String) (options : List ButtonOption) (menus : List String) (c : String)
    → includes c (filter_button_codes_by_menus codes options menus)
      ≡ (includes c codes && any (λ o. c == o.code && includes o.menu_code menus) options)
unfolding filter_button_codes_by_menus filter_button_options_by_menus
filter_button_codes_by_menus_lem codes options [] c =
    ground (arith, any-false (λ o. c == o.code && false) (λ o. ground arith) options)
filter_button_codes_by_menus_lem codes options (m ∷ ms) c =
    let menus = m ∷ ms in
    let kept = filter (λ o. includes o.menu_code (set_of menus)) options in
    let allowed = map (λ o. o.code) kept in
    includes-filter (λ x. includes x (set_of allowed)) c codes
    ∙ ground (
      arith,
      includes-set_add_all c [] allowed,
      includes-codes_of_filter (λ o. includes o.menu_code (set_of menus)) c options,
      any-ext (λ o. c == o.code && includes o.menu_code (set_of menus))
          (λ o. c == o.code && includes o.menu_code menus)
          (λ o. ap (λ b. c == o.code && b) (includes-set_add_all o.menu_code [] menus)) options,
    )

-- Replacing the buttons of one menu keeps the selected buttons of every other menu and selects, of
-- the menu's own buttons, exactly the given ones.
pub merge_buttons_for_menu_lem :
    (menu_code : String) (given selected : List String) (options : List ButtonOption) (c : String)
    → includes c (merge_buttons_for_menu menu_code given selected options) ≡ (
        (includes c selected && not (is_menu_code menu_code (menu_of_button options c)))
        || includes c given)
unfolding merge_buttons_for_menu
merge_buttons_for_menu_lem menu_code given selected options c = ground (
  arith,
  includes-append c (filter (λ x. not (is_menu_code menu_code (menu_of_button options x))) selected)
      given,
  includes-filter (λ x. not (is_menu_code menu_code (menu_of_button options x))) c selected,
)
